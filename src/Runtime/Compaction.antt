-- ===== src/Runtime/Compaction.antt =====
-- crates/tiny-mite-runtime/src/compaction.rs: the reduction of a context to a budget of tokens. The
-- token counts are `usize`, and their sums wrap as in a release build. A panic is `none`.
pub mod Budget
use tiny_mite.Prelude.{
  ℕ, ◌+◌, ◌-◌, ◌/◌, Bool, true, false, not, ◌&&◌, ◌||◌, u64, String, Option, some, none, List, [],
  ◌∷◌, map, ltb, leb, if◌then◌else◌, concat, byte_length, truncate,
}
use native.Mathlib.Decide
use mathlib.Core.Bool.{decide}
use mathlib.Core.Option

-- crates/tiny-mite-runtime/src/context.rs: the kinds of items, and an item, less the fields that
-- compaction does not read.
pub data ContextItemType : Type 0 where
  system_instruction user_message assistant_message tool_call tool_result : ContextItemType
  retrieved_document memory summary plan observation : ContextItemType
  constraint developer_instruction : ContextItemType

pub ContextItemType-discrete : Discrete ContextItemType
ContextItemType-discrete = hlevel

pub record ContextItem : Type 0 where
  pub id : String
  pub item_type : ContextItemType
  pub content : String
  pub token_count : ℕ
  pub priority : ℕ
  pub pinned : Bool

pub data CompactionStrategy : Type 0 where
  drop_oldest drop_low_priority truncate_to_headline merge_adjacent : CompactionStrategy

pub record CompactionResult : Type 0 where
  pub items_removed : ℕ
  pub items_truncated : ℕ
  pub tokens_before : ℕ
  pub tokens_after : ℕ
  pub target_met : Bool

pub record ContextCompactor : Type 0 where
  pub budget : ℕ
  pub strategy : CompactionStrategy
  pub max_content_length : ℕ

abbrev pub new_compactor : ℕ → CompactionStrategy → ContextCompactor
new_compactor budget strategy = record {
  budget = budget;
  strategy = strategy;
  max_content_length = 200;
}

unfoldable pub with_max_content_length : ContextCompactor → ℕ → ContextCompactor
with_max_content_length c len = record c { max_content_length = len }

-- `iter().map(|i| i.token_count).sum()`.
unfoldable pub sum_tokens : List ContextItem → ℕ
sum_tokens [] = 0
sum_tokens (i ∷ is) = u64 (i.token_count + sum_tokens is)

-- `-=` on `usize`, in a release build.
abbrev pub minus_usize : ℕ → ℕ → ℕ
minus_usize a b = u64 (a + 18446744073709551616 - b)

-- The loop of the two dropping strategies, from the running total: the items left, and the number
-- of items removed.
unfoldable pub drop_over : ℕ → ℕ → List ContextItem → List ContextItem × ℕ
drop_over budget total [] = ([], 0)
drop_over budget total (i ∷ is) =
    let rest = drop_over budget (minus_usize total i.token_count) is in
    if ltb budget total then (rest.0, rest.1 + 1) else (i ∷ is, 0)

-- `sort_by_key(|i| i.priority)`, which is stable.
unfoldable pub place_item : ContextItem → List ContextItem → List ContextItem
place_item i [] = i ∷ []
place_item i (j ∷ js) =
    let rest = place_item i js in if leb i.priority j.priority then i ∷ j ∷ js else j ∷ rest

unfoldable pub sort_items : List ContextItem → List ContextItem
sort_items [] = []
sort_items (i ∷ is) = place_item i (sort_items is)

-- A shortened content, with the count that the code estimates for it.
unfoldable pub shortened : ContextItem → String → ContextItem
shortened i text = record i {
  content = concat text "...";
  token_count = byte_length (concat text "...") / 3;
}

-- The loop of `TruncateToHeadline`: the items, and the number of items truncated.
unfoldable pub truncate_over : ℕ → ℕ → ℕ → List ContextItem → Option (List ContextItem × ℕ)
truncate_over budget most total [] = some ([], 0)
truncate_over budget most total (i ∷ is) = elim (leb total budget) [
  | true ↦ some (i ∷ is, 0)
  | false ↦ elim (ltb most (byte_length i.content)) [
    | false ↦ Option.map (λ r. (i ∷ r.0, r.1)) (truncate_over budget most total is)
    | true ↦ elim (truncate most i.content) [
      | none ↦ none
      | some text ↦
          let j = shortened i text in
          Option.map (λ r. (j ∷ r.0, r.1 + 1))
            (truncate_over budget most (total - (i.token_count - j.token_count)) is)
    ]
  ]
]

abbrev pub same_type : ContextItem → ContextItem → Bool
same_type i j = decide (ContextItemType-discrete i.item_type j.item_type)

-- Two adjacent items as one.
unfoldable pub merged : ContextItem → ContextItem → ContextItem
merged i j =
    let text = concat i.content (concat " | " j.content) in
    record i { content = text; token_count = byte_length text / 3 }

-- The loop of `MergeAdjacent`: the items, and the number of items merged into another.
unfoldable pub merge_pairs : List ContextItem → List ContextItem × ℕ
merge_pairs [] = ([], 0)
merge_pairs (i ∷ []) = (i ∷ [], 0)
merge_pairs (i ∷ j ∷ is) = elim (same_type i j) [
  | true ↦ let rest = merge_pairs is in (merged i j ∷ rest.0, rest.1 + 1)
  | false ↦ let rest = merge_pairs (j ∷ is) in (i ∷ rest.0, rest.1)
]

-- What `compact` returns, from the items left and the numbers removed and truncated.
unfoldable pub outcome :
    ContextCompactor → ℕ → List ContextItem → ℕ → ℕ → List ContextItem × CompactionResult
outcome c before items removed truncated = (
  items,
  record {
    items_removed = removed;
    items_truncated = truncated;
    tokens_before = before;
    tokens_after = sum_tokens items;
    target_met = leb (sum_tokens items) c.budget;
  },
)

-- The strategies, once the budget is exceeded.
unfoldable pub reduce :
    ContextCompactor
    → CompactionStrategy
    → List ContextItem
    → Option (List ContextItem × CompactionResult)
reduce c CompactionStrategy.drop_oldest items =
    let before = sum_tokens items in
    let left = drop_over c.budget before items in some (outcome c before left.0 left.1 0)
reduce c CompactionStrategy.drop_low_priority items =
    let before = sum_tokens items in
    let left = drop_over c.budget before (sort_items items) in
    some (outcome c before left.0 left.1 0)
reduce c CompactionStrategy.truncate_to_headline items =
    let before = sum_tokens items in
    Option.map (λ (r : List ContextItem × ℕ). outcome c before r.0 0 r.1)
      (truncate_over c.budget c.max_content_length before items)
reduce c CompactionStrategy.merge_adjacent items =
    let left = merge_pairs items in some (outcome c (sum_tokens items) left.0 left.1 0)

abbrev pub merges : CompactionStrategy → Bool
merges CompactionStrategy.merge_adjacent = true
merges _ = false

-- The early return: nothing is changed.
abbrev pub unchanged : List ContextItem → List ContextItem × CompactionResult
unchanged items = (
  items,
  record {
    items_removed = 0;
    items_truncated = 0;
    tokens_before = sum_tokens items;
    tokens_after = sum_tokens items;
    target_met = true;
  },
)

-- `compact`.
unfoldable pub compact :
    ContextCompactor → List ContextItem → Option (List ContextItem × CompactionResult)
compact c items = elim (leb (sum_tokens items) c.budget && not (merges c.strategy)) [
  | true ↦ some (unchanged items)
  | false ↦ reduce c c.strategy items
]

-- ===== src/Runtime/Context/Compile.antt =====
-- `ContextCompiler::compile` of crates/tiny-mite-runtime/src/context.rs, after the eviction from the
-- zones. The number of the items is a `u32`.
pub mod Packing
pub mod Kept
use tiny_mite.Crates.{Crates}
use tiny_mite.Security.Validation.{Lowercase}
use tiny_mite.Runtime.Compaction.{ContextItemType}
use tiny_mite.Runtime.Context.{
  ContextItem, ContextWindow, ContextBudget, Shares, authority_rank, available_input_tokens,
  new_budget,
}
use tiny_mite.Runtime.Context.Eviction.{evict_zones}
use tiny_mite.Prelude.{
  ℕ, ◌+◌, ◌/◌, min, max, Bool, true, false, not, ◌&&◌, ◌||◌, String, Option, none, some, List, [],
  ◌∷◌, ◌++◌, all, length, ltb, leb, ◌==◌, if◌then◌else◌, u32, u64, saturating_add, concat,
  concat_all, has_prefix, is_some, lookup, insert, unwrap_or, string_eq,
}

-- `derive(Debug)`.
unfoldable pub type_name : ContextItemType → String
type_name ContextItemType.system_instruction = "SystemInstruction"
type_name ContextItemType.user_message = "UserMessage"
type_name ContextItemType.assistant_message = "AssistantMessage"
type_name ContextItemType.tool_call = "ToolCall"
type_name ContextItemType.tool_result = "ToolResult"
type_name ContextItemType.retrieved_document = "RetrievedDocument"
type_name ContextItemType.memory = "Memory"
type_name ContextItemType.summary = "Summary"
type_name ContextItemType.plan = "Plan"
type_name ContextItemType.observation = "Observation"
type_name ContextItemType.constraint = "Constraint"
type_name ContextItemType.developer_instruction = "DeveloperInstruction"

pub record CompiledContext (X : Crates) : Type 0 where
  pub items : List (ContextItem X)
  pub total_tokens : ℕ
  pub budget : ContextBudget
  pub evicted : List (ContextItem X)
  pub summarized : List (ContextItem X)
  pub warnings : List String
  pub quality_score : ℕ
  pub success : Bool

-- What the loop under the budget leaves.
pub record Packed (X : Crates) : Type 0 where
  pub final_items : List (ContextItem X)
  pub left_out : List (ContextItem X)
  pub notes : List String
  pub total : ℕ
  pub overflow_warned : Bool

module _ (X : Crates) where
  -- The order of the sort: pinned items first, then by authority, then the higher priority. `true`
  -- where the first does not come after the second.
  unfoldable pub not_after : ContextItem X → ContextItem X → Bool
  not_after a b =
      if a.pinned && not b.pinned
      then true
      else if b.pinned && not a.pinned
      then false
      else if ltb (authority_rank a.authority) (authority_rank b.authority)
      then true
      else if ltb (authority_rank b.authority) (authority_rank a.authority)
      then false
      else leb b.priority a.priority

  unfoldable pub place : ContextItem X → List (ContextItem X) → List (ContextItem X)
  place i [] = i ∷ []
  place i (j ∷ js) = if not_after i j then i ∷ (j ∷ js) else j ∷ place i js

  -- `sort_by`, which is stable.
  unfoldable pub sort : List (ContextItem X) → List (ContextItem X)
  sort [] = []
  sort (i ∷ is) = place i (sort is)

  unfoldable pub sum_relevance : List (ContextItem X) → ℕ
  sum_relevance [] = 0
  sum_relevance (i ∷ is) = u32 (i.relevance + sum_relevance is)

  unfoldable pub quality : List (ContextItem X) → ℕ
  quality items = min (sum_relevance items / u32 (max (length items) 1)) 100

  unfoldable pub duplicate_key : ContextItem X → String
  duplicate_key i = concat_all (type_name i.item_type ∷ ":" ∷ i.content ∷ [])

  -- The loop that drops duplicates: the items that are left, and how many are dropped. The map
  -- counts the occurrences of each key.
  unfoldable pub drop_duplicates :
      List (String × ℕ) → List (ContextItem X) → List (ContextItem X) × ℕ
  drop_duplicates seen [] = ([], 0)
  drop_duplicates seen (i ∷ is) =
      let count = unwrap_or (lookup (duplicate_key i) seen) 0 in
      let rest = drop_duplicates (insert (duplicate_key i) (count + 1) seen) is in
      if ltb 0 count then (rest.0, rest.1 + 1) else (i ∷ rest.0, rest.1)

module _ (X : Crates) (L : Lowercase) where
  unfoldable pub pinned_warning : String → ℕ → ℕ → String
  pinned_warning id total available = concat_all (
      "Pinned content ("
      ∷ id
      ∷ ") exceeds available context budget ("
      ∷ L.number_text total
      ∷ " used, "
      ∷ L.number_text available
      ∷ " available). System instructions may be truncated."
      ∷ [])

  -- The loop that keeps what fits: from the tokens so far and whether it has warned.
  unfoldable pub pack : ℕ → ℕ → Bool → List (ContextItem X) → Packed X
  pack available total warned [] = record {
    final_items = [];
    left_out = [];
    notes = [];
    total = total;
    overflow_warned = warned;
  }
  pack available total warned (i ∷ is) =
      let over = ltb available (u64 (total + i.token_count)) in
      let warn = i.pinned && over && not warned in
      let skip = over && not i.pinned in
      let rest =
        pack available (if skip then total else saturating_add total i.token_count) (warned || warn)
          is in
      record {
        final_items = if skip then rest.final_items else i ∷ rest.final_items;
        left_out = if skip then i ∷ rest.left_out else rest.left_out;
        notes = (if warn then pinned_warning i.id total available ∷ [] else []) ++ rest.notes;
        total = rest.total;
        overflow_warned = rest.overflow_warned;
      }

  -- All warnings of a compilation, in their order.
  unfoldable pub warnings_of : ℕ → Packed X → ℕ → List String
  warnings_of available p dropped =
      p.notes
      ++ ((if ltb available p.total && not p.overflow_warned
            then "Context overflow: total content exceeds model capacity" ∷ []
            else [])
          ++ (if ltb 0 dropped
              then concat_all ("Removed " ∷ L.number_text dropped ∷ " duplicate context items" ∷ [])
                ∷ []
              else []))

  -- `compile` once the zones are within their budgets: of all items left, and those evicted.
  unfoldable pub assemble :
      Shares → ℕ → ℕ → List (ContextItem X) → List (ContextItem X) → CompiledContext X
  assemble S context_total available items evicted =
      let p = pack available 0 false (sort X items) in
      let deduped = drop_duplicates X [] p.final_items in
      let warnings = warnings_of available p (deduped.1) in
      record {
        items = deduped.0;
        total_tokens = p.total;
        budget = new_budget S context_total;
        evicted = evicted ++ p.left_out;
        summarized = [];
        warnings = warnings;
        quality_score = quality X p.final_items;
        success = leb p.total available && all (λ w. not (has_prefix "Pinned content" w)) warnings;
      }

  -- `ContextCompiler::compile`: the window with the evicted items gone, and the result; a panic is
  -- `none`.
  unfoldable pub compile : Shares → ContextWindow X → Option (ContextWindow X × CompiledContext X)
  compile S w = elim (evict_zones X w.zones) [
    | none ↦ none
    | some (zones, items, evicted) ↦ some (
      record w { zones = zones },
      assemble S w.model_context_total (available_input_tokens X w) items evicted,
    )
  ]

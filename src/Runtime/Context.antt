-- ===== src/Runtime/Context.antt =====
-- crates/tiny-mite-runtime/src/context.rs: items, zones and the window of a context, and the budget
-- of crates/tiny-mite-runtime/src/inference.rs.
pub mod Eviction
pub mod Compile
use tiny_mite.Crates.{Crates}
use tiny_mite.Runtime.Compaction.{ContextItemType}
use tiny_mite.Prelude.{
  ℕ, ◌+◌, ◌-◌, ◌/◌, Bool, true, false, String, Option, none, some, List, [], ◌∷◌, ◌++◌, length, ltb,
  leb, if◌then◌else◌, u64, saturating_add, ◌===◌, string_eq,
}

-- From the highest authority to the lowest.
pub data Authority : Type 0 where
  system developer user tool retrieved_data archived : Authority

-- `as` a number, by which `Ord` compares.
unfoldable pub authority_rank : Authority → ℕ
authority_rank Authority.system = 0
authority_rank Authority.developer = 1
authority_rank Authority.user = 2
authority_rank Authority.tool = 3
authority_rank Authority.retrieved_data = 4
authority_rank Authority.archived = 5

pub data Sensitivity : Type 0 where
  public internal sensitive secret : Sensitivity

pub record ContextItem (X : Crates) : Type 0 where
  pub id : String
  pub item_type : ContextItemType
  pub content : String
  pub token_count : ℕ
  pub priority : ℕ
  pub relevance : ℕ
  pub authority : Authority
  pub pinned : Bool
  pub sensitivity : Sensitivity
  pub timestamp : X.Time
  pub source_id : Option String
  pub correlation_id : Option X.Uuid
  pub task_id : Option X.Uuid
  pub memory_id : Option X.Uuid
  pub document_id : Option X.Uuid

pub data EvictionPolicy : Type 0 where
  oldest_first lowest_priority lowest_relevance no_eviction : EvictionPolicy

pub record ContextZone (X : Crates) : Type 0 where
  pub name : String
  pub max_tokens : ℕ
  pub min_tokens : ℕ
  pub used_tokens : ℕ
  pub items : List (ContextItem X)
  pub eviction : EvictionPolicy

pub record ContextWindow (X : Crates) : Type 0 where
  pub model_context_total : ℕ
  pub safety_margin : ℕ
  pub output_budget : ℕ
  pub zones : List (ContextZone X)

pub record ContextBudget : Type 0 where
  pub max_total_tokens : ℕ
  pub system_tokens : ℕ
  pub conversation_tokens : ℕ
  pub retrieval_tokens : ℕ
  pub tool_tokens : ℕ
  pub output_tokens : ℕ

-- `(n as f64 * 0.05) as usize` and the like: so many hundredths of a number.
pub record Shares : Type 0 where
  pub share : ℕ → ℕ → ℕ

module _ (X : Crates) where
  -- `ContextItem::new`.
  unfoldable pub new_item :
      X.Time → String → ContextItemType → String → ℕ → Authority → ContextItem X
  new_item now id item_type content token_count authority = record {
    id = id;
    item_type = item_type;
    content = content;
    token_count = token_count;
    priority = 0;
    relevance = 0;
    authority = authority;
    pinned = false;
    sensitivity = Sensitivity.internal;
    timestamp = now;
    source_id = none;
    correlation_id = none;
    task_id = none;
    memory_id = none;
    document_id = none;
  }

  unfoldable pub pin : ContextItem X → ContextItem X
  pin i = record i { pinned = true }

  unfoldable pub set_priority : ℕ → ContextItem X → ContextItem X
  set_priority p i = record i { priority = p }

  unfoldable pub with_relevance : ℕ → ContextItem X → ContextItem X
  with_relevance r i = record i { relevance = r }

  unfoldable pub with_task : X.Uuid → ContextItem X → ContextItem X
  with_task t i = record i { task_id = some t }

  unfoldable pub is_conversation : ContextItem X → Bool
  is_conversation i = elim i.item_type [
    | ContextItemType.user_message ↦ true
    | ContextItemType.assistant_message ↦ true
    | _ ↦ false
  ]

  unfoldable pub is_sensitive : ContextItem X → Bool
  is_sensitive i = elim i.sensitivity [
    | Sensitivity.sensitive ↦ true
    | Sensitivity.secret ↦ true
    | _ ↦ false
  ]

  -- `ContextZone::new`.
  unfoldable pub new_zone : String → ℕ → EvictionPolicy → ContextZone X
  new_zone name max_tokens eviction = record {
    name = name;
    max_tokens = max_tokens;
    min_tokens = 0;
    used_tokens = 0;
    items = [];
    eviction = eviction;
  }

  unfoldable pub add_item : ContextItem X → ContextZone X → ContextZone X
  add_item i z = record z {
    used_tokens = saturating_add z.used_tokens i.token_count;
    items = z.items ++ (i ∷ []);
  }

  unfoldable pub can_accept : ℕ → ContextZone X → Bool
  can_accept additional z = leb (u64 (z.used_tokens + additional)) z.max_tokens

  unfoldable pub item_count : ContextZone X → ℕ
  item_count z = length z.items

  -- `ContextWindow::new`.
  unfoldable pub new_window : Shares → ℕ → ℕ → ContextWindow X
  new_window S total output =
      let safety = S.share 5 total in
      let remaining = total - output - safety in
      record {
        model_context_total = total;
        safety_margin = safety;
        output_budget = output;
        zones =
            new_zone "system" (S.share 15 remaining) EvictionPolicy.no_eviction
            ∷ new_zone "conversation" (S.share 50 remaining) EvictionPolicy.oldest_first
            ∷ new_zone "retrieval" (S.share 20 remaining) EvictionPolicy.lowest_relevance
            ∷ new_zone "tools" (S.share 15 remaining) EvictionPolicy.oldest_first
            ∷ [];
      }

  unfoldable pub available_input_tokens : ContextWindow X → ℕ
  available_input_tokens w = w.model_context_total - w.output_budget - w.safety_margin

  unfoldable pub sum_used : List (ContextZone X) → ℕ
  sum_used [] = 0
  sum_used (z ∷ zs) = u64 (z.used_tokens + sum_used zs)

  unfoldable pub total_used_tokens : ContextWindow X → ℕ
  total_used_tokens w = sum_used w.zones

  -- `zone`, and `zone_mut` with what is done to the zone that it finds.
  unfoldable pub find_zone : String → List (ContextZone X) → Option (ContextZone X)
  find_zone name [] = none
  find_zone name (z ∷ zs) = if z.name === name then some z else find_zone name zs

  unfoldable pub zone : String → ContextWindow X → Option (ContextZone X)
  zone name w = find_zone name w.zones

  unfoldable pub change_zone :
      String → (ContextZone X → ContextZone X) → List (ContextZone X) → List (ContextZone X)
  change_zone name f [] = []
  change_zone name f (z ∷ zs) = if z.name === name then f z ∷ zs else z ∷ change_zone name f zs

  unfoldable pub zone_mut :
      String → (ContextZone X → ContextZone X) → ContextWindow X → ContextWindow X
  zone_mut name f w = record w { zones = change_zone name f w.zones }

  unfoldable pub is_overflowed : ContextWindow X → Bool
  is_overflowed w = ltb (available_input_tokens w) (total_used_tokens w)

-- `ContextBudget::new`.
unfoldable pub new_budget : Shares → ℕ → ContextBudget
new_budget S total =
    let output = S.share 20 total in
    let system = S.share 10 total in
    let tool = S.share 10 total in
    let remaining = total - u64 (output + system + tool) in
    let conversation = remaining / 2 in
    record {
      max_total_tokens = total;
      system_tokens = system;
      conversation_tokens = conversation;
      retrieval_tokens = remaining - conversation;
      tool_tokens = tool;
      output_tokens = output;
    }

unfoldable pub allocated_input_tokens : ContextBudget → ℕ
allocated_input_tokens b =
    u64 (b.system_tokens + b.conversation_tokens + b.retrieval_tokens + b.tool_tokens)

unfoldable pub can_fit : ContextBudget → ℕ → Bool
can_fit b additional = leb (u64 (allocated_input_tokens b + additional)) b.max_total_tokens

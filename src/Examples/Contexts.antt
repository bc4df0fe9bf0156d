-- ===== src/Examples/Contexts.antt =====
-- The compiler of contexts at a concrete window.
use tiny_mite.Examples.Crates.{texts}
use tiny_mite.Examples.Outputs.{no_capitals}
use tiny_mite.Runtime.Compaction.{ContextItemType}
use tiny_mite.Runtime.Context.{
  Authority, ContextItem, ContextZone, ContextWindow, EvictionPolicy, Shares, new_item, pin,
}
use tiny_mite.Runtime.Context.Eviction.{
  candidates, min_by_key, choose, last_item, select_eviction_target, remove_at, evict, evict_zone,
}
use tiny_mite.Runtime.Context.Eviction.Outcome.{Evicts, evict_zone-Evicts}
use tiny_mite.Runtime.Context.Compile.{assemble}
use tiny_mite.Runtime.Context.Compile.Packing.{pinned_tokens, assemble-success}
use tiny_mite.Prelude.{◌*◌, ◌/◌, ◌≡◌, refl, false, ◌&&◌, some, List, [], ◌∷◌, arith, leb, ltb}

abbrev hundredths : Shares
hundredths = record { share = λ percent n. n * percent / 100 }

abbrev rules : ContextItem texts
rules =
    pin texts (
      new_item texts "t1" "rules" ContextItemType.system_instruction "Be brief." 6 Authority.system)

abbrev question : ContextItem texts
question = new_item texts "t2" "q1" ContextItemType.user_message "Why?" 5 Authority.user

abbrev again : ContextItem texts
again = new_item texts "t3" "q2" ContextItemType.user_message "Why?" 5 Authority.user

-- Sixteen tokens for a budget of twelve.
abbrev chat : ContextZone texts
chat = record {
  name = "conversation";
  max_tokens = 12;
  min_tokens = 0;
  used_tokens = 16;
  items = rules ∷ question ∷ again ∷ [];
  eviction = EvictionPolicy.oldest_first;
}

abbrev session : ContextWindow texts
session = record {
  model_context_total = 40;
  safety_margin = 2;
  output_budget = 8;
  zones = chat ∷ [];
}

-- The oldest item that is not pinned goes.
chat_evicts :
    evict_zone texts chat
    ≡ some (record chat { used_tokens = 11; items = rules ∷ again ∷ [] }, question ∷ [])
unfolding evict_zone evict select_eviction_target candidates choose min_by_key last_item remove_at
    new_item pin
chat_evicts = refl

evict_zone-Evicts_example :
    (after : ContextZone texts) × ((evicted : List (ContextItem texts)) × ((evict_zone texts chat
          ≡ some (after, evicted))
        × Evicts texts chat after evicted))
unfolding new_item pin
evict_zone-Evicts_example = evict_zone-Evicts texts chat refl

assemble-success_example :
    ((assemble texts no_capitals hundredths 40 30 (rules ∷ question ∷ []) []).success
      ≡ leb (pinned_tokens texts (rules ∷ question ∷ [])) 30)
    × (((assemble texts no_capitals hundredths 40 30 (rules ∷ question ∷ []) []).success
          && ltb 30
              (assemble texts no_capitals hundredths 40 30 (rules ∷ question ∷ []) []).total_tokens)
        ≡ false)
unfolding new_item pin
assemble-success_example =
    assemble-success texts no_capitals hundredths 40 30 (rules ∷ question ∷ []) [] (omega arith)
      (omega arith)

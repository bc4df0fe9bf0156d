-- ===== src/Events/Store/Statement/Building.antt =====
-- crates/tiny-mite-events/src/store.rs: `build_query_sql`, and the statement that `replay` builds.
use tiny_mite.Crates.{Crates}
use tiny_mite.Events.Store.{QueryFilter, ReplayFilter}
use tiny_mite.Events.Store.Row.{event_text, correlation_text}
use tiny_mite.Events.Store.Statement.{Param, Term, Order, Statement}
use mathlib.Core.Option
use tiny_mite.Prelude.{ℕ, ◌+◌, String, Option, some, none, [], ◌∷◌, ◌++◌, length, concat, u64}

-- `SELECT * FROM events WHERE 1=1`.
abbrev pub select_all : Order → Statement
select_all o = record { terms = []; order = o; limit = none; offset = none; params = [] }

-- `if let Some(v) = …`: a term on the next placeholder, and its parameter.
unfoldable pub with_term : (ℕ → Term) → Option String → Statement → Statement
with_term t none s = s
with_term t (some v) s = record s {
  terms = s.terms ++ t (length s.params + 1) ∷ [];
  params = s.params ++ Param.text v ∷ [];
}

-- The first term, which is always on `?1`.
unfoldable pub with_event_type : Option String → Statement → Statement
with_event_type none s = s
with_event_type (some v) s = record s {
  terms = s.terms ++ Term.event_type_like 1 ∷ [];
  params = s.params ++ Param.text v ∷ [];
}

-- The term on the position, which `replay` adds first: two placeholders.
unfoldable pub with_position : Option (String × String) → Statement → Statement
with_position none s = s
with_position (some (at, id)) s =
    let i = length s.params + 1 in
    record s {
      terms = s.terms ++ Term.after_event i (i + 1) ∷ [];
      params = s.params ++ Param.text at ∷ Param.text id ∷ [];
    }

-- `limit as i64` keeps the bits.
unfoldable pub with_limit : Option ℕ → Statement → Statement
with_limit none s = s
with_limit (some n) s = record s {
  limit = some (length s.params + 1);
  params = s.params ++ Param.integer (u64 n) ∷ [];
}

unfoldable pub with_offset : Option ℕ → Statement → Statement
with_offset none s = s
with_offset (some n) s = record s {
  offset = some (length s.params + 1);
  params = s.params ++ Param.integer (u64 n) ∷ [];
}

-- `format!("{t}%")`.
abbrev pub prefix_pattern : String → String
prefix_pattern t = concat t "%"

module _ (X : Crates) where
  -- The WHERE clause of `build_query_sql`.
  unfoldable pub query_terms : QueryFilter X → Statement
  query_terms f = with_term Term.at_or_before (Option.map X.time_text f.to_timestamp) (
      with_term Term.at_or_after (Option.map X.time_text f.from_timestamp) (
        with_term Term.source_is f.source (
          with_term Term.causation_is (Option.map (event_text X) f.causation_id) (
            with_term Term.correlation_is (Option.map (correlation_text X) f.correlation_id) (
              with_event_type (Option.map prefix_pattern f.event_type)
                (select_all Order.by_time))))))

  unfoldable pub build_query_sql : QueryFilter X → Statement
  build_query_sql f = with_offset f.offset (with_limit f.limit (query_terms f))

  -- The WHERE clause of `replay`, from the position that it has found.
  unfoldable pub replay_terms : Option (String × String) → ReplayFilter X → Statement
  replay_terms position f = with_term Term.at_or_before (Option.map X.time_text f.to_timestamp) (
      with_term Term.at_or_after (Option.map X.time_text f.from_timestamp) (
        with_term Term.event_type_like (Option.map prefix_pattern f.event_type)
          (with_position position (select_all Order.by_time_and_id))))

  unfoldable pub build_replay : Option (String × String) → ReplayFilter X → Statement
  build_replay position f = with_limit f.limit (replay_terms position f)

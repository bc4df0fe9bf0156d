-- ===== src/Events/Store/Selection.antt =====
-- What the statements of `query` and `replay` select, against the filters read directly.
use tiny_mite.Crates.{Crates}
use tiny_mite.Events.Store.{EventRow, QueryFilter, ReplayFilter}
use tiny_mite.Events.Store.Row.{event_text, correlation_text}
use tiny_mite.Events.Store.Statement.{Term, Order, Statement, holds, is_after, compare_with}
use tiny_mite.Events.Store.Statement.Building.{
  prefix_pattern, select_all, with_term, with_event_type, with_position, query_terms,
  build_query_sql, replay_terms, build_replay,
}
use tiny_mite.Events.Store.Statement.Meaning.{
  satisfied, optional, Means, with_term-Means, with_limit-Means, with_offset-Means,
}
use mathlib.Core.Option
use tiny_mite.Prelude.{
  ◌≡◌, refl, Bool, false, not, ◌&&◌, String, Option, some, none, ◌===◌, string_eq, arith,
  has_prefix,
}

abbrev column_is : Option String → String → Bool
column_is none v = false
column_is (some c) v = c === v

column_compare :
    (c : Option String) (v : String) → compare_with (λ p d. d === p) (some v) c ≡ column_is c v
column_compare none v = refl
column_compare (some c) v = refl

module _ (X : Crates) (like text_before : String → String → Bool) where
  -- The rows that a `QueryFilter` selects. Its text for the event type is a LIKE pattern.
  unfoldable pub matches_query : QueryFilter X → EventRow → Bool
  matches_query f r =
      optional f.event_type (λ t. like (prefix_pattern t) r.event_type)
      && optional f.correlation_id (λ c. column_is r.correlation_id (correlation_text X c))
      && optional f.causation_id (λ c. column_is r.causation_id (event_text X c))
      && optional f.source (λ s. r.source === s)
      && optional f.from_timestamp (λ t. not (text_before r.timestamp (X.time_text t)))
      && optional f.to_timestamp (λ t. not (text_before (X.time_text t) r.timestamp))

  -- The rows that a `ReplayFilter` selects, after the position found, with the same pattern.
  unfoldable pub matches_replay : Option (String × String) → ReplayFilter X → EventRow → Bool
  matches_replay position f r =
      optional position (λ p. is_after like text_before p.0 p.1 r)
      && optional f.event_type (λ t. like (prefix_pattern t) r.event_type)
      && optional f.from_timestamp (λ t. not (text_before r.timestamp (X.time_text t)))
      && optional f.to_timestamp (λ t. not (text_before (X.time_text t) r.timestamp))

  -- The terms of the two statements, with the values that a filter holds.
  like_Means :
      (o : Option String) (s : Statement) (p : EventRow → Bool)
      → Means like text_before s p
      → Means like text_before
          (with_term Term.event_type_like (Option.map prefix_pattern o) s)
          (λ r. p r && optional o (λ v. like (prefix_pattern v) r.event_type))
  unfolding holds
  like_Means o s p =
      with_term-Means like text_before Term.event_type_like (λ r v. like v r.event_type)
        prefix_pattern o s p (λ i n h. h) (λ r i v ps h. rw h refl)

  from_Means :
      (o : Option X.Time) (s : Statement) (p : EventRow → Bool)
      → Means like text_before s p
      → Means like text_before
          (with_term Term.at_or_after (Option.map X.time_text o) s)
          (λ r. p r && optional o (λ v. not (text_before r.timestamp (X.time_text v))))
  unfolding holds
  from_Means o s p =
      with_term-Means like text_before Term.at_or_after (λ r v. not (text_before r.timestamp v))
        X.time_text o s p (λ i n h. h) (λ r i v ps h. rw h refl)

  to_Means :
      (o : Option X.Time) (s : Statement) (p : EventRow → Bool)
      → Means like text_before s p
      → Means like text_before
          (with_term Term.at_or_before (Option.map X.time_text o) s)
          (λ r. p r && optional o (λ v. not (text_before (X.time_text v) r.timestamp)))
  unfolding holds
  to_Means o s p =
      with_term-Means like text_before Term.at_or_before (λ r v. not (text_before v r.timestamp))
        X.time_text o s p (λ i n h. h) (λ r i v ps h. rw h refl)

  correlation_Means :
      (o : Option X.Uuid) (s : Statement) (p : EventRow → Bool)
      → Means like text_before s p
      → Means like text_before
          (with_term Term.correlation_is (Option.map (correlation_text X) o) s)
          (λ r. p r && optional o (λ v. column_is r.correlation_id ((correlation_text X) v)))
  unfolding holds
  correlation_Means o s p =
      with_term-Means like text_before Term.correlation_is (λ r v. column_is r.correlation_id v)
        (correlation_text X) o s p (λ i n h. h)
        (λ r i v ps h. rw h (column_compare r.correlation_id v))

  causation_Means :
      (o : Option X.Uuid) (s : Statement) (p : EventRow → Bool)
      → Means like text_before s p
      → Means like text_before
          (with_term Term.causation_is (Option.map (event_text X) o) s)
          (λ r. p r && optional o (λ v. column_is r.causation_id ((event_text X) v)))
  unfolding holds
  causation_Means o s p =
      with_term-Means like text_before Term.causation_is (λ r v. column_is r.causation_id v)
        (event_text X) o s p (λ i n h. h) (λ r i v ps h. rw h (column_compare r.causation_id v))

  source_Means :
      (o : Option String) (s : Statement) (p : EventRow → Bool)
      → Means like text_before s p
      → Means like text_before
          (with_term Term.source_is (Option.map (λ v. v) o) s)
          (λ r. p r && optional o (λ v. r.source === v))
  unfolding holds
  source_Means o s p =
      with_term-Means like text_before Term.source_is (λ r v. r.source === v) (λ v. v) o s p
        (λ i n h. h) (λ r i v ps h. rw h refl)

  first_term :
      (t : Option String)
      → Means like text_before
          (with_event_type (Option.map prefix_pattern t) (select_all Order.by_time))
          (λ r. optional t (λ v. like (prefix_pattern v) r.event_type))
  unfolding with_event_type holds
  first_term none = record { numbered = tt; means = λ r. refl }
  first_term (some t) = record { numbered = (omega arith, tt); means = λ r. ground arith }

  position_term :
      (p : Option (String × String))
      → Means like text_before
          (with_position p (select_all Order.by_time_and_id))
          (λ r. optional p (λ q. is_after like text_before q.0 q.1 r))
  unfolding with_position holds
  position_term none = record { numbered = tt; means = λ r. refl }
  position_term (some (at, id)) = record {
    numbered = ((omega arith, omega arith), tt);
    means = λ r. ground arith;
  }

  -- The WHERE clause holds of exactly the rows that the filter selects by its pattern.
  pub build_query_sql-matches :
      (f : QueryFilter X) (r : EventRow)
      → satisfied like text_before (build_query_sql X f) r ≡ matches_query f r
  unfolding build_query_sql query_terms matches_query
  build_query_sql-matches f r =
      let m1 = first_term f.event_type in
      let m2 = correlation_Means f.correlation_id _ _ m1 in
      let m3 = causation_Means f.causation_id _ _ m2 in
      let m4 = source_Means f.source _ _ m3 in
      let m5 = from_Means f.from_timestamp _ _ m4 in
      let m6 = to_Means f.to_timestamp _ _ m5 in
      let m7 =
        with_offset-Means like text_before f.offset _ _
          (with_limit-Means like text_before f.limit _ _ m6) in
      ground (arith, m7.means r)

  -- The rows that a `QueryFilter` asks for: the text for the event type is a prefix of it, as
  -- documented, and timestamps are compared as the texts that are stored.
  abbrev pub asks_for : QueryFilter X → EventRow → Bool
  asks_for f r =
      optional f.event_type (λ p. has_prefix p r.event_type)
      && optional f.correlation_id (λ c. column_is r.correlation_id (correlation_text X c))
      && optional f.causation_id (λ c. column_is r.causation_id (event_text X c))
      && optional f.source (λ s. r.source === s)
      && optional f.from_timestamp (λ t. not (text_before r.timestamp (X.time_text t)))
      && optional f.to_timestamp (λ t. not (text_before (X.time_text t) r.timestamp))

  -- On this row the pattern decides whether the text is a prefix. It does not where the text has a `%`
  -- or a `_`, which are wildcards, or where text and type differ in case, which LIKE ignores.
  abbrev pub IsLiteral : QueryFilter X → EventRow → Type 0
  IsLiteral f r =
      optional f.event_type (λ p. like (prefix_pattern p) r.event_type)
      ≡ optional f.event_type (λ p. has_prefix p r.event_type)

  -- The WHERE clause that `build_query_sql` puts together, with its numbered placeholders and the
  -- parameters bound to them, holds of a row exactly if the filter asks for it: by a prefix of the
  -- event type, as documented, by the identifiers and the source, and by the timestamps, compared as
  -- the texts that are stored. It is provided that on this row LIKE decides the prefix, which it need
  -- not where the prefix has a wildcard or differs from the type in case.
  pub build_query_sql-asks_for :
      (f : QueryFilter X) (r : EventRow)
      → IsLiteral f r
      → satisfied like text_before (build_query_sql X f) r ≡ asks_for f r
  unfolding matches_query
  build_query_sql-asks_for f r literal = rw (build_query_sql-matches f r, literal) refl

  -- The WHERE clause that `replay` puts together holds of exactly the rows that the filter selects
  -- after the position found.
  pub build_replay-matches :
      (p : Option (String × String)) (f : ReplayFilter X) (r : EventRow)
      → satisfied like text_before (build_replay X p f) r ≡ matches_replay p f r
  unfolding build_replay replay_terms matches_replay
  build_replay-matches p f r =
      let m1 = position_term p in
      let m2 = like_Means f.event_type _ _ m1 in
      let m3 = from_Means f.from_timestamp _ _ m2 in
      let m4 = to_Means f.to_timestamp _ _ m3 in
      let m5 = with_limit-Means like text_before f.limit _ _ m4 in ground (arith, m5.means r)

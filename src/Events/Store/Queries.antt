-- ===== src/Events/Store/Queries.antt =====
-- What a query answers, and what is left after old events are pruned.
use tiny_mite.Crates.{Crates}
use tiny_mite.Events.Envelope.{EventEnvelope}
use tiny_mite.Events.Store.{StoreError, QueryFilter, PruneFilter, EventRow}
use tiny_mite.Events.Store.Operations.{read_rows, query, prune, prunes}
use tiny_mite.Events.Store.Row.{row_to_envelope}
use tiny_mite.Events.Store.Selection.{asks_for, IsLiteral, build_query_sql-asks_for}
use tiny_mite.Events.Store.Statement.{Statement}
use tiny_mite.Events.Store.Statement.Building.{
  build_query_sql, query_terms, with_limit, with_offset, with_term, with_event_type,
}
use tiny_mite.Events.Store.Tables.{EventTables}
use tiny_mite.Prelude.{
  ℕ, ◌≡◌, ◌↔◌, refl, ap, sym, ◌∙◌, true, false, some, none, ok, err, List, [], ◌∷◌, IsIn, here,
  there, IsIn-cases, not_in_nil, inl, inr, is_some, arith, Option-cases, Result-cases, Bool-cases,
}

module _ (X : Crates) (S : EventTables) where
  -- The envelope is read from one of the rows.
  abbrev pub ReadFrom : X.Time → List EventRow → EventEnvelope X → Type 0
  ReadFrom now rows e = (r : EventRow) × IsIn r rows × (row_to_envelope X now r ≡ ok e)

  read_rows_iff :
      (now : X.Time) (rows : List EventRow) (es : List (EventEnvelope X)) (e : EventEnvelope X)
      → read_rows X S now rows ≡ ok es
      → IsIn e es ↔ ReadFrom now rows e
  unfolding read_rows
  read_rows_iff now [] es e h =
      let none_read : [] ≡ es = ground arith in
      (λ m. absurd (not_in_nil (rw (sym none_read) at m)), λ (r, m, _). absurd (not_in_nil m))
  read_rows_iff now (r ∷ rs) es e h = elim (Result-cases (row_to_envelope X now r)) [
    | inl (x, f) ↦ absurd (ground arith)
    | inr (e1, f) ↦ elim (Result-cases (read_rows X S now rs)) [
      | inl (x, g) ↦ absurd (ground arith)
      | inr (es1, g) ↦
          let same : (e1 ∷ es1) ≡ es = ground arith in
          let (to, from) = read_rows_iff now rs es1 e g in
          (
            λ m. elim (IsIn-cases (rw (sym same) at m)) [
              | inl first ↦ (r, here refl, rw (sym first) at f)
              | inr later ↦ let (q, mq, eq) = to later in (q, there mq, eq)
            ],
            λ (q, mq, eq). rw (sym same) (elim (IsIn-cases mq) [
              | inl first ↦ here (ground arith)
              | inr later ↦ there (from (q, later, eq))
            ]),
          )
    ]
  ]

  build_query_sql-limit :
      (f : QueryFilter X)
      → ((f.limit ≡ none) → (build_query_sql X f).limit ≡ none)
        × (is_some (build_query_sql X f).offset ≡ is_some f.offset)
  unfolding build_query_sql query_terms with_offset with_limit with_term with_event_type
  build_query_sql-limit f = (λ h. ground arith, ground arith)

  -- A query that is answered, without a limit or an offset, answers with exactly the stored events that
  -- the filter asks for, each read from its row: by a prefix of the event type, as documented, by the
  -- identifiers and the source, and by the timestamps, compared as the texts that are stored. It is
  -- provided that on the stored rows LIKE decides the prefix, which it need not where the prefix has a
  -- wildcard or differs from a stored type in case.
  pub query_iff :
      (now : X.Time) (d : S.Db) (f : QueryFilter X) (es : List (EventEnvelope X))
      (e : EventEnvelope X)
      → f.limit ≡ none
      → ((r : EventRow) → S.event d r.id ≡ some r → IsLiteral X S.like S.text_before f r)
      → query X S now d f ≡ ok es
      → IsIn e es ↔ (
          (r : EventRow) × (S.event d r.id ≡ some r)
          × (asks_for X S.like S.text_before f r ≡ true)
          × (row_to_envelope X now r ≡ ok e))
  unfolding query
  query_iff now d f es e h literal answer = elim (Option-cases (S.run d (build_query_sql X f))) [
    | inl g ↦ absurd (ground arith)
    | inr (rows, g) ↦
        let (to, from) = read_rows_iff now rows es e (rw (g, query) at answer) in
        let means = build_query_sql-asks_for X S.like S.text_before f in
        (
          λ m.
              let (r, shown, read) = to m in
              let (stored, asked) = S.run-sound d _ rows r g shown in
              (r, stored, sym (means r (literal r stored)) ∙ asked, read),
          λ (r, stored, asked, read). from (
            r,
            S.run-complete d _ rows r g ((build_query_sql-limit f).0 h) stored
                (means r (literal r stored) ∙ asked),
            read,
          ),
        )
  ]

  -- A query with an offset and no limit is an error, whatever is stored: SQLite refuses OFFSET
  -- without LIMIT.
  pub query_offset_fails :
      (now : X.Time) (d : S.Db) (f : QueryFilter X) (n : ℕ)
      → f.limit ≡ none
      → f.offset ≡ some n
      → query X S now d f ≡ err StoreError.database
  unfolding query
  query_offset_fails now d f n h k =
      let (no_limit, offset) = build_query_sql-limit f in
      rw (S.run-syntax d (build_query_sql X f) (no_limit h) (offset ∙ ap is_some k), query) refl

  -- After a prune that succeeds, no query answers with an event that the filter prunes, and every
  -- other event is stored as before.
  pub prune_removes :
      (d : S.Db) (f : PruneFilter X) (n : ℕ)
      → (prune X S d f).0 ≡ ok n
      → (s : Statement) (rows : List EventRow) (r : EventRow)
      → S.run (prune X S d f).1 s ≡ some rows
      → IsIn r rows
      → (prunes X S f r ≡ false) × (S.event d r.id ≡ some r)
  unfolding prune
  prune_removes d f n h s rows r answer shown =
      elim (Option-cases (S.delete_where d (prunes X S f))) [
        | inl g ↦ absurd (ground arith)
        | inr ((m, d1), g) ↦
            let (stored, _) = S.run-sound d1 s rows r (rw (g, prune) at answer) shown in
            elim (Option-cases (S.event d r.id)) [
              | inl e ↦ absurd (ground (arith, S.event-delete_where-none d d1 _ m g r.id e))
              | inr (q, e) ↦
                  let left = S.event-delete_where d d1 _ m g r.id q e in
                  elim (Bool-cases (prunes X S f q)) [
                    | inl p ↦ absurd (ground arith)
                    | inr p ↦ let same : q ≡ r = ground arith in (rw same at p, rw same at e)
                  ]
            ]
      ]

-- ===== src/Events/Store/Appending.antt =====
-- What the event store holds after an event or a batch of events is appended.
use tiny_mite.Crates.{Crates}
use tiny_mite.Events.Envelope.{EventEnvelope}
use tiny_mite.Events.Store.{StoreError, EventRow}
use tiny_mite.Events.Store.Operations.{
  Outcome, insert_event, append, append_each, finish_batch, append_batch, get,
}
use tiny_mite.Events.Store.Row.{event_text, envelope_to_row, Plain}
use tiny_mite.Events.Store.Row.Roundtrip.{row_to_envelope-envelope_to_row}
use tiny_mite.Events.Store.Tables.{EventTables}
use tiny_mite.Prelude.{
  ◌≡◌, refl, String, Option, some, none, ok, err, List, [], ◌∷◌, ◌⊎◌, inl, inr, ◌∙◌, or_else,
  if◌then◌else◌, ◌===◌, string_eq, eq_iff, arith, Option-cases, Result-cases,
}

module _ (X : Crates) (S : EventTables) where
  -- The first row that the envelopes write under the key.
  unfoldable pub first_row : String → List (EventEnvelope X) → Option EventRow
  first_row k [] = none
  first_row k (e ∷ es) =
      let rest = first_row k es in
      elim (envelope_to_row X e) [ none ↦ rest | some r ↦ if r.id === k then some r else rest ]

  pub envelope_to_row-id :
      (e : EventEnvelope X) (r : EventRow)
      → envelope_to_row X e ≡ some r
      → (r.id ≡ event_text X e.id) × (r.timestamp ≡ X.time_text e.timestamp)
  unfolding envelope_to_row
  envelope_to_row-id e r h = elim (Option-cases (X.json_text e.payload)) [
    | inl f ↦ ground arith
    | inr (j, f) ↦ ground arith
  ]

  insert_event-event :
      (e : EventEnvelope X) (d d' : S.Db)
      → insert_event X S e d ≡ ok d'
      → (r : EventRow) × (envelope_to_row X e ≡ some r)
        × (S.saved d' ≡ S.saved d)
        × ((k : String)
            → S.event d' k ≡ or_else (S.event d k) (if r.id === k then some r else none))
  unfolding insert_event
  insert_event-event e d d' h = elim (Option-cases (envelope_to_row X e)) [
    | inl f ↦ ground arith
    | inr (r, f) ↦ elim (Option-cases (S.insert_or_ignore d r)) [
      | inl g ↦ ground arith
      | inr (d1, g) ↦
          let same : d1 ≡ d' = ground arith in
          (
            r,
            f,
            rw same at (S.saved-insert_or_ignore d d1 r g),
            λ k. rw same at (S.event-insert_or_ignore d d1 r g k),
          )
    ]
  ]

  saved-append_each :
      (es : List (EventEnvelope X)) (d : S.Db) → S.saved (append_each X S es d).1 ≡ S.saved d
  unfolding append_each
  saved-append_each [] d = refl
  saved-append_each (e ∷ es) d = elim (Result-cases (insert_event X S e d)) [
    | inl (x, f) ↦ rw (f, append_each) refl
    | inr (d1, f) ↦
        let (_, _, kept, _) = insert_event-event e d d1 f in
        rw (f, append_each) (saved-append_each es d1 ∙ kept)
  ]

  event-append_each :
      (es : List (EventEnvelope X)) (d : S.Db)
      → (append_each X S es d).0 ≡ ok tt
      → (k : String) → S.event (append_each X S es d).1 k ≡ or_else (S.event d k) (first_row k es)
  unfolding append_each first_row
  event-append_each [] d h k = elim (Option-cases (S.event d k)) [
    | inl f ↦ rw f refl
    | inr (r, f) ↦ rw f refl
  ]
  event-append_each (e ∷ es) d h k = elim (Result-cases (insert_event X S e d)) [
    | inl (x, f) ↦ ground arith
    | inr (d1, f) ↦
        let (r, row, _, found) = insert_event-event e d d1 f in
        let rest = event-append_each es d1 (rw (f, append_each) at h) k in
        rw (f, append_each, rest, found k, first_row, row) (ground arith)
  ]

  finish_batch_ok :
      (o : Outcome X S Unit)
      → (finish_batch X S o).0 ≡ ok tt
      → (o.0 ≡ ok tt) × ((k : String) → S.event (finish_batch X S o).1 k ≡ S.event o.1 k)
  unfolding finish_batch
  finish_batch_ok (ok tt, d) h = elim (Option-cases (S.commit_batch d)) [
    | inl f ↦ ground arith
    | inr (d1, f) ↦ (refl, λ k. rw (f, finish_batch) (S.event-commit d d1 f k))
  ]
  finish_batch_ok (err x, d) h = elim (Option-cases (S.rollback d)) [
    | inl f ↦ ground arith
    | inr (d1, f) ↦ ground arith
  ]

  finish_batch_fails :
      (o : Outcome X S Unit) (d : S.Db) (x : StoreError)
      → S.saved o.1 ≡ some d
      → (finish_batch X S o).0 ≡ err x
      → ((finish_batch X S o).1 ≡ d)
        ⊎ ((x ≡ StoreError.database) × (S.saved (finish_batch X S o).1 ≡ some d))
  unfolding finish_batch
  finish_batch_fails (ok tt, c) d x s h = elim (Option-cases (S.commit_batch c)) [
    | inl f ↦ rw (f, finish_batch) (inr (ground arith, s))
    | inr (d1, f) ↦ ground arith
  ]
  finish_batch_fails (err y, c) d x s h = elim (Option-cases (S.rollback c)) [
    | inl f ↦ rw (f, finish_batch) (inr (ground arith, s))
    | inr (d1, f) ↦ rw (f, finish_batch) (inl (S.rollback-saved c d1 d f s))
  ]

  -- A batch that is appended adds, under every key, the first row that the batch has for it, if the
  -- key was free, and changes no stored row.
  pub append_batch_ok :
      (d : S.Db) (es : List (EventEnvelope X))
      → (append_batch X S d es).0 ≡ ok tt
      → (k : String) → S.event (append_batch X S d es).1 k ≡ or_else (S.event d k) (first_row k es)
  unfolding append_batch finish_batch
  append_batch_ok d [] h k = unfold append_each in (event-append_each [] d refl k)
  append_batch_ok d (e ∷ es) h k = elim (Option-cases (S.begin d)) [
    | inl f ↦ ground arith
    | inr (d1, f) ↦
        let (done, same) =
          finish_batch_ok (append_each X S (e ∷ es) d1) (rw (f, append_batch) at h) in
        rw (f, append_batch)
          (rw (same k, event-append_each (e ∷ es) d1 done k, S.event-begin d d1 f k) refl)
  ]

  -- A batch that fails leaves the database as it was, or else COMMIT or ROLLBACK was refused and the
  -- transaction is open, with the database as it was to go back to.
  pub append_batch_fails :
      (d : S.Db) (es : List (EventEnvelope X)) (x : StoreError)
      → (append_batch X S d es).0 ≡ err x
      → ((append_batch X S d es).1 ≡ d)
        ⊎ ((x ≡ StoreError.database) × (S.saved (append_batch X S d es).1 ≡ some d))
  unfolding append_batch finish_batch
  append_batch_fails d [] x h = ground arith
  append_batch_fails d (e ∷ es) x h = elim (Option-cases (S.begin d)) [
    | inl f ↦ rw (f, append_batch) (inl refl)
    | inr (d1, f) ↦
        rw (f, append_batch)
          (finish_batch_fails (append_each X S (e ∷ es) d1) d x
            (saved-append_each (e ∷ es) d1 ∙ S.saved-begin d d1 f) (rw (f, append_batch) at h))
  ]

  -- After an event is appended, it is what its identifier finds, as it was given and whatever the
  -- clock shows; if its identifier was already stored, the stored event is found as before. The
  -- subject is not an agent whose name begins with `agent:`, and the payload is read back from its
  -- text.
  pub get-append :
      (now : X.Time) (d : S.Db) (e : EventEnvelope X)
      → Plain e.security.subject
      → ((j : String) → X.json_text e.payload ≡ some j → X.parse_json j ≡ some e.payload)
      → (append X S d e).0 ≡ ok tt
      → get X S now (append X S d e).1 e.id
        ≡ elim (S.event d (event_text X e.id)) [ none ↦ ok (some e) | some _ ↦ get X S now d e.id ]
  unfolding append get
  get-append now d e plain readable h = elim (Result-cases (insert_event X S e d)) [
    | inl (x, f) ↦ ground arith
    | inr (d1, f) ↦
        let (r, row, _, found) = insert_event-event e d d1 f in
        let read = row_to_envelope-envelope_to_row X now e r plain readable row in
        let key = event_text X e.id in
        let own = (eq_iff r.id key).1 (envelope_to_row-id e r row).0 in
        elim (Option-cases (S.event d key)) [
          | inl g ↦ rw (f, append, get, found key, g, own, read) refl
          | inr (q, g) ↦ rw (f, append, get, found key, g, get, g) refl
        ]
  ]

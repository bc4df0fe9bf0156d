-- ===== src/Events/Store/Checkpoints.antt =====
-- Checkpoints, and what a consumer sees that replays from them.
use tiny_mite.Crates.{Crates}
use tiny_mite.Events.Envelope.{EventEnvelope}
use tiny_mite.Events.Store.{Checkpoint, ReplayFilter, EventRow}
use tiny_mite.Events.Store.Appending.{envelope_to_row-id}
use tiny_mite.Events.Store.Operations.{position, checkpoint_row, mark_processed, get_checkpoint}
use tiny_mite.Events.Store.Row.{event_text, envelope_to_row, read_time}
use tiny_mite.Events.Store.Selection.{matches_replay, build_replay-matches}
use tiny_mite.Events.Store.Statement.{Order}
use tiny_mite.Events.Store.Statement.Building.{
  build_replay, replay_terms, with_limit, with_term, with_position,
}
use tiny_mite.Events.Store.Tables.{EventTables}
use tiny_mite.Prelude.{
  ◌≡◌, refl, ◌∙◌, true, false, String, Option, some, none, List, IsIn, ◌⊎◌, inl, inr, ok, ◌===◌,
  string_eq, arith, Option-cases, Bool-cases, if◌then◌else◌,
}

module _ (X : Crates) (S : EventTables) where
  -- The checkpoint that stands on an event.
  abbrev pub checkpoint_at : EventEnvelope X → X.Time → Checkpoint X
  checkpoint_at e now = record {
    last_event_id = event_text X e.id;
    last_timestamp = e.timestamp;
    updated_at = now;
  }

  -- After a consumer has marked a stored event as processed, its checkpoint is that event, with the
  -- event's own timestamp, and the checkpoints of the other consumers are as they were.
  pub get_checkpoint-mark_processed :
      (clock now later : X.Time) (d : S.Db) (consumer other : String) (e : EventEnvelope X)
      (r : EventRow)
      → envelope_to_row X e ≡ some r
      → S.event d (event_text X e.id) ≡ some r
      → (mark_processed X S clock now d consumer e.id).0 ≡ ok tt
      → get_checkpoint X S later (mark_processed X S clock now d consumer e.id).1 other ≡ (
          if consumer === other
          then some (checkpoint_at e now)
          else get_checkpoint X S later d other)
  unfolding mark_processed get_checkpoint checkpoint_row read_time
  get_checkpoint-mark_processed clock now later d consumer other e r row stored h =
      elim (Option-cases (S.upsert_checkpoint d consumer (checkpoint_row X S clock now d e.id))) [
        | inl f ↦ ground arith
        | inr (d1, f) ↦
            let found = S.checkpoint-upsert d d1 consumer _ f other in
            let (_, time) = envelope_to_row-id X S e r row in
            rw (f, mark_processed, get_checkpoint, found)
              (elim (Bool-cases (consumer === other)) [
                | inl e1 ↦
                    rw
                      (
                        e1,
                        stored,
                        time,
                        X.parse_time-time_text e.timestamp,
                        X.parse_time-time_text now,
                      )
                      refl
                | inr e1 ↦ rw (e1, get_checkpoint) refl
              ])
      ]

  build_replay-order :
      (p : Option (String × String)) (f : ReplayFilter X)
      → ((build_replay X p f).order ≡ Order.by_time_and_id) × ((build_replay X p f).offset ≡ none)
  unfolding build_replay replay_terms with_limit with_term with_position
  build_replay-order p f = ground arith

  -- The filter of the consumer's next replay, after it has processed an event.
  abbrev pub resume : ReplayFilter X → EventEnvelope X → X.Time → ReplayFilter X
  resume f e now = record f { after_checkpoint = some (checkpoint_at e now) }

  -- A consumer that replays with a limit, and goes on after any event of the answer, loses nothing:
  -- a stored event that the first replay asks for is in its answer, or the next replay asks for it.
  pub replay_resumes :
      (d : S.Db) (f : ReplayFilter X) (rows : List EventRow) (e : EventEnvelope X) (now : X.Time)
      (q r : EventRow)
      → S.run d (build_replay X (position X S d f) f) ≡ some rows
      → envelope_to_row X e ≡ some q
      → IsIn q rows
      → S.event d r.id ≡ some r
      → matches_replay X S.like S.text_before (position X S d f) f r ≡ true
      → IsIn r rows
        ⊎ (matches_replay X S.like S.text_before
              (position X S d (resume f e now))
              (resume f e now)
              r
            ≡ true)
  unfolding matches_replay position
  replay_resumes d f rows e now q r answer row shown stored asked =
      let (id, time) = envelope_to_row-id X S e q row in
      let asks = build_replay-matches X S.like S.text_before (position X S d f) f r ∙ asked in
      let ordered = build_replay-order (position X S d f) f in
      elim (S.run-first d _ rows q r answer ordered.0 ordered.1 shown stored asks) [
        | inl m ↦ inl m
        | inr later ↦ inr (ground (arith, rw (id, time) at later))
      ]

  -- The next replay does not ask for the event after which it goes on.
  pub replay_skips :
      (d : S.Db) (f : ReplayFilter X) (e : EventEnvelope X) (now : X.Time) (q : EventRow)
      → envelope_to_row X e ≡ some q
      → matches_replay X S.like S.text_before (position X S d (resume f e now)) (resume f e now) q
        ≡ false
  unfolding matches_replay position
  replay_skips d f e now q row =
      let (id, time) = envelope_to_row-id X S e q row in
      rw (id, time)
        (ground (
          arith,
          S.text_before-irreflexive (X.time_text e.timestamp),
          S.text_before-irreflexive (event_text X e.id),
        ))

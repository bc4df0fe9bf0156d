-- ===== src/Events/Store/Row/Roundtrip.antt =====
-- An envelope that is written to a row is read back as it was.
use tiny_mite.Crates.{Crates}
use tiny_mite.Domain.Ids.{id_text, id_of_text-id_text}
use tiny_mite.Domain.Values.{Priority, Subject, SecurityScope, priority_text}
use tiny_mite.Events.Envelope.{EventEnvelope}
use tiny_mite.Events.Store.{EventRow}
use tiny_mite.Events.Store.Row.{
  subject_text, scope_text, subject_of_text, scope_of_text, stored_priority, envelope_to_row,
  read_optional_id, read_time, row_to_envelope, Plain,
}
use tiny_mite.Prelude.{
  ◌≡◌, refl, String, Option, some, none, ok, arith, string_eq, Option-cases, inl, inr, concat,
  trim_prefix-concat, ◌===◌, false, Bool-cases, eq_iff, ap, has_prefix,
}
use mathlib.Core.Option

scope_of_text-scope_text : (s : SecurityScope) → scope_of_text (scope_text s) ≡ s
unfolding scope_of_text scope_text
scope_of_text-scope_text SecurityScope.project = refl
scope_of_text-scope_text _ = refl

stored_priority-priority_text : (p : Priority) → stored_priority (priority_text p) ≡ p
unfolding stored_priority priority_text
stored_priority-priority_text Priority.low = refl
stored_priority-priority_text _ = refl

agent_not_system : (a : String) → (concat "agent:" a === "system") ≡ false
agent_not_system a = elim (Bool-cases (concat "agent:" a === "system")) [
  | inl e ↦
      let same = ap (has_prefix "agent:") ((eq_iff (concat "agent:" a) "system").0 e) in
      absurd (ground arith)
  | inr e ↦ e
]

-- A subject is read back from its column, unless it is an agent whose name begins with `agent:`.
subject_of_text-subject_text : (s : Subject) → Plain s → subject_of_text (subject_text s) ≡ s
unfolding subject_of_text subject_text
subject_of_text-subject_text (Subject.agent a) h =
    rw (trim_prefix-concat "agent:" a (omega arith) h, agent_not_system a) refl
subject_of_text-subject_text Subject.user _ = refl
subject_of_text-subject_text Subject.system _ = refl

module _ (X : Crates) where
  read_time-time_text : (now t : X.Time) → read_time X now (X.time_text t) ≡ t
  unfolding read_time
  read_time-time_text now t = rw (X.parse_time-time_text t)

  read_optional_id-id_text :
      (prefix : String) (u : Option X.Uuid)
      → read_optional_id X prefix (Option.map (id_text X prefix) u) ≡ u
  unfolding read_optional_id
  read_optional_id-id_text prefix none = refl
  read_optional_id-id_text prefix (some u) = id_of_text-id_text X prefix u

  -- Reading the row that an envelope was written to gives the envelope, in every column, whatever
  -- the clock shows, if the subject is not an agent whose name begins with `agent:`, and if the JSON
  -- text that is stored for the payload is one that the parser reads as that payload.
  pub row_to_envelope-envelope_to_row :
      (now : X.Time) (e : EventEnvelope X) (r : EventRow)
      → Plain e.security.subject
      → ((j : String) → X.json_text e.payload ≡ some j → X.parse_json j ≡ some e.payload)
      → envelope_to_row X e ≡ some r
      → row_to_envelope X now r ≡ ok e
  unfolding envelope_to_row row_to_envelope
  row_to_envelope-envelope_to_row now e r plain readable h =
      elim (Option-cases (X.json_text e.payload)) [
        | inl f ↦ ground arith
        | inr (j, f) ↦ ground (
          arith,
          readable j f,
          id_of_text-id_text X "evt" e.id,
          read_optional_id-id_text "corr" e.correlation_id,
          read_optional_id-id_text "evt" e.causation_id,
          stored_priority-priority_text e.priority,
          scope_of_text-scope_text e.security.scope,
          subject_of_text-subject_text e.security.subject plain,
          read_time-time_text now e.timestamp,
        )
      ]

-- ===== src/Events/Store/Row.antt =====
-- crates/tiny-mite-events/src/store.rs: how an envelope is written to a row of `events` and read
-- from one.
pub mod Roundtrip
use tiny_mite.Crates.{Crates}
use tiny_mite.Domain.Ids.{id_text, id_of_text}
use tiny_mite.Domain.Values.{Priority, Subject, SecurityScope, SecurityContext, priority_text}
use tiny_mite.Events.Envelope.{EventEnvelope}
use tiny_mite.Events.Store.{EventRow, StoreError}
use tiny_mite.Prelude.{
  ◌≡◌, false, String, Option, some, none, Result, ok, ◌>>=◌, ok_or, ◌===◌, string_eq, if◌then◌else◌,
  unwrap_or, concat, has_prefix, trim_prefix,
}
use mathlib.Core.Option

-- The column `security_subject`, as `append` writes it.
unfoldable pub subject_text : Subject → String
subject_text Subject.user = "user"
subject_text Subject.system = "system"
subject_text (Subject.agent a) = concat "agent:" a

-- The column `security_scope`.
unfoldable pub scope_text : SecurityScope → String
scope_text SecurityScope.project = "project"
scope_text SecurityScope.workspace = "workspace"
scope_text SecurityScope.system = "system"

unfoldable pub subject_of_text : String → Subject
subject_of_text s =
    if s === "system"
    then Subject.system
    else if has_prefix "agent:" s
    then Subject.agent (trim_prefix "agent:" s)
    else Subject.user

unfoldable pub scope_of_text : String → SecurityScope
scope_of_text s =
    if s === "workspace"
    then SecurityScope.workspace
    else if s === "system"
    then SecurityScope.system
    else SecurityScope.project

unfoldable pub stored_priority : String → Priority
stored_priority s =
    if s === "low"
    then Priority.low
    else if s === "high"
    then Priority.high
    else if s === "critical"
    then Priority.critical
    else Priority.normal

-- The subjects that the column can hold: the name of an agent does not begin with the mark.
abbrev pub Plain : Subject → Type 0
Plain (Subject.agent a) = has_prefix "agent:" a ≡ false
Plain _ = Unit

module _ (X : Crates) where
  abbrev pub event_text : X.Uuid → String
  event_text = id_text X "evt"

  abbrev pub correlation_text : X.Uuid → String
  correlation_text = id_text X "corr"

  -- The parameters of the INSERT statement of `append`; `none` if the payload has no text.
  unfoldable pub envelope_to_row : EventEnvelope X → Option EventRow
  envelope_to_row e = elim (X.json_text e.payload) [
    | none ↦ none
    | some payload_json ↦ some (record {
      id = event_text e.id;
      event_type = e.event_type;
      version = e.version;
      timestamp = X.time_text e.timestamp;
      correlation_id = Option.map correlation_text e.correlation_id;
      causation_id = Option.map event_text e.causation_id;
      source = e.source;
      priority = priority_text e.priority;
      security_subject = subject_text e.security.subject;
      security_scope = scope_text e.security.scope;
      payload_json = payload_json;
      payload_type = e.payload_type;
    })
  ]

  -- `and_then(|s| Id::try_from(s).ok())`.
  unfoldable pub read_optional_id : String → Option String → Option X.Uuid
  read_optional_id prefix none = none
  read_optional_id prefix (some s) = id_of_text X prefix s

  -- `DateTime::parse_from_rfc3339`, with the clock for a text that is no time.
  unfoldable pub read_time : X.Time → String → X.Time
  read_time now s = unwrap_or (X.parse_time s) now

  -- `row_to_envelope`: an identifier or a payload that does not parse is a `rusqlite` error.
  unfoldable pub row_to_envelope : X.Time → EventRow → Result StoreError (EventEnvelope X)
  unfolding read_optional_id read_time
  row_to_envelope now r = do
    id ← ok_or (id_of_text X "evt" r.id) StoreError.database
    payload ← ok_or (X.parse_json r.payload_json) StoreError.database
    ok (record {
      id = id;
      event_type = r.event_type;
      version = r.version;
      timestamp = read_time now r.timestamp;
      correlation_id = read_optional_id "corr" r.correlation_id;
      causation_id = read_optional_id "evt" r.causation_id;
      source = r.source;
      priority = stored_priority r.priority;
      security = record {
        subject = subject_of_text r.security_subject;
        scope = scope_of_text r.security_scope;
      };
      payload = payload;
      payload_type = r.payload_type;
    })

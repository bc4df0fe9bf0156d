-- ===== src/Domain/Values.antt =====
-- crates/tiny-mite-domain/src/values.rs: priority, task status, security context and risk.
use tiny_mite.Prelude.{Bool, true, false, String}

pub data Priority : Type 0 where
  low normal high critical : Priority

pub Priority-discrete : Discrete Priority
Priority-discrete = hlevel

-- `impl Display for Priority`.
unfoldable pub priority_text : Priority → String
priority_text Priority.low = "low"
priority_text Priority.normal = "normal"
priority_text Priority.high = "high"
priority_text Priority.critical = "critical"

pub data TaskStatus : Type 0 where
  new classifying planning context_preparing executing verifying : TaskStatus
  reflecting memory_update repairing complete cancelled blocked : TaskStatus

pub TaskStatus-discrete : Discrete TaskStatus
TaskStatus-discrete = hlevel

unfoldable pub is_active : TaskStatus → Bool
is_active TaskStatus.complete = false
is_active TaskStatus.cancelled = false
is_active TaskStatus.blocked = false
is_active _ = true

unfoldable pub is_terminal : TaskStatus → Bool
is_terminal TaskStatus.complete = true
is_terminal TaskStatus.cancelled = true
is_terminal TaskStatus.blocked = true
is_terminal _ = false

-- `impl Display for TaskStatus`.
unfoldable pub status_text : TaskStatus → String
status_text TaskStatus.new = "NEW"
status_text TaskStatus.classifying = "CLASSIFYING"
status_text TaskStatus.planning = "PLANNING"
status_text TaskStatus.context_preparing = "CONTEXT_PREPARING"
status_text TaskStatus.executing = "EXECUTING"
status_text TaskStatus.verifying = "VERIFYING"
status_text TaskStatus.reflecting = "REFLECTING"
status_text TaskStatus.memory_update = "MEMORY_UPDATE"
status_text TaskStatus.repairing = "REPAIRING"
status_text TaskStatus.complete = "COMPLETE"
status_text TaskStatus.cancelled = "CANCELLED"
status_text TaskStatus.blocked = "BLOCKED"

pub data RiskLevel : Type 0 where
  none low medium high critical : RiskLevel

-- Who initiated an event, and within which scope.
pub data Subject : Type 0 where
  user system : Subject
  agent : String → Subject

pub data SecurityScope : Type 0 where
  project workspace system : SecurityScope

pub record SecurityContext : Type 0 where
  pub subject : Subject
  pub scope : SecurityScope

abbrev pub default_security : SecurityContext
default_security = record { subject = Subject.user; scope = SecurityScope.project }

-- ===== src/Security/Audit.antt =====
-- crates/tiny-mite-security/src/audit.rs: the bounded audit log.
pub mod History
use tiny_mite.Crates.{Crates}
use tiny_mite.Prelude.{
  ℕ, zero, suc, ◌-◌, ◌≤◌, ◌<◌, ◌≡◌, refl, Bool, String, Option, none, some, List, [], ◌∷◌, ◌++◌,
  arith, length, leb, drop, split_first, if◌then◌else◌,
}

pub data AuditLevel : Type 0 where
  info warning error critical : AuditLevel

pub record AuditEntry (X : Crates) : Type 0 where
  pub id : String
  pub timestamp : X.Time
  pub level : AuditLevel
  pub operation : String
  pub subject : String
  pub correlation_id : Option X.Uuid
  pub allowed : Bool
  pub description : String
  pub details : Option String

-- `entries`, the oldest first.
pub record AuditLog {ℓ} (E : Type ℓ) : Type ℓ where
  pub entries : List E
  pub max_entries : ℕ

module _ {ℓ} {E : Type ℓ} where
  unfoldable pub new_log : ℕ → AuditLog E
  new_log max_entries = record { entries = []; max_entries = max_entries }

  -- `entries.remove(0)`, which panics on the empty vector: `none`.
  abbrev remove_first : List E → Option (List E)
  remove_first [] = none
  remove_first (_ ∷ es) = some es

  -- The oldest entry is dropped when the log is full.
  abbrev make_room : ℕ → List E → Option (List E)
  make_room max es = if leb max (length es) then remove_first es else some es

  -- `AuditLog::record`; `none` is a panic.
  unfoldable pub record_entry : AuditLog E → E → Option (AuditLog E)
  record_entry l e = elim (make_room l.max_entries l.entries) [
    | none ↦ none
    | some kept ↦ some (record l { entries = kept ++ e ∷ [] })
  ]

  unfoldable pub clear : AuditLog E → AuditLog E
  clear l = record l { entries = [] }

  -- Several records, one after the other.
  unfoldable pub record_entries : AuditLog E → List E → Option (AuditLog E)
  record_entries l [] = some l
  record_entries l (e ∷ es) = elim (record_entry l e) [
    | none ↦ none
    | some l' ↦ record_entries l' es
  ]

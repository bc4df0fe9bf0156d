-- ===== src/Crates.antt =====
-- The third-party crates that the program calls, as one record of types, operations and the
-- documented laws that the program relies on: `uuid`, `chrono` and `serde_json`.
use tiny_mite.Prelude.{ℕ, ◌≡◌, Bool, String, Option, some, List, IsEq}
use tiny_mite.Domain.Budget.{ResourceBudget}

-- The scalars from which the program builds JSON objects.
pub data Scalar : Type 0 where
  text : String → Scalar
  number : ℕ → Scalar
  null : Scalar

pub record Crates : Type 1 where
  -- `uuid::Uuid`: what `Display` prints, `parse_str` reads back.
  pub Uuid : Type 0
  pub uuid_eq : IsEq Uuid
  pub uuid_text : Uuid → String
  pub parse_str : String → Option Uuid
  pub parse_str-uuid_text : (u : Uuid) → parse_str (uuid_text u) ≡ some u
  -- `chrono::DateTime<Utc>`: a strict order, `to_rfc3339` and `parse_from_rfc3339`, the epoch.
  pub Time : Type 0
  pub before : Time → Time → Bool
  pub time_text : Time → String
  pub parse_time : String → Option Time
  pub parse_time-time_text : (t : Time) → parse_time (time_text t) ≡ some t
  pub epoch : Time
  -- `serde_json::Value`, and `to_string` and `from_str` of values and of budgets, which are made of
  -- numbers. A failure to serialize is `none`. Not every value that is printed is read back:
  -- `from_str` refuses a nesting beyond 128, and may round a float.
  pub Json : Type 0
  pub json_null : Json
  pub json_object : List (String × Scalar) → Json
  pub json_text : Json → Option String
  pub parse_json : String → Option Json
  pub budget_text : ResourceBudget → Option String
  pub parse_budget : String → Option ResourceBudget
  pub parse_budget-budget_text :
      (b : ResourceBudget) (s : String) → budget_text b ≡ some s → parse_budget s ≡ some b

-- ===== src/Examples/Crates.antt =====
-- A concrete instance of the crates: identifiers, times and JSON values are their own texts, and
-- one budget can be serialized.
use tiny_mite.Crates.{Crates, Scalar}
use tiny_mite.Domain.Budget.{ResourceBudget, default_budget}
use tiny_mite.Events.Envelope.{EventEnvelope, Publisher}
use tiny_mite.Prelude.{
  ◌≡◌, refl, Bool, not, ◌&&◌, String, Option, some, none, List, [], ◌∷◌, arith, string_eq, ◌==◌,
  ◌===◌, if◌then◌else◌, concat, eq_iff,
}

abbrev pub fields_text : List (String × Scalar) → String
fields_text [] = "}"
fields_text ((k, _) ∷ fs) = concat k (concat ";" (fields_text fs))

abbrev pub is_default : ResourceBudget → Bool
is_default b =
    b.max_duration == 300000000000
    && b.max_inference_steps == 50
    && b.max_tool_calls == 30
    && b.max_total_tokens == 128000
    && b.max_retries == 3

abbrev pub default_text : ResourceBudget → Option String
default_text b = if is_default b then some "default" else none

abbrev pub text_default : String → Option ResourceBudget
text_default s = if s === "default" then some default_budget else none

pub text_default-default_text :
    (b : ResourceBudget) (s : String) → default_text b ≡ some s → text_default s ≡ some b
text_default-default_text b s h = ground (arith, eq_iff s "default")

abbrev pub texts : Crates
texts = record {
  Uuid = String;
  uuid_eq = string_eq;
  uuid_text = λ u. u;
  parse_str = λ s. some s;
  parse_str-uuid_text = λ u. refl;
  Time = String;
  before = λ a b. a === "" && not (b === "");
  time_text = λ t. t;
  parse_time = λ s. some s;
  parse_time-time_text = λ t. refl;
  epoch = "1970-01-01T00:00:00Z";
  Json = String;
  json_null = "null";
  json_object = λ fs. concat "{" (fields_text fs);
  json_text = λ j. some j;
  parse_json = λ s. some s;
  budget_text = default_text;
  parse_budget = text_default;
  parse_budget-budget_text = text_default-default_text;
}

-- A bus that keeps what is published, the latest first.
abbrev pub log_bus : Publisher texts
log_bus = record { Bus = List (EventEnvelope texts); publish = λ e b. e ∷ b }

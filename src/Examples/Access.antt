-- ===== src/Examples/Access.antt =====
-- The theorems on capabilities, policies, the gateway and the audit log at concrete tokens.
use tiny_mite.Domain.Budget.{Usage, default_budget, exhausted_by, is_exhausted}
use tiny_mite.Examples.Crates.{texts}
use tiny_mite.Security.Audit.{new_log, record_entries}
use tiny_mite.Security.Audit.History.{last_entries, record_entries-new_log}
use tiny_mite.Security.Capability.{Capability, CapabilityToken, capability_eq}
use tiny_mite.Security.Gateway.{Reading, decide_call, new_gateway}
use tiny_mite.Security.Gateway.Trail.{Call, run, run-new_gateway}
use tiny_mite.Security.Network.{NetworkPolicy}
use tiny_mite.Security.Policy.{new_policy}
use tiny_mite.Tools.Definition.{RiskLevel, ToolDefinition}
use tiny_mite.Prelude.{ℕ, ◌≡◌, refl, true, false, some, none, List, [], ◌∷◌, arith, string_eq}

abbrev reader : CapabilityToken texts
reader = record {
  id = "k";
  subject = "agent";
  capabilities = Capability.filesystem_read ∷ [];
  correlation_id = "c";
  expires_at = none;
  max_risk_level = 3;
  is_active = true;
}

abbrev read_file : ToolDefinition texts
read_file = record {
  id = "t";
  name = "read_file";
  description = "";
  risk_level = RiskLevel.low;
  input_schema = [];
  output_description = "";
  supports_cancellation = false;
  timeout_ms = 30000;
  requires_approval = false;
  capabilities = [];
}

abbrev reading : Reading texts
reading = record { checked_at = "n"; recorded_at = "n"; entry_id = "i" }

abbrev calls : List (Call texts)
calls = record { reading = reading; tool = read_file; token = reader; subject = "agent" } ∷ []

run-new_gateway_example :
    run texts (new_gateway texts) calls
    ≡ some (
      (decide_call texts new_policy reading read_file reader "agent").0 ∷ [],
      record {
        policy = new_policy;
        audit = record {
          entries =
              last_entries 10000
                ((decide_call texts new_policy reading read_file reader "agent").1 ∷ []);
          max_entries = 10000;
        };
      },
    )
run-new_gateway_example = run-new_gateway texts calls

record_entries_example :
    record_entries {E = ℕ} (new_log 2) (1 ∷ 2 ∷ 3 ∷ [])
    ≡ some (record { entries = last_entries {E = ℕ} 2 (1 ∷ 2 ∷ 3 ∷ []); max_entries = 2 })
record_entries_example = record_entries-new_log 2 (omega arith) (1 ∷ 2 ∷ 3 ∷ [])

abbrev listed : NetworkPolicy
listed = record {
  allow_network = true;
  allowed_hosts = "example.com" ∷ [];
  allowed_ports = 443 ∷ [];
  require_approval = true;
  max_response_size = 10485760;
  default_timeout_ms = 30000;
}

abbrev used : Usage
used = record { elapsed = 1; inference_steps = 50; tool_calls = 2; total_tokens = 3; retries = 0 }

abbrev used_more : Usage
used_more = record {
  elapsed = 2;
  inference_steps = 51;
  tool_calls = 2;
  total_tokens = 4;
  retries = 1;
}

used_exhausts : exhausted_by default_budget used ≡ true
unfolding is_exhausted
used_exhausts = refl

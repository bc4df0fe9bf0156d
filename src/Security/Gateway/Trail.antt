-- ===== src/Security/Gateway/Trail.antt =====
-- The audit trail of a sequence of calls to one gateway.
use tiny_mite.Crates.{Crates}
use tiny_mite.Security.Capability.{CapabilityToken}
use tiny_mite.Security.Policy.{SecurityPolicy, new_policy}
use tiny_mite.Security.Audit.{AuditEntry, AuditLog, record_entry, record_entries}
use tiny_mite.Security.Audit.History.{last_entries, record_entries-new_log}
use tiny_mite.Security.Gateway.{
  GatewayDecision, ToolGateway, Reading, decide_call, authorize, new_gateway,
}
use tiny_mite.Tools.Definition.{ToolDefinition}
use tiny_mite.Prelude.{
  ◌≡◌, String, Option, some, none, List, [], ◌∷◌, map, arith, Option-cases, inl, inr,
}

module _ (X : Crates) where
  pub record Call : Type 0 where
    pub reading : Reading X
    pub tool : ToolDefinition X
    pub token : CapabilityToken X
    pub subject : String

  abbrev verdict : SecurityPolicy → Call → GatewayDecision × AuditEntry X
  verdict p c = decide_call X p c.reading c.tool c.token c.subject

  -- The calls one after the other, with their decisions.
  pub run : ToolGateway X → List Call → Option (List GatewayDecision × ToolGateway X)
  run g [] = some ([], g)
  run g (c ∷ cs) = elim (authorize X g c.reading c.tool c.token c.subject) [
    | none ↦ none
    | some (d, g') ↦ elim (run g' cs) [ none ↦ none | some (ds, g'') ↦ some (d ∷ ds, g'') ]
  ]

  run_log :
      (g : ToolGateway X) (cs : List Call) (l : AuditLog (AuditEntry X))
      → record_entries g.audit (map (λ c. (verdict g.policy c).1) cs) ≡ some l
      → run g cs ≡ some (map (λ c. (verdict g.policy c).0) cs, record g { audit = l })
  unfolding run authorize record_entries
  run_log g [] l h = ground arith
  run_log g (c ∷ cs) l h = elim (Option-cases (record_entry g.audit (verdict g.policy c).1)) [
    | inl e ↦ ground arith
    | inr (k, e) ↦ ground (arith, run_log (record g { audit = k }) cs l)
  ]

  -- From a new gateway no sequence of calls panics, each call is decided on its own by the default
  -- policy, and the audit log holds the last 10000 of the entries, one for each call in order.
  pub run-new_gateway :
      (cs : List Call)
      → run (new_gateway X) cs
        ≡ some (
          map (λ c. (verdict new_policy c).0) cs,
          record {
            policy = new_policy;
            audit = record {
              entries = last_entries 10000 (map (λ c. (verdict new_policy c).1) cs);
              max_entries = 10000;
            };
          },
        )
  unfolding new_gateway
  run-new_gateway cs = run_log (new_gateway X) cs _ (record_entries-new_log 10000 (omega arith) _)

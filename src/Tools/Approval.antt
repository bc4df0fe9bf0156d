-- ===== src/Tools/Approval.antt =====
-- crates/tiny-mite-tools/src/approval.rs: requests for the user's approval.
use tiny_mite.Crates.{Crates}
use tiny_mite.Prelude.{
  ℕ, Bool, true, false, String, Option, List, [], map, retain, length, adjust, insert, lookup,
  string_eq,
}

pub data ApprovalState : Type 0 where
  pending approved denied timeout : ApprovalState

pub record ApprovalRequest (X : Crates) : Type 0 where
  pub id : String
  pub tool_id : X.Uuid
  pub description : String
  pub risk_level : String
  pub subject : String
  pub state : ApprovalState
  pub created_at : X.Time

pub record ApprovalManager (X : Crates) : Type 0 where
  pub requests : List (String × ApprovalRequest X)
  pub auto_approve_low_risk : Bool

abbrev pub is_pending : ApprovalState → Bool
is_pending ApprovalState.pending = true
is_pending _ = false

module _ (X : Crates) where
  unfoldable pub new_manager : ApprovalManager X
  new_manager = record { requests = []; auto_approve_low_risk = true }

  -- `submit`, with the fresh identifier and the clock.
  unfoldable pub submit :
      ApprovalManager X
      → X.Uuid
      → X.Time
      → X.Uuid
      → String
      → String
      → String
      → String × ApprovalManager X
  submit m fresh now tool_id description risk_level subject =
      let id : String = X.uuid_text fresh in
      (
        id,
        record m {
          requests =
              insert id
                (record {
                  id = id;
                  tool_id = tool_id;
                  description = description;
                  risk_level = risk_level;
                  subject = subject;
                  state = ApprovalState.pending;
                  created_at = now;
                })
                m.requests;
        },
      )

  unfoldable pub set_state :
      ApprovalState → ApprovalManager X → String → Option (ApprovalRequest X) × ApprovalManager X
  set_state s m id =
      let after : List (String × ApprovalRequest X) =
        adjust id (λ r. record r { state = s }) m.requests in
      (lookup id after, record m { requests = after })

  -- `approve` and `deny`.
  abbrev pub approve : ApprovalManager X → String → Option (ApprovalRequest X) × ApprovalManager X
  approve = set_state ApprovalState.approved

  abbrev pub deny : ApprovalManager X → String → Option (ApprovalRequest X) × ApprovalManager X
  deny = set_state ApprovalState.denied

  unfoldable pub get : ApprovalManager X → String → Option (ApprovalRequest X)
  get m id = lookup id m.requests

  unfoldable pub pending_requests : ApprovalManager X → List (ApprovalRequest X)
  pending_requests m = retain (λ r. is_pending r.state) (map (λ e. e.1) m.requests)

  unfoldable pub pending_count : ApprovalManager X → ℕ
  unfolding pending_requests
  pending_count m = length (pending_requests m)

  unfoldable pub set_auto_approve : ApprovalManager X → Bool → ApprovalManager X
  set_auto_approve m enabled = record m { auto_approve_low_risk = enabled }

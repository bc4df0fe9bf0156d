-- ===== src/Agents/Registry.antt =====
-- crates/tiny-mite-agents/src/registry.rs: the agents and their states.
use tiny_mite.Crates.{Crates}
use tiny_mite.Prelude.{
  ℕ, Bool, false, String, Option, List, [], map, retain, length, contains, string_eq, lookup,
  insert, adjust,
}
use mathlib.Core.Bool.{decide}

pub data AgentState : Type 0 where
  idle busy paused error stopped : AgentState

pub AgentState-discrete : Discrete AgentState
AgentState-discrete = hlevel

pub record AgentDefinition (X : Crates) : Type 0 where
  pub id : X.Uuid
  pub name : String
  pub role : String
  pub capabilities : List String
  pub state : AgentState
  pub can_self_activate : Bool
  pub max_concurrent_tasks : ℕ

module _ (X : Crates) where
  unfoldable pub new_agent : X.Uuid → String → String → AgentDefinition X
  new_agent id name role = record {
    id = id;
    name = name;
    role = role;
    capabilities = [];
    state = AgentState.idle;
    can_self_activate = false;
    max_concurrent_tasks = 1;
  }

  abbrev pub AgentRegistry : Type 0
  AgentRegistry = List (X.Uuid × AgentDefinition X)

  unfoldable pub register_agent : AgentDefinition X → AgentRegistry → AgentRegistry
  register_agent a r = insert ⦃e = X.uuid_eq⦄ a.id a r

  unfoldable pub get_agent : X.Uuid → AgentRegistry → Option (AgentDefinition X)
  get_agent id r = lookup ⦃e = X.uuid_eq⦄ id r

  unfoldable pub find_by_capability : String → AgentRegistry → List (AgentDefinition X)
  find_by_capability capability r =
      retain (λ a. contains a.capabilities capability) (map (λ p. p.1) r)

  unfoldable pub idle_agents : AgentRegistry → List (AgentDefinition X)
  idle_agents r =
      retain (λ a. decide (AgentState-discrete a.state AgentState.idle)) (map (λ p. p.1) r)

  unfoldable pub set_agent_state : X.Uuid → AgentState → AgentRegistry → AgentRegistry
  set_agent_state id state r = adjust ⦃e = X.uuid_eq⦄ id (λ a. record a { state = state }) r

  unfoldable pub count_agents : AgentRegistry → ℕ
  count_agents r = length r

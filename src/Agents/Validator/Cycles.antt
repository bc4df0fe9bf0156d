-- ===== src/Agents/Validator/Cycles.antt =====
-- `has_circular_dependencies` of crates/tiny-mite-agents/src/validator.rs. The depth of the search is
-- bounded by the number of the steps.
pub mod Sound
pub mod Complete
pub mod Graph
pub mod Exact
use tiny_mite.Agents.Planner.{PlanStep, ids}
use tiny_mite.Prelude.{
  ℕ, zero, suc, ◌≡◌, Bool, true, false, not, String, List, [], ◌∷◌, retain, length, if◌then◌else◌,
  ◌&&◌, contains, string_eq, ◌===◌, insert, lookup, unwrap_or,
}

-- A `HashMap` from identifiers to their dependencies: of two steps with the same identifier the
-- later counts.
abbrev pub Adjacency : Type 0
Adjacency = List (String × List String)

unfoldable pub adjacency_from : Adjacency → List PlanStep → Adjacency
adjacency_from adj [] = adj
adjacency_from adj (s ∷ steps) = adjacency_from (insert s.id s.dependencies adj) steps

abbrev pub edges_of : Adjacency → String → List String
edges_of adj node = unwrap_or (lookup node adj) []

-- The two sets of the depth-first search.
pub record Search : Type 0 where
  pub visited : List String
  pub in_stack : List String

abbrev pub enter : String → Search → Search
enter node s = record { visited = node ∷ s.visited; in_stack = node ∷ s.in_stack }

abbrev pub leave : String → Bool × Search → Bool × Search
leave node r =
    if r.0
    then r
    else (false, record (r.1) { in_stack = retain (λ a. not (a === node)) r.1.in_stack })

-- `return true` leaves the loop with the sets as they are.
abbrev pub unless_found : Bool × Search → (Search → Bool × Search) → Bool × Search
unless_found r next = if r.0 then r else next r.1

-- The loop of `dfs_cycle_check` over the dependencies, with the recursive call as an argument.
unfoldable pub check_deps : (String → Search → Bool × Search) → List String → Search → Bool × Search
check_deps visit [] s = (false, s)
check_deps visit (dep ∷ deps) s =
    let next = check_deps visit deps in
    if contains s.in_stack dep
    then (true, s)
    else unless_found (if contains s.visited dep then (false, s) else visit dep s) next

unfoldable pub dfs_cycle_check : ℕ → Adjacency → String → Search → Bool × Search
dfs_cycle_check zero adj node s = (false, s)
dfs_cycle_check (suc n) adj node s =
    leave node (check_deps (dfs_cycle_check n adj) (edges_of adj node) (enter node s))

-- The loop of `has_circular_dependencies` over the steps.
unfoldable pub search_from : Adjacency → List String → Search → Bool × Search
search_from adj [] s = (false, s)
search_from adj (node ∷ nodes) s =
    let next = search_from adj nodes in
    unless_found
      (if contains s.visited node
        then (false, s)
        else dfs_cycle_check (suc (length adj)) adj node s)
      next

unfoldable pub has_circular_dependencies : List PlanStep → Bool
has_circular_dependencies steps =
    (search_from (adjacency_from [] steps) (ids steps) (record { visited = []; in_stack = [] })).0

-- `dep` is one of the dependencies of `node`.
abbrev pub Edge : Adjacency → String → String → Type 0
Edge adj node dep = contains (edges_of adj node) dep ≡ true

-- A chain of at least one dependency.
pub data Chain (adj : Adjacency) : String → String → Type 0 where
  direct : {a b : String} → Edge adj a b → Chain adj a b
  through : {a b c : String} → Edge adj a b → Chain adj b c → Chain adj a c

abbrev pub Cycle : Adjacency → Type 0
Cycle adj = (a : String) × Chain adj a a

-- The dependencies between the steps of a plan, read off the steps: `b` is listed by the last step
-- that is named `a`.
abbrev pub depends : List PlanStep → String → String → Bool
depends [] a b = false
depends (s ∷ steps) a b =
    if contains (ids steps) a then depends steps a b else (s.id === a) && contains s.dependencies b

-- `a` depends on `b` through a chain of steps.
pub data DependsOn (steps : List PlanStep) : String → String → Type 0 where
  listed : {a b : String} → depends steps a b ≡ true → DependsOn steps a b
  via : {a b c : String} → depends steps a b ≡ true → DependsOn steps b c → DependsOn steps a c

abbrev pub IsCircular : List PlanStep → Type 0
IsCircular steps = (a : String) × DependsOn steps a a

pub Chain-extend : {adj : Adjacency} {a b c : String} → Chain adj a b → Edge adj b c → Chain adj a c
Chain-extend (direct e) f = through e (direct f)
Chain-extend (through e p) f = through e (Chain-extend p f)

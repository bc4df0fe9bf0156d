-- ===== src/Agents/Validator/Cycles/Graph.antt =====
-- The map that the validator searches is the graph of the dependencies of the plan.
use tiny_mite.Agents.Planner.{PlanStep, ids}
use tiny_mite.Agents.Validator.Cycles.{
  Adjacency, adjacency_from, edges_of, Chain, direct, through, Cycle, depends, DependsOn, listed,
  via, IsCircular,
}
use tiny_mite.Prelude.{
  ◌≡◌, refl, true, false, String, List, [], ◌∷◌, ◌↔◌, ◌&&◌, ◌===◌, string_eq, contains, Bool-cases,
  inl, inr, if◌then◌else◌, lookup, insert, lookup-insert, arith, ◌∙◌, sym, not, Bool, IsIn,
  IsIn-cases, not_in_nil, ap, eq_iff, subst,
}

edges-adjacency_from :
    (steps : List PlanStep) (adj : Adjacency) (a b : String)
    → contains (edges_of (adjacency_from adj steps) a) b
      ≡ (if contains (ids steps) a then depends steps a b else contains (edges_of adj a) b)
unfolding adjacency_from
edges-adjacency_from [] adj a b = refl
edges-adjacency_from (s ∷ steps) adj a b =
    let rest = edges-adjacency_from steps (insert s.id s.dependencies adj) a b in
    let found = lookup-insert s.id a s.dependencies adj in
    elim (Bool-cases (s.id === a)) [
      | inl e ↦ ground (arith, rest, found, e)
      | inr e ↦ ground (arith, rest, found, e)
    ]

depends-ids :
    (steps : List PlanStep) (a b : String)
    → contains (ids steps) a ≡ false
    → depends steps a b ≡ false
depends-ids [] a b h = refl
depends-ids (s ∷ steps) a b h = ground arith

Edge-depends :
    (steps : List PlanStep) (a b : String)
    → contains (edges_of (adjacency_from [] steps) a) b ≡ depends steps a b
unfolding lookup
Edge-depends steps a b = ground (arith, edges-adjacency_from steps [] a b, depends-ids steps a b)

Chain-DependsOn :
    {steps : List PlanStep} {a b : String}
    → Chain (adjacency_from [] steps) a b
    → DependsOn steps a b
Chain-DependsOn {steps} {a} {b} (direct e) = listed (sym (Edge-depends steps a b) ∙ e)
Chain-DependsOn {steps} {a} (through {b = b} e p) =
    via (sym (Edge-depends steps a b) ∙ e) (Chain-DependsOn p)

DependsOn-Chain :
    {steps : List PlanStep} {a b : String}
    → DependsOn steps a b
    → Chain (adjacency_from [] steps) a b
DependsOn-Chain {steps} {a} {b} (listed e) = direct (Edge-depends steps a b ∙ e)
DependsOn-Chain {steps} {a} (via {b = b} e p) =
    through (Edge-depends steps a b ∙ e) (DependsOn-Chain p)

pub Cycle-IsCircular : (steps : List PlanStep) → Cycle (adjacency_from [] steps) ↔ IsCircular steps
Cycle-IsCircular steps = (λ (a, p). (a, Chain-DependsOn p), λ (a, p). (a, DependsOn-Chain p))

abbrev pub distinct : List PlanStep → Bool
distinct [] = true
distinct (s ∷ steps) = not (contains (ids steps) s.id) && distinct steps

IsIn-ids : (steps : List PlanStep) (s : PlanStep) → IsIn s steps → contains (ids steps) s.id ≡ true
IsIn-ids [] s m = absurd (not_in_nil m)
IsIn-ids (t ∷ steps) s m = elim (IsIn-cases m) [
  | inl first ↦ ground (arith, ap (λ x. x.id) first, eq_iff t.id s.id)
  | inr later ↦ ground (arith, IsIn-ids steps s later)
]

-- Where the identifiers are distinct, a step depends on just what it lists.
pub depends-listed :
    (steps : List PlanStep) (s : PlanStep) (b : String)
    → distinct steps ≡ true
    → IsIn s steps
    → depends steps s.id b ≡ contains s.dependencies b
depends-listed [] s b h m = absurd (not_in_nil m)
depends-listed (t ∷ steps) s b h m = elim (IsIn-cases m) [
  | inl first ↦
      let same : t ≡ s = sym first in
      subst (λ x. depends (t ∷ steps) x.id b ≡ contains x.dependencies b) same
        (ground (arith, eq_iff t.id t.id))
  | inr later ↦
      ground (arith, IsIn-ids steps s later, depends-listed steps s b (ground arith) later)
]

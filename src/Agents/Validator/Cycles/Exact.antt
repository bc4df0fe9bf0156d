-- ===== src/Agents/Validator/Cycles/Exact.antt =====
-- The check of a plan for cycles is exact.
use tiny_mite.Agents.Planner.{PlanStep, ids}
use tiny_mite.Agents.Validator.Cycles.{
  Adjacency, Search, adjacency_from, dfs_cycle_check, search_from, has_circular_dependencies, Edge,
  Chain, direct, through, Cycle, IsCircular,
}
use tiny_mite.Agents.Validator.Cycles.Graph.{Cycle-IsCircular}
use tiny_mite.Agents.Validator.Cycles.Sound.{dfs-FindsCycles}
use tiny_mite.Agents.Validator.Cycles.Complete.{
  Safe-acyclic, unvisited-le-length, Settled, Cleared, Cleared-cons, visited-Cleared, dfs-Clears,
}
use tiny_mite.Prelude.{
  ℕ, suc, ◌≡◌, true, false, String, List, [], ◌∷◌, arith, length, contains, string_eq, ◌===◌,
  Bool-cases, Option-cases, inl, inr, lookup, insert, lookup-insert, is_some, refl, ◌↔◌,
}

pub record NoStack (s : Search) : Type 0 where
  pub empty : (a : String) → contains s.in_stack a ≡ false

module _ (adj : Adjacency) where
  dfs-NoStack :
      (n : ℕ) (node : String) (s : Search)
      → NoStack s
      → (dfs_cycle_check n adj node s).0 ≡ false
      → NoStack (dfs_cycle_check n adj node s).1
  dfs-NoStack n node s k h = record {
    empty = λ a. elim (Bool-cases (contains (dfs_cycle_check n adj node s).1.in_stack a)) [
      | inl on ↦
          absurd
            (ground (arith, k.empty a, (((dfs-FindsCycles adj n).stack node s h).shrinks a on)))
      | inr off ↦ off
    ];
  }

  search-Cycle :
      (nodes : List String) (s : Search)
      → NoStack s
      → (search_from adj nodes s).0 ≡ true
      → Cycle adj
  unfolding search_from
  search-Cycle [] s k h = absurd (ground arith)
  search-Cycle (node ∷ nodes) s k h = elim (Bool-cases (contains s.visited node)) [
    | inl v ↦ search-Cycle nodes s k (ground arith)
    | inr v ↦
        let r = dfs_cycle_check (suc (length adj)) adj node s in
        elim (Bool-cases r.0) [
          | inl f ↦
              (dfs-FindsCycles adj (suc (length adj))).found node s
                (record { leads = λ a m. absurd (ground (arith, k.empty a)) }) f
          | inr f ↦
              search-Cycle nodes r.1 (dfs-NoStack (suc (length adj)) node s k f) (ground arith)
        ]
  ]

  search-Cleared :
      (nodes : List String) (s : Search)
      → NoStack s
      → Settled adj s
      → (search_from adj nodes s).0 ≡ false
      → Cleared adj nodes s (search_from adj nodes s).1
  unfolding search_from
  search-Cleared [] s k set h = record {
    all_safe = λ a m. absurd (ground arith);
    after = set;
    more = record { grows = λ a m. m };
  }
  search-Cleared (node ∷ nodes) s k set h = elim (Bool-cases (contains s.visited node)) [
    | inl v ↦
        rw (v, search_from)
          (Cleared-cons adj (visited-Cleared adj node s set v (k.empty node))
            (search-Cleared nodes s k set (ground arith)))
    | inr v ↦
        let r = dfs_cycle_check (suc (length adj)) adj node s in
        let f : r.0 ≡ false = ground arith in
        let first =
          (dfs-Clears adj (suc (length adj))).clears node s set v
            (omega (arith, unvisited-le-length adj s.visited)) f in
        rw (v, f, search_from)
          (Cleared-cons adj first (
            search-Cleared nodes r.1 (dfs-NoStack (suc (length adj)) node s k f) first.after
              (ground arith)))
  ]

-- Only the identifiers of steps have dependencies.
lookup-adjacency :
    (adj : Adjacency) (steps : List PlanStep) (a : String)
    → is_some (lookup a adj) ≡ false
    → is_some (lookup a (adjacency_from adj steps)) ≡ true
    → contains (ids steps) a ≡ true
unfolding adjacency_from
lookup-adjacency adj [] a n h = absurd (ground arith)
lookup-adjacency adj (s ∷ steps) a n h = elim (Bool-cases (s.id === a)) [
  | inl e ↦ ground arith
  | inr e ↦ ground (
    arith,
    lookup-adjacency (insert s.id s.dependencies adj) steps a
        (ground (arith, lookup-insert s.id a s.dependencies adj)) h,
  )
]

Edge-step :
    (steps : List PlanStep) (a b : String)
    → Edge (adjacency_from [] steps) a b
    → contains (ids steps) a ≡ true
unfolding lookup
Edge-step steps a b e = elim (Option-cases (lookup a (adjacency_from [] steps))) [
  | inl n ↦ absurd (ground arith)
  | inr (ds, l) ↦ lookup-adjacency [] steps a refl (rw l refl)
]

Chain-step :
    (steps : List PlanStep) (a b : String)
    → Chain (adjacency_from [] steps) a b
    → contains (ids steps) a ≡ true
Chain-step steps a b (direct e) = Edge-step steps a b e
Chain-step steps a b (through e p) = Edge-step steps a _ e

has_circular_dependencies-Cycle :
    (steps : List PlanStep)
    → (has_circular_dependencies steps ≡ true) ↔ Cycle (adjacency_from [] steps)
unfolding has_circular_dependencies
has_circular_dependencies-Cycle steps = (search-Cycle adj (ids steps) start empty, complete)
  where
    adj : Adjacency
    adj = adjacency_from [] steps

    start : Search
    start = record { visited = []; in_stack = [] }

    empty : NoStack start
    empty = record { empty = λ a. refl }

    complete : Cycle adj → has_circular_dependencies steps ≡ true
    complete (a, p) = elim (Bool-cases (has_circular_dependencies steps)) [
      | inl e ↦ e
      | inr e ↦
          let nothing : Settled adj start = record { settled = λ b m. absurd (ground arith) } in
          let cleared = search-Cleared adj (ids steps) start empty nothing e in
          absurd (Safe-acyclic (cleared.all_safe a (Chain-step steps a a p)) p)
    ]

-- The validator reports circular dependencies exactly where some step depends on itself through a
-- chain of dependencies between steps of the plan. Of several steps with one identifier only the last
-- counts: what the others list is not a dependency here.
pub has_circular_dependencies-IsCircular :
    (steps : List PlanStep) → (has_circular_dependencies steps ≡ true) ↔ IsCircular steps
has_circular_dependencies-IsCircular steps =
    let (to, from) = has_circular_dependencies-Cycle steps in
    let (read, write) = Cycle-IsCircular steps in (λ h. read (to h), λ c. from (write c))

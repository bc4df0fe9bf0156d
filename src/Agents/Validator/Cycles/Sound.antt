-- ===== src/Agents/Validator/Cycles/Sound.antt =====
-- A reported cycle is a cycle.
use tiny_mite.Agents.Validator.Cycles.{
  Adjacency, Search, edges_of, enter, leave, check_deps, dfs_cycle_check, Edge, Chain, direct,
  Cycle, Chain-extend,
}
use tiny_mite.Prelude.{
  ℕ, zero, suc, ◌≡◌, Bool, true, false, not, String, List, [], ◌∷◌, arith, retain, contains,
  string_eq, ◌===◌, Bool-cases, inl, inr, ◌⊎◌, subst, eq_iff, if◌then◌else◌,
}

pub contains-retain :
    (node : String) (xs : List String) (a : String)
    → contains (retain (λ b. not (b === node)) xs) a ≡ true
    → contains xs a ≡ true
contains-retain node [] a h = h
contains-retain node (x ∷ xs) a h = ground (arith, contains-retain node xs a)

pub contains-retain_ne :
    (node : String) (xs : List String) (a : String)
    → contains (retain (λ b. not (b === node)) xs) a ≡ true
    → (node === a) ≡ false
contains-retain_ne node [] a h = absurd (ground arith)
contains-retain_ne node (x ∷ xs) a h =
    ground (arith, contains-retain_ne node xs a, eq_iff x a, eq_iff x node, eq_iff node a)

pub contains-cons :
    (x : String) (xs : List String) (a : String)
    → contains (x ∷ xs) a ≡ true
    → (x ≡ a) ⊎ (contains xs a ≡ true)
contains-cons x xs a h = elim (Bool-cases (x === a)) [
  | inl e ↦ inl ((eq_iff x a).0 e)
  | inr e ↦ inr (ground arith)
]

pub contains-here : (x : String) (xs : List String) → contains (x ∷ xs) x ≡ true
contains-here x xs = ground (arith, eq_iff x x)

-- Every node of the stack leads to the given one.
pub record LeadsTo (adj : Adjacency) (node : String) (s : Search) : Type 0 where
  pub leads : (a : String) → contains s.in_stack a ≡ true → Chain adj a node

-- Every node of the stack is the given one or leads to it.
pub record EndsAt (adj : Adjacency) (node : String) (s : Search) : Type 0 where
  pub ends : (a : String) → contains s.in_stack a ≡ true → (node ≡ a) ⊎ Chain adj a node

pub record StackShrinks (s t : Search) : Type 0 where
  pub shrinks : (a : String) → contains t.in_stack a ≡ true → contains s.in_stack a ≡ true

-- What a search from a node does: `true` only on a cycle, and else the stack has not grown.
pub record FindsCycles (adj : Adjacency) (visit : String → Search → Bool × Search) : Type 0 where
  pub found :
      (node : String) (s : Search) → LeadsTo adj node s → (visit node s).0 ≡ true → Cycle adj
  pub stack :
      (node : String) (s : Search) → (visit node s).0 ≡ false → StackShrinks s (visit node s).1

module _ (adj : Adjacency) where
  enter-EndsAt : (node : String) (s : Search) → LeadsTo adj node s → EndsAt adj node (enter node s)
  enter-EndsAt node s l = record {
    ends = λ a h. elim (contains-cons node s.in_stack a h) [
      | inl e ↦ inl e
      | inr m ↦ inr (l.leads a m)
    ];
  }

  EndsAt-LeadsTo :
      {node dep : String} {s : Search} → EndsAt adj node s → Edge adj node dep → LeadsTo adj dep s
  EndsAt-LeadsTo {dep = dep} l e = record {
    leads = λ a h. elim (l.ends a h) [
      | inl same ↦ direct (subst (λ n. Edge adj n dep) same e)
      | inr p ↦ Chain-extend p e
    ];
  }

  EndsAt-shrinks :
      {node : String} {s t : Search} → EndsAt adj node s → StackShrinks s t → EndsAt adj node t
  EndsAt-shrinks l k = record { ends = λ a h. l.ends a (k.shrinks a h) }

  -- The visit of a dependency that the loop makes unless it is visited.
  guarded : (String → Search → Bool × Search) → String → Search → Bool × Search
  guarded visit dep s = if contains s.visited dep then (false, s) else visit dep s

  guarded-FindsCycles :
      (visit : String → Search → Bool × Search)
      → FindsCycles adj visit
      → FindsCycles adj (guarded visit)
  unfolding guarded
  guarded-FindsCycles visit finds = record {
    found = λ node s l h. elim (Bool-cases (contains s.visited node)) [
      | inl e ↦ absurd (ground arith)
      | inr e ↦ finds.found node s l (ground arith)
    ];
    stack = λ node s h. elim (Bool-cases (contains s.visited node)) [
      | inl e ↦ rw e (record { shrinks = λ a m. m })
      | inr e ↦ rw e (finds.stack node s (ground arith))
    ];
  }

  module _ (visit : String → Search → Bool × Search) (finds : FindsCycles adj visit) where
    pub check_deps-stack :
        (deps : List String) (s : Search)
        → (check_deps visit deps s).0 ≡ false
        → StackShrinks s (check_deps visit deps s).1
    unfolding check_deps guarded
    check_deps-stack [] s h = record { shrinks = λ a m. m }
    check_deps-stack (dep ∷ deps) s h = elim (Bool-cases (contains s.in_stack dep)) [
      | inl e ↦ absurd (ground arith)
      | inr e ↦ elim (Bool-cases (guarded visit dep s).0) [
        | inl f ↦ absurd (ground arith)
        | inr f ↦
            let first = (guarded-FindsCycles visit finds).stack dep s f in
            let rest = check_deps-stack deps (guarded visit dep s).1 (ground arith) in
            rw (e, f, check_deps) (record { shrinks = λ a m. first.shrinks a (rest.shrinks a m) })
      ]
    ]

    pub check_deps-found :
        (node : String) (deps : List String) (s : Search)
        → ((d : String) → contains deps d ≡ true → Edge adj node d)
        → EndsAt adj node s
        → (check_deps visit deps s).0 ≡ true
        → Cycle adj
    unfolding check_deps guarded
    check_deps-found node [] s edges l h = absurd (ground arith)
    check_deps-found node (dep ∷ deps) s edges l h =
        let edge = edges dep (contains-here dep deps) in
        let guard = guarded-FindsCycles visit finds in
        elim (Bool-cases (contains s.in_stack dep)) [
          | inl e ↦ (
            dep,
            elim (l.ends dep e) [
              | inl same ↦ direct (subst (λ n. Edge adj n dep) same edge)
              | inr p ↦ Chain-extend p edge
            ],
          )
          | inr e ↦ elim (Bool-cases (guarded visit dep s).0) [
            | inl f ↦ guard.found dep s (EndsAt-LeadsTo l edge) f
            | inr f ↦
                check_deps-found node deps (guarded visit dep s).1 (λ d m. edges d (ground arith))
                  (EndsAt-shrinks l (guard.stack dep s f)) (ground arith)
          ]
        ]

  leave-shrinks :
      (node : String) (s : Search) (r : Bool × Search)
      → r.0 ≡ false
      → StackShrinks (enter node s) r.1
      → StackShrinks s (leave node r).1
  leave-shrinks node s r e k = rw e (record {
    shrinks = λ a m.
        let kept = contains-retain node r.1.in_stack a m in
        let other = contains-retain_ne node r.1.in_stack a m in
        let before = k.shrinks a kept in ground arith;
  })

  -- A search that returns `true` from a stack that leads to its node has met a cycle.
  pub dfs-FindsCycles : (n : ℕ) → FindsCycles adj (dfs_cycle_check n adj)
  unfolding dfs_cycle_check
  dfs-FindsCycles zero = record {
    found = λ node s l h. absurd (ground arith);
    stack = λ node s h. record { shrinks = λ a m. m };
  }
  dfs-FindsCycles (suc n) = record {
    found = λ node s l h.
        check_deps-found (dfs_cycle_check n adj) (dfs-FindsCycles n) node (edges_of adj node)
          (enter node s) (λ d m. m) (enter-EndsAt node s l) (ground arith);
    stack = λ node s h.
        let inner = check_deps (dfs_cycle_check n adj) (edges_of adj node) (enter node s) in
        let clear : inner.0 ≡ false = ground arith in
        leave-shrinks node s inner clear (
          check_deps-stack (dfs_cycle_check n adj) (dfs-FindsCycles n) (edges_of adj node)
            (enter node s) clear);
  }

-- ===== src/Agents/Validator/Cycles/Complete.antt =====
-- A search that returns `false` has met no cycle, and has not run out of depth.
use tiny_mite.Agents.Validator.Cycles.{
  Adjacency, Search, edges_of, enter, leave, check_deps, dfs_cycle_check, Edge, Chain, direct,
  through, Chain-extend,
}
use tiny_mite.Agents.Validator.Cycles.Sound.{contains-cons}
use tiny_mite.Prelude.{
  ℕ, zero, suc, ◌<◌, ◌≤◌, ◌≡◌, Bool, true, false, not, String, List, [], ◌∷◌, arith, retain, length,
  contains, string_eq, ◌===◌, Bool-cases, inl, inr, ◌⊎◌, subst, eq_iff, if◌then◌else◌, lookup,
}

-- Every chain of dependencies from the node ends.
pub data Safe (adj : Adjacency) : String → Type 0 where
  safe : {node : String} → ((dep : String) → Edge adj node dep → Safe adj dep) → Safe adj node

pub Safe-acyclic : {adj : Adjacency} {a : String} → Safe adj a → Chain adj a a → ⊥
Safe-acyclic (safe next) (direct e) = Safe-acyclic (next _ e) (direct e)
Safe-acyclic (safe next) (through e p) = Safe-acyclic (next _ e) (Chain-extend p e)

-- How many steps are not visited.
pub unvisited : Adjacency → List String → ℕ
unvisited [] visited = 0
unvisited ((k, deps) ∷ adj) visited =
    let rest = unvisited adj visited in if contains visited k then rest else suc rest

pub unvisited-le-length : (adj : Adjacency) (vs : List String) → unvisited adj vs ≤ length adj
unfolding unvisited
unvisited-le-length [] vs = omega arith
unvisited-le-length ((k, deps) ∷ adj) vs = ground (arith, unvisited-le-length adj vs)

pub record Grows (vs ws : List String) : Type 0 where
  pub grows : (a : String) → contains vs a ≡ true → contains ws a ≡ true

unvisited-Grows :
    (adj : Adjacency) (vs ws : List String) → Grows vs ws → unvisited adj ws ≤ unvisited adj vs
unfolding unvisited
unvisited-Grows [] vs ws g = omega arith
unvisited-Grows ((k, deps) ∷ adj) vs ws g = ground (arith, unvisited-Grows adj vs ws g, g.grows k)

Grows-cons : (x : String) (vs : List String) → Grows vs (x ∷ vs)
Grows-cons x vs = record { grows = λ a m. ground arith }

unvisited-cons :
    (adj : Adjacency) (node : String) (vs : List String)
    → contains vs node ≡ false
    → 0 < length (edges_of adj node)
    → unvisited adj (node ∷ vs) < unvisited adj vs
unfolding unvisited lookup
unvisited-cons [] node vs h d = absurd (ground arith)
unvisited-cons ((k, deps) ∷ adj) node vs h d =
    let fewer = unvisited-Grows adj vs (node ∷ vs) (Grows-cons node vs) in
    ground (arith, fewer, unvisited-cons adj node vs h, eq_iff k node, eq_iff node k)

contains-retain_other :
    (node : String) (xs : List String) (a : String)
    → (node === a) ≡ false
    → contains xs a ≡ true
    → contains (retain (λ b. not (b === node)) xs) a ≡ true
contains-retain_other node [] a o h = h
contains-retain_other node (x ∷ xs) a o h =
    ground (arith, contains-retain_other node xs a o, eq_iff x a, eq_iff x node, eq_iff node a)

-- Every visited node is on the stack or safe.
pub record Settled (adj : Adjacency) (s : Search) : Type 0 where
  pub settled :
      (a : String) → contains s.visited a ≡ true → (contains s.in_stack a ≡ true) ⊎ Safe adj a

-- What a search that returns `false` leaves: the given nodes are safe.
pub record Cleared (adj : Adjacency) (nodes : List String) (s t : Search) : Type 0 where
  pub all_safe : (a : String) → contains nodes a ≡ true → Safe adj a
  pub after : Settled adj t
  pub more : Grows s.visited t.visited

-- What a search of the given depth clears.
pub record Clears (adj : Adjacency) (n : ℕ) (visit : String → Search → Bool × Search) : Type 0 where
  pub clears :
      (node : String) (s : Search)
      → Settled adj s
      → contains s.visited node ≡ false
      → unvisited adj s.visited < n
      → (visit node s).0 ≡ false
      → Cleared adj (node ∷ []) s (visit node s).1

module _ (adj : Adjacency) where
  pub Cleared-cons :
      {x : String} {xs : List String} {s t u : Search}
      → Cleared adj (x ∷ []) s t
      → Cleared adj xs t u
      → Cleared adj (x ∷ xs) s u
  Cleared-cons {x = x} {xs = xs} c d = record {
    all_safe = λ a m. elim (contains-cons x xs a m) [
      | inl e ↦ c.all_safe a (ground (arith, eq_iff x a))
      | inr later ↦ d.all_safe a later
    ];
    after = d.after;
    more = record { grows = λ a m. d.more.grows a (c.more.grows a m) };
  }

  safe_only :
      {node : String} → Safe adj node → (a : String) → contains (node ∷ []) a ≡ true → Safe adj a
  safe_only {node} good a m = elim (contains-cons node [] a m) [
    | inl e ↦ subst (Safe adj) e good
    | inr other ↦ absurd (ground arith)
  ]

  -- A node that is visited and not on the stack is cleared already.
  pub visited-Cleared :
      (node : String) (s : Search)
      → Settled adj s
      → contains s.visited node ≡ true
      → contains s.in_stack node ≡ false
      → Cleared adj (node ∷ []) s s
  visited-Cleared node s set v k = record {
    all_safe = elim (set.settled node v) [
      | inl on ↦ absurd (ground arith)
      | inr good ↦ safe_only good
    ];
    after = set;
    more = record { grows = λ a m. m };
  }

  module _ (n : ℕ) (visit : String → Search → Bool × Search) (c : Clears adj n visit) where
    pub check_deps-Cleared :
        (deps : List String) (s : Search)
        → Settled adj s
        → (0 < length deps → unvisited adj s.visited < n)
        → (check_deps visit deps s).0 ≡ false
        → Cleared adj deps s (check_deps visit deps s).1
    unfolding check_deps
    check_deps-Cleared [] s set fuel h = record {
      all_safe = λ a m. absurd (ground arith);
      after = set;
      more = record { grows = λ a m. m };
    }
    check_deps-Cleared (dep ∷ deps) s set fuel h = elim (Bool-cases (contains s.in_stack dep)) [
      | inl on ↦ absurd (ground arith)
      | inr off ↦ elim (Bool-cases (contains s.visited dep)) [
        | inl v ↦
            rw (off, v, check_deps)
              (Cleared-cons (visited-Cleared dep s set v off)
                (check_deps-Cleared deps s set (λ _. fuel (omega arith)) (ground arith)))
        | inr v ↦
            let clear : (visit dep s).0 ≡ false = ground arith in
            let first = c.clears dep s set v (fuel (omega arith)) clear in
            let fewer = unvisited-Grows adj s.visited (visit dep s).1.visited first.more in
            rw (off, v, clear, check_deps)
              (Cleared-cons first (
                check_deps-Cleared deps (visit dep s).1 first.after
                  (λ _. ground (arith, fuel (omega arith))) (ground arith)))
      ]
    ]

  enter-Settled : (node : String) (s : Search) → Settled adj s → Settled adj (enter node s)
  enter-Settled node s set = record {
    settled = λ a m. elim (contains-cons node s.visited a m) [
      | inl e ↦ inl (ground (arith, eq_iff node a))
      | inr v ↦ elim (set.settled a v) [ inl on ↦ inl (ground arith) | inr good ↦ inr good ]
    ];
  }

  leave-Settled :
      (node : String) (r : Bool × Search)
      → r.0 ≡ false
      → Safe adj node
      → Settled adj r.1
      → Settled adj (leave node r).1
  leave-Settled node r h good set = rw h (record {
    settled = λ a m. elim (set.settled a m) [
      | inl on ↦ elim (Bool-cases (node === a)) [
        | inl e ↦ inr (subst (Safe adj) ((eq_iff node a).0 e) good)
        | inr o ↦ inl (contains-retain_other node r.1.in_stack a o on)
      ]
      | inr fine ↦ inr fine
    ];
  })

  leave-Cleared :
      (node : String) (s : Search) (r : Bool × Search)
      → r.0 ≡ false
      → Cleared adj (edges_of adj node) (enter node s) r.1
      → Cleared adj (node ∷ []) s (leave node r).1
  leave-Cleared node s r h below =
      let good : Safe adj node = safe below.all_safe in
      record {
        all_safe = safe_only good;
        after = leave-Settled node r h good below.after;
        more = rw h (record { grows = λ a m. below.more.grows a (ground arith) });
      }

  -- A search whose depth exceeds the number of the steps that are not visited clears its node.
  pub dfs-Clears : (n : ℕ) → Clears adj n (dfs_cycle_check n adj)
  unfolding dfs_cycle_check
  dfs-Clears zero = record { clears = λ node s set v fuel h. absurd (omega arith) }
  dfs-Clears (suc n) = record {
    clears = λ node s set v fuel h.
        let inner = check_deps (dfs_cycle_check n adj) (edges_of adj node) (enter node s) in
        let clear : inner.0 ≡ false = ground arith in
        leave-Cleared node s inner clear (
          check_deps-Cleared n (dfs_cycle_check n adj) (dfs-Clears n) (edges_of adj node)
            (enter node s) (enter-Settled node s set)
            (λ d. omega (arith, unvisited-cons adj node s.visited v d)) clear);
  }

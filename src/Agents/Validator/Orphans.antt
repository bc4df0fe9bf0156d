-- ===== src/Agents/Validator/Orphans.antt =====
-- `has_orphan_steps` of crates/tiny-mite-agents/src/validator.rs.
use tiny_mite.Agents.Planner.{PlanStep, ids}
use tiny_mite.Agents.Validator.Cycles.{Adjacency, edges_of}
use tiny_mite.Agents.Validator.{no_text}
use tiny_mite.Prelude.{
  ℕ, zero, suc, ◌+◌, Bool, true, not, ◌&&◌, String, List, [], ◌∷◌, ◌++◌, all, retain, length,
  if◌then◌else◌, contains, string_eq, insert,
}

-- The steps without dependencies.
unfoldable pub roots : List PlanStep → List String
roots steps = ids (retain (λ s. no_text s.dependencies) steps)

-- `rev.entry(dep).or_default().push(id)` for each dependency.
unfoldable pub add_reverse : Adjacency → String → List String → Adjacency
add_reverse rev id [] = rev
add_reverse rev id (dep ∷ deps) =
    add_reverse (insert dep (edges_of rev dep ++ (id ∷ [])) rev) id deps

unfoldable pub reverse_from : Adjacency → List PlanStep → Adjacency
reverse_from rev [] = rev
reverse_from rev (s ∷ steps) = reverse_from (add_reverse rev s.id s.dependencies) steps

-- The loop over the children of a node: the stack has its top first.
unfoldable pub push_children : List String → List String → List String → List String
push_children reachable [] stack = stack
push_children reachable (c ∷ cs) stack =
    push_children reachable cs (if contains reachable c then stack else c ∷ stack)

-- One round of the loop, on the popped node: the stack and the set after it.
unfoldable pub reach_node :
    Adjacency → String → List String → List String → List String × List String
reach_node rev node stack reachable =
    if contains reachable node
    then (stack, reachable)
    else (push_children (node ∷ reachable) (edges_of rev node) stack, node ∷ reachable)

unfoldable pub reach : ℕ → Adjacency → List String → List String → List String
reach zero rev stack reachable = reachable
reach (suc n) rev [] reachable = reachable
reach (suc n) rev (node ∷ stack) reachable =
    let after = reach_node rev node stack reachable in reach n rev after.0 after.1

-- How many children the map holds; no more than these are ever pushed.
unfoldable pub count_children : Adjacency → ℕ
count_children [] = 0
count_children ((node, children) ∷ rev) = length children + count_children rev

unfoldable pub reachable_steps : List PlanStep → List String
reachable_steps steps =
    let rev = reverse_from [] steps in
    reach (length (roots steps) + count_children rev) rev (roots steps) []

-- `==` of two sets.
unfoldable pub same_set : List String → List String → Bool
same_set xs ys = all (contains ys) xs && all (contains xs) ys

unfoldable pub has_orphan_steps : List PlanStep → Bool
has_orphan_steps steps =
    if no_text (roots steps) then true else not (same_set (reachable_steps steps) (ids steps))

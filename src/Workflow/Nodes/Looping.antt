-- ===== src/Workflow/Nodes/Looping.antt =====
-- How often a loop node sends its branch back: `walkBranch` of
-- services/api/internal/api/handler/invoke.go.
use agent_nexus.Prelude.{ℕ, ◌+◌, ◌<◌, ◌≡◌, refl, true, false, arith}
use agent_nexus.Prelude.Dict.{lookup_or, lookup_or-insert_self}
use agent_nexus.Workflow.Expression.{evaluate_expression}
use agent_nexus.Workflow.Graph.{Node}
use agent_nexus.Workflow.State.{Progress, Branch, Env}
use agent_nexus.Workflow.Nodes.{text_or_blank, max_iter, loop_done, visit_loop}

-- how often the loop node has sent its branch back since it was last left
abbrev pub count : Node → Progress → ℕ
count n p = lookup_or 0 n.id p.loop_iterations

-- A loop node that is left starts counting anew. One that sends its branch back counts one more,
-- which is below its limit, and its exit condition did not hold.
pub visit_loop-count :
    (env : Env) (n : Node) (p : Progress) (b : Branch)
    → let p' = (visit_loop env n p b).0 in
      (loop_done n b.last_output p ≡ true → count n p' ≡ 0)
      × (loop_done n b.last_output p ≡ false
          → (count n p' ≡ count n p + 1)
            × (count n p' < max_iter n)
            × (evaluate_expression (text_or_blank n.config.exit_condition) b.last_output ≡ false))
unfolding visit_loop
visit_loop-count env n p b =
    let i = count n p + 1 in
    (
      λ h. rw h (lookup_or-insert_self 0 n.id 0 p.loop_iterations),
      λ h.
          rw (h, lookup_or-insert_self 0 n.id i p.loop_iterations)
            (refl, ground arith, ground arith),
    )

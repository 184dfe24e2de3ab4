-- ===== src/Workflow/Threads/Measure.antt =====
-- The rank of a thread, and what a turn takes from it: `executeGroupRun` of
-- services/api/internal/api/handler/invoke.go.
use agent_nexus.Prelude.{
  ℕ, zero, suc, ◌+◌, ◌-◌, ◌*◌, ◌≤◌, ◌≡◌, refl, ◌⊎◌, inl, Bool, true, false, List, [], ◌∷◌, ◌++◌,
  map, some, arith, length, keep, get_elem?, set, ◌==◌,
}
use agent_nexus.Prelude.Text.{Text}
use agent_nexus.Workflow.Graph.{Node, Edge, Graph, adj, successors}
use agent_nexus.Workflow.State.{Walk, Branch, Env}
use agent_nexus.Workflow.Nodes.{Answer, Next}
use agent_nexus.Workflow.Turns.{Reply, Turn, begin_turn, finish_call, resume_parallel}
use agent_nexus.Workflow.Threads.{
  Phase, ready, ended, calling, waiting, Thread, Config, after_turn, child_thread,
}
use agent_nexus.Workflow.Threads.Rounds.{Bounded}

abbrev pub rank : Phase → ℕ
rank ended = 0
rank ready = 1
rank (calling n) = 2
rank (waiting n joins) = 2

abbrev ranks : List Thread → ℕ
ranks [] = 0
ranks (t ∷ ts) = rank t.phase + ranks ts

abbrev pub weight : Graph → ℕ
weight g = length g.edges + 2

abbrev pub measure : Env → Config → ℕ
measure env c = weight env.graph * (101 - c.walk.total_steps) + ranks c.threads

pub ranks-append : (ts us : List Thread) → ranks (ts ++ us) ≡ ranks ts + ranks us
ranks-append [] us = omega arith
ranks-append (t ∷ ts) us = omega (arith, ranks-append ts us)

pub ranks-set :
    (ts : List Thread) (i : ℕ) (t u : Thread)
    → get_elem? ts i ≡ some t
    → ranks (set ts i u) + rank t.phase ≡ ranks ts + rank u.phase
ranks-set [] i t u h = cc
ranks-set (s ∷ ts) zero t u h = ground arith
ranks-set (s ∷ ts) (suc i) t u h = omega (arith, ranks-set ts i t u h)

ranks-children :
    (i : ℕ) (input : Text) (stops : List ℕ) (ns : List Node)
    → ranks (map (child_thread i input stops) ns) ≡ length ns
ranks-children i input stops [] = refl
ranks-children i input stops (n ∷ ns) = omega (arith, ranks-children i input stops ns)

length-keep-le : (p : Edge → Bool) (es : List Edge) → length (keep p es) ≤ length es
length-keep-le p [] = omega arith
length-keep-le p (e ∷ es) = ground (arith, length-keep-le p es)

length-successors-le : (g : Graph) (es : List Edge) → length (successors g es) ≤ length es
unfolding successors
length-successors-le g [] = omega arith
length-successors-le g (e ∷ es) = ground (arith, length-successors-le g es)

length-fan-le : (g : Graph) (id : ℕ) → length (successors g (adj g id)) ≤ length g.edges
unfolding adj
length-fan-le g id = omega (
  arith,
  length-successors-le g (keep (λ e. e.source == id) g.edges),
  length-keep-le (λ e. e.source == id) g.edges,
)

abbrev pub out_rank : Thread × List Thread → ℕ
out_rank (t, new) = rank t.phase + ranks new

abbrev has_returned : Turn → Bool
has_returned Turn.returned = true
has_returned (Turn.going next) = false

-- a turn after which the thread neither calls nor forks
abbrev is_simple : Turn → Bool
is_simple Turn.returned = true
is_simple (Turn.going (Next.again b)) = true
is_simple (Turn.going (Next.call n b)) = false
is_simple (Turn.going (Next.fork n b stops)) = false

pub out_rank-le :
    (env : Env) (i : ℕ) (t : Thread) (tn : Turn)
    → (out_rank (after_turn env i t tn) ≤ weight env.graph)
      × (has_returned tn ≡ true → out_rank (after_turn env i t tn) ≡ 0)
      × (is_simple tn ≡ true → out_rank (after_turn env i t tn) ≤ 1)
unfolding after_turn
out_rank-le env i t Turn.returned = (omega arith, λ _. omega arith, λ _. omega arith)
out_rank-le env i t (Turn.going (Next.again b)) = (omega arith, λ h. cc, λ _. omega arith)
out_rank-le env i t (Turn.going (Next.call n b)) = (omega arith, λ h. cc, λ h. cc)
out_rank-le env i t (Turn.going (Next.fork n b stops)) = (
  omega (
    arith,
    ranks-children i b.last_output stops (successors env.graph (adj env.graph n.id)),
    length-fan-le env.graph n.id,
  ),
  λ h. cc,
  λ h. cc,
)

-- A round returns, or it counts a step.
pub begin_turn-counts :
    (env : Env) (a : Answer) (w : Walk) (q : List Node) (b : Branch)
    → Bounded w
    → let (w', tn) = begin_turn env a w q b in
      ((has_returned tn ≡ true) × (w'.total_steps ≡ w.total_steps))
      ⊎ ((w'.total_steps ≡ w.total_steps + 1) × (w.total_steps ≤ 100))
unfolding begin_turn
begin_turn-counts env a w [] b h = inl (refl, refl)
begin_turn-counts env a w (n ∷ q) b h = ground arith

pub finish_call-is_simple :
    (env : Env) (r : Reply) (n : Node) (w : Walk) (b : Branch)
    → is_simple (finish_call env r n.type n w b).1 ≡ true
unfolding finish_call
finish_call-is_simple env r n w b = ground arith

-- one step less leaves one weight less
pub weight_step : (k t u : ℕ) → u ≡ t + 1 → t ≤ 100 → k * (101 - u) + k ≡ k * (101 - t)
weight_step k t u e h = let below : 101 - t ≡ (101 - u) + 1 = omega arith in rw below (omega arith)

pub resume_parallel-total_steps :
    (env : Env) (n : Node) (joins : List ℕ) (w : Walk) (b : Branch)
    → (resume_parallel env n joins w b).0.total_steps ≡ w.total_steps
unfolding resume_parallel
resume_parallel-total_steps env n joins w b = refl

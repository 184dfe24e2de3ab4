-- ===== src/Workflow/Joins/Search/Rounds.antt =====
-- The number of rounds of the search for joins: the "parallel" case of `walkBranch` of
-- services/api/internal/api/handler/invoke.go.
use agent_nexus.Prelude.{
  ℕ, zero, suc, ◌+◌, ◌≤◌, ◌≡◌, refl, ap, inl, inr, false, List, [], ◌∷◌, ◌==◌, member, In, In-keep,
  length, length-append, List-cases, arith, if◌then◌else◌, Bool-cases,
}
use agent_nexus.Workflow.Graph.{Edge, Graph, adj}
use agent_nexus.Workflow.Joins.{join_at, Bfs, push_targets, bfs_round, bfs_loop}
use agent_nexus.Workflow.Joins.Search.{pushed}

-- how many edges point at a node that is not visited
abbrev pub unseen : List ℕ → List Edge → ℕ
unseen v [] = 0
unseen v (e ∷ es) = (if member e.target v then 0 else 1) + unseen v es

unseen-le-length : (v : List ℕ) (es : List Edge) → unseen v es ≤ length es
unseen-le-length v [] = omega arith
unseen-le-length v (e ∷ es) = ground (arith, unseen-le-length v es)

unseen-cons_le : (t : ℕ) (v : List ℕ) (es : List Edge) → unseen (t ∷ v) es ≤ unseen v es
unseen-cons_le t v [] = omega arith
unseen-cons_le t v (e ∷ es) = ground (arith, unseen-cons_le t v es)

unseen-cons_lt :
    (d : Edge) (v : List ℕ) (es : List Edge)
    → In d es
    → member d.target v ≡ false
    → unseen (d.target ∷ v) es + 1 ≤ unseen v es
unseen-cons_lt d v [] i h = elim i [ ]
unseen-cons_lt d v (e ∷ es) (inl q) h = rw q (ground (arith, unseen-cons_le d.target v es))
unseen-cons_lt d v (e ∷ es) (inr i) h = ground (arith, unseen-cons_lt d v es i h)

-- the work that is left
abbrev pub work : Graph → Bfs → ℕ
work g s = unseen s.visited g.edges + length s.queue

pushed-work : (g : Graph) (e : Edge) (s : Bfs) → In e g.edges → work g (pushed e s) ≤ work g s
pushed-work g e s i = elim (Bool-cases (member e.target s.visited)) [
  | inl old ↦ rw old (omega arith)
  | inr new ↦ rw new (
      omega
        (arith, unseen-cons_lt e s.visited g.edges i new, length-append s.queue (e.target ∷ [])))
]

push-work :
    (g : Graph) (es : List Edge) (s : Bfs)
    → ((d : Edge) → In d es → In d g.edges)
    → work g (push_targets es s) ≤ work g s
unfolding push_targets
push-work g [] s h = omega arith
push-work g (e ∷ es) s h =
    omega
      (arith, pushed-work g e s (h e (inl refl)), push-work g es (pushed e s) (λ d i. h d (inr i)))

bfs_round-work : (g : Graph) (cur : ℕ) (s : Bfs) → work g (bfs_round g cur s) ≤ work g s
unfolding bfs_round
bfs_round-work g cur s = elim (Bool-cases (join_at g cur)) [
  | inl stop ↦ rw stop (omega arith)
  | inr more ↦
      rw more (push-work g (adj g cur) s (λ d i. In-keep (λ e. e.source == cur) d g.edges i))
]

pub bfs_from-work :
    (g : Graph) (stops : List ℕ) (id : ℕ)
    → work g (record { visited = id ∷ []; queue = id ∷ []; stops = stops }) ≤ suc (length g.edges)
bfs_from-work g stops id = omega (arith, unseen-le-length (id ∷ []) g.edges)

-- The loop rule: with a round for each unit of the work, the queue is empty at the end, and what
-- every round keeps holds there.
module _ (g : Graph) (P : Bfs → Type 0)
    (keeps : (cur : ℕ) (rest : List ℕ) (s : Bfs)
      → s.queue ≡ cur ∷ rest
      → P s
      → P (bfs_round g cur (record s { queue = rest }))) where
  pub bfs_loop_inv :
      (fuel : ℕ) (s : Bfs)
      → work g s ≤ fuel
      → P s
      → P (bfs_loop g fuel s) × ((bfs_loop g fuel s).queue ≡ [])
  unfolding bfs_loop
  bfs_loop_inv zero s h p = elim (List-cases s.queue) [
    | inl e ↦ (p, e)
    | inr (cur, rest, e) ↦ absurd (omega (arith, ap length e))
  ]
  bfs_loop_inv (suc fuel) s h p = elim (List-cases s.queue) [
    | inl e ↦ rw (e, bfs_loop) (p, e)
    | inr (cur, rest, e) ↦
        rw (e, bfs_loop)
          (bfs_loop_inv fuel (bfs_round g cur (record s { queue = rest }))
            (omega (arith, ap length e, bfs_round-work g cur (record s { queue = rest })))
            (keeps cur rest s e p))
  ]

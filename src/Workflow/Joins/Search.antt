-- ===== src/Workflow/Joins/Search.antt =====
-- The paths along which a parallel branch runs before it stops, and one round of the search: the
-- "parallel" case of `walkBranch` of services/api/internal/api/handler/invoke.go.
pub mod Rounds
pub mod Exact
use agent_nexus.Prelude.{
  ℕ, ◌≡◌, refl, ◌⊎◌, inl, inr, Bool, true, false, ◌||◌, List, [], ◌∷◌, ◌++◌, ◌==◌, member, In,
  arith, member-append, if◌then◌else◌, Bool-cases,
}
use agent_nexus.Workflow.Graph.{Edge, Graph, adj}
use agent_nexus.Workflow.Joins.{join_at, Bfs, push_targets}

-- `b` is reached from `a` along edges, no node before `b` being a join.
pub data Leads (g : Graph) (a : ℕ) : ℕ → Type 0 where
  here : Leads g a a
  next :
      (b : ℕ) (e : Edge) → Leads g a b → join_at g b ≡ false → In e (adj g b) → Leads g a e.target

-- one edge of the loop
abbrev pub pushed : Edge → Bfs → Bfs
pushed e s =
    if member e.target s.visited
    then s
    else record s { visited = e.target ∷ s.visited; queue = s.queue ++ e.target ∷ [] }

pub push-visited_mono :
    (x : ℕ) (es : List Edge) (s : Bfs)
    → member x s.visited ≡ true
    → member x (push_targets es s).visited ≡ true
unfolding push_targets
push-visited_mono x [] s h = h
push-visited_mono x (e ∷ es) s h = push-visited_mono x es (pushed e s) (ground arith)

pub push-covers :
    (d : Edge) (es : List Edge) (s : Bfs)
    → In d es
    → member d.target (push_targets es s).visited ≡ true
unfolding push_targets
push-covers d [] s h = elim h [ ]
push-covers d (e ∷ es) s (inl q) =
    push-visited_mono d.target es (pushed e s) (rw (← q) (ground arith))
push-covers d (e ∷ es) s (inr h) = push-covers d es (pushed e s) h

pub push-queue_mono :
    (x : ℕ) (es : List Edge) (s : Bfs)
    → member x s.queue ≡ true
    → member x (push_targets es s).queue ≡ true
unfolding push_targets
push-queue_mono x [] s h = h
push-queue_mono x (e ∷ es) s h =
    push-queue_mono x es (pushed e s) (ground (arith, member-append x s.queue (e.target ∷ [])))

-- A node that is newly visited is on the queue.
pub push-visited_new :
    (x : ℕ) (es : List Edge) (s : Bfs)
    → member x (push_targets es s).visited ≡ true
    → (member x s.visited ≡ true) ⊎ (member x (push_targets es s).queue ≡ true)
unfolding push_targets
push-visited_new x [] s h = inl h
push-visited_new x (e ∷ es) s h = elim (push-visited_new x es (pushed e s) h) [
  | inr q ↦ inr q
  | inl v ↦ elim (Bool-cases (member x s.visited)) [
    | inl old ↦ inl old
    | inr new ↦ inr (
        push-queue_mono x es (pushed e s) (ground (arith, member-append x s.queue (e.target ∷ []))))
  ]
]

-- What is visited or queued was so before, or is the target of an edge.
pub push-sources :
    (x : ℕ) (es : List Edge) (s : Bfs)
    → member x (push_targets es s).visited ≡ true
    → (member x s.visited ≡ true) ⊎ ((d : Edge) × In d es × (d.target ≡ x))
unfolding push_targets
push-sources x [] s h = inl h
push-sources x (e ∷ es) s h = elim (push-sources x es (pushed e s) h) [
  | inr (d, i, q) ↦ inr (d, inr i, q)
  | inl v ↦ elim (Bool-cases (e.target == x)) [
    | inl same ↦ inr (e, inl refl, ground arith)
    | inr other ↦ inl (ground arith)
  ]
]

pub push-queue_sources :
    (x : ℕ) (es : List Edge) (s : Bfs)
    → member x (push_targets es s).queue ≡ true
    → (member x s.queue ≡ true) ⊎ ((d : Edge) × In d es × (d.target ≡ x))
unfolding push_targets
push-queue_sources x [] s h = inl h
push-queue_sources x (e ∷ es) s h = elim (push-queue_sources x es (pushed e s) h) [
  | inr (d, i, q) ↦ inr (d, inr i, q)
  | inl v ↦ elim (Bool-cases (e.target == x)) [
    | inl same ↦ inr (e, inl refl, ground arith)
    | inr other ↦ inl (ground (arith, member-append x s.queue (e.target ∷ [])))
  ]
]

pub push-stops : (es : List Edge) (s : Bfs) → (push_targets es s).stops ≡ s.stops
unfolding push_targets
push-stops [] s = refl
push-stops (e ∷ es) s = ground (arith, push-stops es (pushed e s))

-- ===== src/Workflow/Threads/Termination/Progress.antt =====
-- Which branches can go on: the wait group of `walkBranch` of
-- services/api/internal/api/handler/invoke.go.
use agent_nexus.Prelude.{
  ℕ, zero, suc, ◌≤◌, ◌<◌, ◌≡◌, refl, sym, subst, ◌∙◌, ◌⊎◌, inl, inr, true, false, ◌&&◌, List, [],
  ◌∷◌, ◌++◌, map, Option, none, some, arith, ◌==◌, ==_iff, length, get_elem?, set, Option-cases,
  Bool-cases,
}
use agent_nexus.Prelude.Text.{Text}
use agent_nexus.Run.{Run}
use agent_nexus.Workflow.Graph.{Node}
use agent_nexus.Workflow.State.{Checkpoint, Env}
use agent_nexus.Workflow.Nodes.{Answer, Next}
use agent_nexus.Workflow.Turns.{Reply, Turn, begin_turn, finish_call}
use agent_nexus.Workflow.Threads.{
  Phase, ready, ended, calling, waiting, Thread, Config, Action, is_live, is_child, after_turn,
  child_thread, thread_turn, turn_of, step, run_actions, has_live_child, start_config,
}
use agent_nexus.Workflow.Threads.Termination.{phase_can_go, can_go}

-- A thread's parent was started before it.
abbrev ParentsBelow : List Thread → Type 0
ParentsBelow ts = (k : ℕ) (t : Thread) (j : ℕ) → get_elem? ts k ≡ some t → t.parent ≡ some j → j < k

has_live_child_at :
    (i : ℕ) (ts : List Thread)
    → has_live_child i ts ≡ true
    → (k : ℕ) × (t : Thread) × (get_elem? ts k ≡ some t)
      × (t.parent ≡ some i)
      × (is_live t.phase ≡ true)
unfolding has_live_child
has_live_child_at i [] h = cc
has_live_child_at i (t ∷ ts) h = elim (Bool-cases (is_child i t && is_live t.phase)) [
  | inl here ↦ (zero, t, refl, ground arith, ground arith)
  | inr later ↦
      let (k, u, at_k, p, l) = has_live_child_at i ts (ground arith) in (suc k, u, at_k, p, l)
]

abbrev pub AllEnded : ℕ → List Thread → Type 0
AllEnded n ts = (k : ℕ) (t : Thread) → n ≤ k → get_elem? ts k ≡ some t → is_live t.phase ≡ false

AllEnded-down :
    (n : ℕ) (ts : List Thread)
    → ((t : Thread) → get_elem? ts n ≡ some t → is_live t.phase ≡ false)
    → AllEnded (suc n) ts
    → AllEnded n ts
AllEnded-down n ts here later k t le at_k = elim (Bool-cases (n == k)) [
  | inl same ↦ here t (subst (λ j. get_elem? ts j ≡ some t) (sym ((==_iff n k).0 same)) at_k)
  | inr other ↦ later k t (ground arith) at_k
]

-- the live thread with the largest index can go on
module _ (c : Config) (below : ParentsBelow c.threads) where
  last_can_go :
      (n : ℕ) (t : Thread)
      → get_elem? c.threads n ≡ some t
      → is_live t.phase ≡ true
      → AllEnded (suc n) c.threads
      → (ph : Phase) → t.phase ≡ ph
      → phase_can_go ph n c.threads ≡ true
  last_can_go n t found l later ready e = refl
  last_can_go n t found l later ended e = ground arith
  last_can_go n t found l later (calling m) e = refl
  last_can_go n t found l later (waiting m joins) e =
      elim (Bool-cases (has_live_child n c.threads)) [
        | inr free ↦ rw free
        | inl busy ↦
            let (k, u, at_k, p, lu) = has_live_child_at n c.threads busy in
            let over = later k u (below k u n at_k p) at_k in cc
      ]

  find_live :
      (n : ℕ) → AllEnded n c.threads → AllEnded zero c.threads ⊎ ((i : ℕ) × (can_go c i ≡ true))
  unfolding can_go
  find_live zero h = inl h
  find_live (suc n) h = elim (Option-cases (get_elem? c.threads n)) [
    | inl missing ↦ find_live n (AllEnded-down n c.threads (λ t at_n. cc) h)
    | inr (t, found) ↦ elim (Bool-cases (is_live t.phase)) [
      | inl l ↦ inr (n, rw (found, can_go) (last_can_go n t found l h t.phase refl))
      | inr over ↦ find_live n (AllEnded-down n c.threads (λ u at_n. ground arith) h)
    ]
  ]

get_elem?-past : (ts : List Thread) (n : ℕ) → length ts ≤ n → get_elem? ts n ≡ none
get_elem?-past [] n h = refl
get_elem?-past (t ∷ ts) zero h = absurd (omega arith)
get_elem?-past (t ∷ ts) (suc n) h = get_elem?-past ts n (omega arith)

some_can_go :
    (c : Config)
    → ParentsBelow c.threads
    → AllEnded zero c.threads ⊎ ((i : ℕ) × (can_go c i ≡ true))
some_can_go c below =
    find_live c below (length c.threads)
      (λ k t le at_k. let gone = get_elem?-past c.threads k le in cc)

-- What a turn puts back: the thread with the same parent, and at the end children of it.
abbrev IsChildren : ℕ → List Thread → Type 0
IsChildren i [] = Unit
IsChildren i (t ∷ ts) = (t.parent ≡ some i) × IsChildren i ts

children-parent :
    (i : ℕ) (new : List Thread) (m : ℕ) (v : Thread)
    → IsChildren i new
    → get_elem? new m ≡ some v
    → v.parent ≡ some i
children-parent i [] m v ch h = cc
children-parent i (t ∷ new) zero v ch h = ground arith
children-parent i (t ∷ new) (suc m) v ch h = children-parent i new m v ch.1 h

-- an element of a longer list is one of the old or one of the new
append_at :
    (ts new : List Thread) (k : ℕ) (v : Thread)
    → get_elem? (ts ++ new) k ≡ some v
    → (get_elem? ts k ≡ some v) ⊎ ((length ts ≤ k) × ((m : ℕ) × (get_elem? new m ≡ some v)))
append_at [] new k v h = inr (omega arith, (k, h))
append_at (t ∷ ts) new zero v h = inl h
append_at (t ∷ ts) new (suc k) v h = elim (append_at ts new k v h) [
  | inl old ↦ inl old
  | inr (le, m) ↦ inr (omega arith, m)
]

set_at :
    (ts : List Thread) (i : ℕ) (t u : Thread) (new : List Thread) (k : ℕ) (v : Thread)
    → get_elem? ts i ≡ some t
    → u.parent ≡ t.parent
    → get_elem? (set ts i u ++ new) k ≡ some v
    → ((w : Thread) × (get_elem? ts k ≡ some w) × (w.parent ≡ v.parent))
      ⊎ ((i < k) × ((m : ℕ) × (get_elem? new m ≡ some v)))
set_at [] i t u new k v at_i same h = cc
set_at (s ∷ ts) zero t u new zero v at_i same h = inl (s, refl, ground arith)
set_at (s ∷ ts) zero t u new (suc k) v at_i same h = elim (append_at ts new k v h) [
  | inl old ↦ inl (v, old, refl)
  | inr (le, m) ↦ inr (omega arith, m)
]
set_at (s ∷ ts) (suc i) t u new zero v at_i same h = inl (s, refl, ground arith)
set_at (s ∷ ts) (suc i) t u new (suc k) v at_i same h = elim (set_at ts i t u new k v at_i same h) [
  | inl (w, at_k, e) ↦ inl (w, at_k, e)
  | inr (lt, m) ↦ inr (omega arith, m)
]

ParentsBelow-set :
    (ts : List Thread) (i : ℕ) (t u : Thread) (new : List Thread)
    → get_elem? ts i ≡ some t
    → u.parent ≡ t.parent
    → IsChildren i new
    → ParentsBelow ts
    → ParentsBelow (set ts i u ++ new)
ParentsBelow-set ts i t u new at_i same ch below k v j at_k p =
    elim (set_at ts i t u new k v at_i same at_k) [
      | inl (w, old, e) ↦ below k w j old (e ∙ p)
      | inr (lt, (m, at_m)) ↦
          let mine = children-parent i new m v ch at_m in
          let eq : i ≡ j = ground arith in omega arith
    ]

map-IsChildren :
    (i : ℕ) (input : Text) (stops : List ℕ) (ns : List Node)
    → IsChildren i (map (child_thread i input stops) ns)
map-IsChildren i input stops [] = tt
map-IsChildren i input stops (n ∷ ns) = (refl, map-IsChildren i input stops ns)

after_turn-parents :
    (env : Env) (i : ℕ) (t : Thread) (tn : Turn)
    → ((after_turn env i t tn).0.parent ≡ t.parent) × IsChildren i (after_turn env i t tn).1
unfolding after_turn
after_turn-parents env i t Turn.returned = (refl, tt)
after_turn-parents env i t (Turn.going (Next.again b)) = (refl, tt)
after_turn-parents env i t (Turn.going (Next.call n b)) = (refl, tt)
after_turn-parents env i t (Turn.going (Next.fork n b stops)) =
    (refl, map-IsChildren i b.last_output stops _)

module _ (env : Env) where
  thread_turn-ParentsBelow :
      (a : Answer) (r : Reply) (c : Config) (i : ℕ) (t : Thread)
      → get_elem? c.threads i ≡ some t
      → ParentsBelow c.threads
      → (ph : Phase) → ParentsBelow (thread_turn env i a r c ph t).threads
  unfolding thread_turn
  thread_turn-ParentsBelow a r c i t at_i below ready =
      let tn = (begin_turn env a c.walk t.branch.queue t.branch).1 in
      let (same, ch) = after_turn-parents env i t tn in
      ParentsBelow-set c.threads i t (after_turn env i t tn).0 (after_turn env i t tn).1 at_i same
        ch below
  thread_turn-ParentsBelow a r c i t at_i below (calling n) =
      let tn = (finish_call env r n.type n c.walk t.branch).1 in
      let (same, ch) = after_turn-parents env i t tn in
      ParentsBelow-set c.threads i t (after_turn env i t tn).0 (after_turn env i t tn).1 at_i same
        ch below
  thread_turn-ParentsBelow a r c i t at_i below (waiting n joins) =
      elim (Bool-cases (has_live_child i c.threads)) [
        | inl busy ↦ rw busy below
        | inr free ↦ rw free (ParentsBelow-set c.threads i t _ [] at_i refl tt below)
      ]
  thread_turn-ParentsBelow a r c i t at_i below ended = below

  step-ParentsBelow :
      (c : Config) (act : Action) → ParentsBelow c.threads → ParentsBelow (step env c act).threads
  unfolding step
  step-ParentsBelow c (Action.turn i a r) below = elim (Option-cases (get_elem? c.threads i)) [
    | inl missing ↦ rw (missing, turn_of) below
    | inr (t, found) ↦ rw (found, turn_of) (thread_turn-ParentsBelow a r c i t found below t.phase)
  ]
  step-ParentsBelow c Action.cancel below = below
  step-ParentsBelow c Action.disconnect below = below

  run_actions-ParentsBelow :
      (c : Config) (l : List Action)
      → ParentsBelow c.threads
      → ParentsBelow (run_actions env c l).threads
  unfolding run_actions
  run_actions-ParentsBelow c [] below = below
  run_actions-ParentsBelow c (act ∷ l) below =
      run_actions-ParentsBelow (step env c act) l (step-ParentsBelow c act below)

  start-ParentsBelow :
      (n : Node) (input : Text) (loops : List (ℕ × ℕ)) (saved : Option Checkpoint) (run : Run)
      → ParentsBelow (start_config n input loops saved run).threads
  start-ParentsBelow n input loops saved run zero t j at_k p = ground arith
  start-ParentsBelow n input loops saved run (suc k) t j at_k p = cc

-- After any actions, either all branches have ended or some branch can take a turn: no parallel node
-- waits for ever.
pub run_actions-can_go :
    (env : Env) (n : Node) (input : Text) (loops : List (ℕ × ℕ)) (saved : Option Checkpoint)
    (run : Run) (l : List Action)
    → let c = run_actions env (start_config n input loops saved run) l in
      AllEnded zero c.threads ⊎ ((i : ℕ) × (can_go c i ≡ true))
run_actions-can_go env n input loops saved run l =
    some_can_go _
      (run_actions-ParentsBelow env _ l (start-ParentsBelow env n input loops saved run))

-- ===== src/Workflow/Joins/Search/Exact.antt =====
-- The joins that the search finds: the "parallel" case of `walkBranch` of
-- services/api/internal/api/handler/invoke.go.
use agent_nexus.Prelude.{
  ℕ, suc, ◌≡◌, refl, ◌↔◌, ◌⊎◌, inl, inr, true, false, List, [], ◌∷◌, ◌==◌, ==_iff, sym, subst,
  member, In, length, arith, if◌then◌else◌, Bool-cases,
}
use agent_nexus.Workflow.Graph.{Edge, Graph, adj}
use agent_nexus.Workflow.Joins.{
  join_at, Bfs, push_targets, bfs_round, bfs_from, stop_nodes_from, stop_nodes,
}
use agent_nexus.Workflow.Joins.Search.{
  Leads, here, next, push-visited_mono, push-covers, push-queue_mono, push-visited_new,
  push-sources, push-queue_sources, push-stops,
}
use agent_nexus.Workflow.Joins.Search.Rounds.{bfs_from-work, bfs_loop_inv}

-- A visited node that is no longer on the queue: a join is noted, and the targets of any other node
-- are visited.
abbrev Done : Graph → Bfs → ℕ → Type 0
Done g s x =
    ((join_at g x ≡ true) × (member x s.stops ≡ true))
    ⊎ ((join_at g x ≡ false) × ((e : Edge) → In e (adj g x) → member e.target s.visited ≡ true))

record Inv (g : Graph) (a : ℕ) (before : List ℕ) (s : Bfs) : Type 0 where
  started : member a s.visited ≡ true
  visited_leads : (x : ℕ) → member x s.visited ≡ true → Leads g a x
  queue_leads : (x : ℕ) → member x s.queue ≡ true → Leads g a x
  stops_lead :
      (x : ℕ)
      → member x s.stops ≡ true
      → (member x before ≡ true) ⊎ (Leads g a x × (join_at g x ≡ true))
  kept : (x : ℕ) → member x before ≡ true → member x s.stops ≡ true
  closed : (x : ℕ) → member x s.visited ≡ true → (member x s.queue ≡ true) ⊎ Done g s x

module _ (g : Graph) (a : ℕ) (before : List ℕ) where
  -- the round of a join
  stop_round :
      (cur : ℕ) (rest : List ℕ) (s : Bfs)
      → s.queue ≡ cur ∷ rest
      → join_at g cur ≡ true
      → Inv g a before s
      → Inv g a before
          (record s { queue = rest; stops = if member cur s.stops then s.stops else cur ∷ s.stops })
  stop_round cur rest s q j i =
      let cur_leads : Leads g a cur = i.queue_leads cur (rw q (ground arith)) in
      record {
        started = i.started;
        visited_leads = i.visited_leads;
        queue_leads = λ x h. i.queue_leads x (rw q (ground arith));
        stops_lead = λ x h. elim (Bool-cases (cur == x)) [
          | inl same ↦
              let e = (==_iff cur x).0 same in
              inr (subst (Leads g a) e cur_leads, subst (λ y. join_at g y ≡ true) e j)
          | inr other ↦ i.stops_lead x (ground arith)
        ];
        kept = λ x h. ground (arith, i.kept x h);
        closed = λ x h. elim (i.closed x h) [
          | inr (inl (jx, m)) ↦ inr (inl (jx, ground arith))
          | inr (inr d) ↦ inr (inr d)
          | inl queued ↦
              let m : member x (cur ∷ rest) ≡ true = rw q at queued in
              elim (Bool-cases (cur == x)) [
                | inl same ↦
                    inr (
                      inl (subst (λ y. join_at g y ≡ true) ((==_iff cur x).0 same) j, ground arith))
                | inr other ↦ inl (ground arith)
              ]
        ];
      }

  -- the round of any other node
  push_round :
      (cur : ℕ) (rest : List ℕ) (s : Bfs)
      → s.queue ≡ cur ∷ rest
      → join_at g cur ≡ false
      → Inv g a before s
      → Inv g a before (push_targets (adj g cur) (record s { queue = rest }))
  push_round cur rest s q j i =
      let es = adj g cur in
      let s' : Bfs = record s { queue = rest } in
      let cur_leads : Leads g a cur = i.queue_leads cur (rw q (ground arith)) in
      let target_leads : (x : ℕ) (d : Edge) → In d es → d.target ≡ x → Leads g a x =
        λ x d m e. subst (Leads g a) e (next cur d cur_leads j m) in
      record {
        started = push-visited_mono a es s' i.started;
        visited_leads = λ x h. elim (push-sources x es s' h) [
          | inl v ↦ i.visited_leads x v
          | inr (d, m, e) ↦ target_leads x d m e
        ];
        queue_leads = λ x h. elim (push-queue_sources x es s' h) [
          | inl v ↦ i.queue_leads x (rw q (ground arith))
          | inr (d, m, e) ↦ target_leads x d m e
        ];
        stops_lead = λ x h. i.stops_lead x (rw (push-stops es s') at h);
        kept = λ x h. rw (push-stops es s') (i.kept x h);
        closed = λ x h. elim (push-visited_new x es s' h) [
          | inr queued ↦ inl queued
          | inl v ↦ elim (i.closed x v) [
            | inr (inl (jx, m)) ↦ inr (inl (jx, rw (push-stops es s') m))
            | inr (inr (jx, all)) ↦
                inr (inr (jx, λ e m. push-visited_mono e.target es s' (all e m)))
            | inl queued ↦
                let m : member x (cur ∷ rest) ≡ true = rw q at queued in
                elim (Bool-cases (cur == x)) [
                  | inl same ↦ inr (
                      inr
                        (subst Expanded ((==_iff cur x).0 same) (j, λ e n. push-covers e es s' n)))
                  | inr other ↦ inl (push-queue_mono x es s' (ground arith))
                ]
          ]
        ];
      }
    where
      Expanded : ℕ → Type 0
      Expanded y =
          (join_at g y ≡ false)
          × ((e : Edge)
              → In e (adj g y)
              → member e.target (push_targets (adj g cur) (record s { queue = rest })).visited
                ≡ true)

  round-Inv :
      (cur : ℕ) (rest : List ℕ) (s : Bfs)
      → s.queue ≡ cur ∷ rest
      → Inv g a before s
      → Inv g a before (bfs_round g cur (record s { queue = rest }))
  unfolding bfs_round
  round-Inv cur rest s q i = elim (Bool-cases (join_at g cur)) [
    | inl stop ↦ rw stop (stop_round cur rest s q stop i)
    | inr more ↦ rw more (push_round cur rest s q more i)
  ]

  abbrev first : Bfs
  first = record { visited = a ∷ []; queue = a ∷ []; stops = before }

  one-Leads : (x : ℕ) → member x (a ∷ []) ≡ true → Leads g a x
  one-Leads x h = subst (Leads g a) ((==_iff a x).0 (ground arith)) here

  first-Inv : Inv g a before first
  first-Inv = record {
    started = ground arith;
    visited_leads = one-Leads;
    queue_leads = one-Leads;
    stops_lead = λ x h. inl h;
    kept = λ x h. h;
    closed = λ x h. inl h;
  }

  -- what a completed search has visited is closed under the edges of its nodes that are no joins
  Leads-visited :
      (s : Bfs)
      → Inv g a before s
      → s.queue ≡ []
      → (b : ℕ) → Leads g a b
      → member b s.visited ≡ true
  Leads-visited s i q b here = i.started
  Leads-visited s i q b (next c e l j m) = elim (i.closed c (Leads-visited s i q c l)) [
    | inl queued ↦ let bad : false ≡ true = rw q at queued in cc
    | inr (inl (jc, _)) ↦ cc
    | inr (inr (_, all)) ↦ all e m
  ]

  -- A node is noted by the search from one branch exactly when it was noted before, or is a join
  -- that the branch runs into.
  bfs_from-stops_iff :
      (j : ℕ)
      → (member j (bfs_from g before a).stops ≡ true)
        ↔ ((member j before ≡ true) ⊎ (Leads g a j × (join_at g j ≡ true)))
  unfolding bfs_from
  bfs_from-stops_iff j =
      let (i, q) =
        bfs_loop_inv g (Inv g a before) round-Inv (suc (length g.edges)) first
          (bfs_from-work g before a) first-Inv in
      (
        i.stops_lead j,
        elim [
          | inl old ↦ i.kept j old
          | inr (l, jj) ↦ elim (i.closed j (Leads-visited _ i q j l)) [
            | inl queued ↦ let bad : false ≡ true = rw q at queued in cc
            | inr (inl (_, m)) ↦ m
            | inr (inr (jf, _)) ↦ cc
          ]
        ],
      )

-- a join that one of the edges' branches runs into
abbrev pub IsStop : Graph → List Edge → ℕ → Type 0
IsStop g es j = (e : Edge) × In e es × Leads g e.target j × (join_at g j ≡ true)

stop_nodes_from_iff :
    (g : Graph) (j : ℕ) (es : List Edge) (before : List ℕ)
    → (member j (stop_nodes_from g es before) ≡ true) ↔ ((member j before ≡ true) ⊎ IsStop g es j)
unfolding stop_nodes_from
stop_nodes_from_iff g j [] before = (λ h. inl h, elim [ inl h ↦ h | inr (e, m, _, _) ↦ absurd m ])
stop_nodes_from_iff g j (e ∷ es) before =
    let (to, from) = stop_nodes_from_iff g j es (bfs_from g before e.target).stops in
    let (here_to, here_from) = bfs_from-stops_iff g e.target before j in
    (
      λ h. elim (to h) [
        | inl found ↦ elim (here_to found) [
          | inl old ↦ inl old
          | inr (l, jj) ↦ inr (e, inl refl, l, jj)
        ]
        | inr (d, m, l, jj) ↦ inr (d, inr m, l, jj)
      ],
      elim [
        | inl old ↦ from (inl (here_from (inl old)))
        | inr (d, inl same, l, jj) ↦
            from (inl (here_from (inr (subst (λ c. Leads g c.target j) (sym same) l, jj))))
        | inr (d, inr m, l, jj) ↦ from (inr (d, m, l, jj))
      ],
    )

-- The branches of a parallel node stop at exactly the joins that one of them runs into along edges,
-- with no other join on the way.
pub stop_nodes_iff :
    (g : Graph) (es : List Edge) (j : ℕ) → (member j (stop_nodes g es) ≡ true) ↔ IsStop g es j
unfolding stop_nodes
stop_nodes_iff g es j =
    let (to, from) = stop_nodes_from_iff g j es [] in
    (λ h. elim (to h) [ inl none_before ↦ cc | inr s ↦ s ], λ s. from (inr s))

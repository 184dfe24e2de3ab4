-- ===== src/Workflow/Nodes/Joining.antt =====
-- What a join node makes of the outputs of its branches: `walkBranch` of
-- services/api/internal/api/handler/invoke.go.
use agent_nexus.Prelude.{
  ℕ, ◌≡◌, refl, sym, ap, subst, ◌∙◌, inl, inr, Bool, true, List, [], ◌∷◌, ◌++◌, some, arith, ◌==◌,
  ==_refl, keep, In, In-append_left, In-append_right, Bool-cases, Option-cases,
}
use mathlib.Core.List.{append-nil, append_assoc}
use agent_nexus.Prelude.Text.{Text, codes, join}
use agent_nexus.Prelude.Text.Laws.{IsInfix}
use agent_nexus.Prelude.Dict.{lookup, lookup-insert}
use agent_nexus.Workflow.Graph.{Node, Edge, Graph, adj, edges_targeting}
use agent_nexus.Workflow.State.{Progress, Branch, Env}
use agent_nexus.Workflow.Nodes.{Answer, incoming_outputs, joined_output, visit_join}

In-keep_intro :
    (p : Edge → Bool) (e : Edge) (es : List Edge) → In e es → p e ≡ true → In e (keep p es)
In-keep_intro p e [] i h = i
In-keep_intro p e (d ∷ es) (inl q) h = rw q (rw h (inl refl))
In-keep_intro p e (d ∷ es) (inr i) h = elim (Bool-cases (p d)) [
  | inl kept ↦ rw kept (inr (In-keep_intro p e es i h))
  | inr cut ↦ rw cut (In-keep_intro p e es i h)
]

In-edges_targeting :
    (g : Graph) (order : List ℕ) (e : Edge)
    → In e g.edges
    → In e.source order
    → In e (edges_targeting g order e.target)
unfolding edges_targeting
In-edges_targeting g [] e i o = absurd o
In-edges_targeting g (s ∷ order) e i (inl q) =
    In-append_left e (keep (λ d. d.target == e.target) (adj g s)) _ (
      In-keep_intro (λ d. d.target == e.target) e (adj g s)
        (In-keep_intro (λ d. d.source == s) e g.edges i (ground arith)) (==_refl e.target))
In-edges_targeting g (s ∷ order) e i (inr o) =
    In-append_right e (keep (λ d. d.target == e.target) (adj g s)) _
      (In-edges_targeting g order e i o)

In-incoming_outputs :
    (es : List Edge) (p : Progress) (e : Edge) (out : Text)
    → In e es
    → lookup e.source p.node_outputs ≡ some out
    → In out (incoming_outputs es p)
unfolding incoming_outputs
In-incoming_outputs [] p e out i h = absurd i
In-incoming_outputs (d ∷ es) p e out (inl q) h =
    let at_d : lookup d.source p.node_outputs ≡ some out =
      subst (λ c. lookup c.source p.node_outputs ≡ some out) (sym q) h in
    rw (at_d, incoming_outputs, In) (inl refl)
In-incoming_outputs (d ∷ es) p e out (inr i) h =
    elim (Option-cases (lookup d.source p.node_outputs)) [
      | inl missing ↦ rw (missing, incoming_outputs, In) (In-incoming_outputs es p e out i h)
      | inr (o, found) ↦ rw (found, incoming_outputs, In) (inr (In-incoming_outputs es p e out i h))
    ]

-- Each text of a list stands in what `strings.Join` makes of it.
join-IsInfix : (outs : List Text) (sep out : Text) → In out outs → IsInfix out (join outs sep)
join-IsInfix [] sep out i = absurd i
join-IsInfix (s ∷ []) sep out (inl q) = ([], [], append-nil out ∙ sym q)
join-IsInfix (s ∷ []) sep out (inr i) = absurd i
join-IsInfix (s ∷ t ∷ r) sep out (inl q) =
    ([], sep ++ join (t ∷ r) sep, ap (λ x. x ++ (sep ++ join (t ∷ r) sep)) (sym q))
join-IsInfix (s ∷ t ∷ r) sep out (inr i) =
    let (b, a, e) = join-IsInfix (t ∷ r) sep out i in
    (s ++ (sep ++ b), a, simp append_assoc (ap (λ x. s ++ (sep ++ x)) e))

joined_output-IsInfix :
    (outs : List Text) (last out : Text) → In out outs → IsInfix out (joined_output outs last)
unfolding joined_output
joined_output-IsInfix [] last out i = absurd i
joined_output-IsInfix (o ∷ outs) last out i = join-IsInfix (o ∷ outs) (codes "\n---\n") out i

-- Whatever order the sources come in, the output of a join holds the output of every node with an
-- edge to it that has one.
pub visit_join-IsInfix :
    (env : Env) (a : Answer) (n : Node) (p : Progress) (b : Branch) (e : Edge) (out : Text)
    → In e env.graph.edges
    → e.target ≡ n.id
    → In e.source a.source_order
    → lookup e.source p.node_outputs ≡ some out
    → (joined : Text) × (lookup n.id (visit_join env a n p b).0.node_outputs ≡ some joined)
      × IsInfix out joined
unfolding visit_join
visit_join-IsInfix env a n p b e out i t o h =
    let es = edges_targeting env.graph a.source_order n.id in
    let at_n : In e es =
      subst (λ id. In e (edges_targeting env.graph a.source_order id)) t
        (In-edges_targeting env.graph a.source_order e i o) in
    (
      joined_output (incoming_outputs es p) b.last_output,
      lookup-insert n.id n.id _ p.node_outputs ∙ rw (==_refl n.id),
      joined_output-IsInfix (incoming_outputs es p) b.last_output out
          (In-incoming_outputs es p e out at_n h),
    )

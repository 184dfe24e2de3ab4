-- ===== src/Workflow/Condition/Routing.antt =====
-- The two loops of the condition node against priorities of the edges: `walkBranch` of
-- services/api/internal/api/handler/invoke.go.
use Prim.Native.String.{String}
use text.Mathlib.Text.{◌==◌}
use text.Mathlib.TextEquality.{eq_iff}
use agent_nexus.Prelude.{
  ◌≡◌, refl, ap, ◌∙◌, Bool, true, false, not, ◌&&◌, List, [], ◌∷◌, ◌++◌, Option, none, some,
  if◌then◌else◌, All, arith, Bool-cases, inl, inr,
}
use agent_nexus.Workflow.Graph.{Edge}
use agent_nexus.Workflow.Condition.{
  same, is_default, is_yes, is_fallback, Route, match_edges, fall_back, route_condition,
}

abbrev pub to_edge : Edge → Route
to_edge e = record { matched = e.label; next = some e.target }

abbrev pub no_route : Route
no_route = record { matched = ""; next = none }

-- the first edge that passes a test
abbrev pub first_edge : (Edge → Bool) → List Edge → Option Edge
first_edge p [] = none
first_edge p (e ∷ es) = if p e then some e else first_edge p es

-- the first "*" edge, or else the last unlabelled one
abbrev pub default_edge : List Edge → Option Edge
default_edge [] = none
default_edge (e ∷ es) =
    let later = default_edge es in
    if e.label == "*"
    then some e
    else if e.label == ""
    then elim later [ none ↦ some e | some d ↦ some d ]
    else later

-- a labelled edge whose label agrees with the test
abbrev pub is_match : Bool → Edge → Bool
is_match holds e = not (is_default e) && same holds (is_yes e)

abbrev pub to_first : Option Edge → Route → Route
to_first none r = r
to_first (some e) r = to_edge e

-- what the first loop does after the edges before
abbrev after_defaults : List Edge → Route → Route
after_defaults es r = if r.matched == "" then to_first (default_edge es) r else r

star_not_blank : (s : String) → (s == "*") ≡ true → (s == "") ≡ false
star_not_blank s h = rw ((eq_iff s "*").0 h)

to_first-or :
    (o : Option Edge) (e : Edge) (r : Route)
    → to_first o (to_edge e) ≡ to_first (elim o [ none ↦ some e | some d ↦ some d ]) r
to_first-or none e r = refl
to_first-or (some d) e r = refl

match_edges-eq :
    (holds : Bool) (es : List Edge) (r : Route)
    → match_edges holds es r ≡ to_first (first_edge (is_match holds) es) (after_defaults es r)
unfolding match_edges
match_edges-eq holds [] r = ground arith
match_edges-eq holds (e ∷ es) r =
    let found = first_edge (is_match holds) es in
    let with_e = match_edges-eq holds es (to_edge e) in
    let with_r = match_edges-eq holds es r in
    elim (Bool-cases (e.label == "*")) [
      | inl star ↦ elim (Bool-cases (r.matched == "")) [
        | inl unset ↦ rw (star, unset) (with_e ∙ rw (star_not_blank e.label star))
        | inr taken ↦ rw (star, taken) (with_r ∙ rw taken)
      ]
      | inr star ↦ elim (Bool-cases (e.label == "")) [
        | inl blank ↦ elim (Bool-cases (r.matched == "")) [
          | inl unset ↦
              rw (star, blank, unset)
                (with_e ∙ rw blank (ap (to_first found) (to_first-or (default_edge es) e r)))
          | inr taken ↦ rw (star, blank, taken) (with_r ∙ rw taken)
        ]
        | inr blank ↦ elim (Bool-cases (same holds (is_yes e))) [
          | inl agrees ↦ rw (star, blank, agrees)
          | inr differs ↦ rw (star, blank, differs) with_r
        ]
      ]
    ]

fall_back-eq :
    (es : List Edge) (r : Route) → fall_back es r ≡ to_first (first_edge is_fallback es) r
unfolding fall_back
fall_back-eq [] r = refl
fall_back-eq (e ∷ es) r = ground (arith, fall_back-eq es r)

-- The condition node takes the first labelled edge that agrees with the test; where there is none,
-- the first "*" edge, or else the last unlabelled one; where there is none either, the first "no"
-- or "false" edge; and where there is none of these, no edge.
pub route_condition-eq-priority :
    (holds : Bool) (es : List Edge)
    → route_condition holds es
      ≡ to_first
          (first_edge (is_match holds) es)
          (to_first (default_edge es) (to_first (first_edge is_fallback es) no_route))
unfolding route_condition
route_condition-eq-priority holds es =
    ground (arith, match_edges-eq holds es no_route, fall_back-eq es no_route)

abbrev pub AllBlank : List Edge → Type 0
AllBlank = All (λ e. (e.label == "") ≡ true)

blank_not_star : (s : String) → (s == "") ≡ true → (s == "*") ≡ false
blank_not_star s h = rw ((eq_iff s "").0 h)

first_edge_blank :
    (holds : Bool) (es : List Edge) → AllBlank es → first_edge (is_match holds) es ≡ none
first_edge_blank holds [] b = refl
first_edge_blank holds (e ∷ es) b =
    rw (blank_not_star e.label b.0, b.0) (first_edge_blank holds es b.1)

default_edge_blank :
    (es : List Edge) (e : Edge) → AllBlank (es ++ e ∷ []) → default_edge (es ++ e ∷ []) ≡ some e
default_edge_blank [] e b = rw (blank_not_star e.label b.0, b.0)
default_edge_blank (d ∷ es) e b = rw (blank_not_star d.label b.0, b.0, default_edge_blank es e b.1)

-- Where all edges of a condition node are unlabelled, the last one is taken, whatever the test says.
pub route_condition-AllBlank :
    (holds : Bool) (es : List Edge) (e : Edge)
    → AllBlank (es ++ e ∷ [])
    → (route_condition holds (es ++ e ∷ [])).next ≡ some e.target
route_condition-AllBlank holds es e b = rw (
  route_condition-eq-priority holds (es ++ e ∷ []),
  first_edge_blank holds (es ++ e ∷ []) b,
  default_edge_blank es e b,
)

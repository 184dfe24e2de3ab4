-- ===== src/Workflow/Condition.antt =====
-- The "condition" case of `walkBranch` (services/api/internal/api/handler/invoke.go): which edge the
-- node takes.
pub mod Routing
use Prim.Native.String.{String}
use text.Mathlib.Text.{◌==◌}
use agent_nexus.Prelude.{
  ℕ, Bool, true, false, ◌&&◌, ◌||◌, List, [], ◌∷◌, Option, none, some, if◌then◌else◌, is_some,
}
use agent_nexus.Workflow.Graph.{Edge}

-- `a == b` on Booleans
abbrev pub same : Bool → Bool → Bool
same true b = b
same false true = false
same false false = true

abbrev pub is_default : Edge → Bool
is_default e = e.label == "*" || e.label == ""

abbrev pub is_yes : Edge → Bool
is_yes e = e.label == "yes" || e.label == "true"

abbrev pub is_fallback : Edge → Bool
is_fallback e = e.label == "no" || e.label == "false" || e.label == "" || e.label == "*"

-- `matched` and `nextID`; `next` is `none` where `nextID` is the empty string
pub record Route : Type 0 where
  pub matched : String
  pub next : Option ℕ

-- The first loop, where `holds` is `evaluateExpression(expression, lastOutput)`.
unfoldable pub match_edges : Bool → List Edge → Route → Route
match_edges holds [] r = r
match_edges holds (e ∷ es) r =
    let later = match_edges holds es (
      if is_default e && r.matched == ""
      then record { matched = e.label; next = some e.target }
      else r) in
    if is_default e
    then later
    else if same holds (is_yes e)
    then record { matched = e.label; next = some e.target }
    else later

-- The second loop.
unfoldable pub fall_back : List Edge → Route → Route
fall_back [] r = r
fall_back (e ∷ es) r =
    if is_fallback e then record { matched = e.label; next = some e.target } else fall_back es r

unfoldable pub route_condition : Bool → List Edge → Route
unfolding match_edges fall_back
route_condition holds es =
    let r = match_edges holds es (record { matched = ""; next = none }) in
    if is_some r.next then r else fall_back es r

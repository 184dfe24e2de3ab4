-- ===== src/Workflow/Expression/Meaning.antt =====
-- The expressions of condition and loop nodes against infixes, prefixes and suffixes:
-- `evaluateExpression` of services/api/internal/api/handler/invoke.go.
use agent_nexus.Prelude.{◌≡◌, refl, ◌↔◌, Bool, true, false, not, ◌++◌}
use agent_nexus.Prelude.Text.{Text, codes}
use agent_nexus.Prelude.Text.Laws.{IsInfix, has_prefix_iff, has_suffix_iff, contains_iff}
use agent_nexus.Workflow.Expression.{fold_case, evaluate_expression}

not-eq-true_iff : (b : Bool) → (not b ≡ true) ↔ (b ≡ false)
not-eq-true_iff true = (λ e. cc, λ e. cc)
not-eq-true_iff false = (λ e. refl, λ e. refl)

-- With trimmed and lower-cased operand and output, a `contains:` expression holds exactly when the
-- operand stands somewhere in the output, and `not_contains:` is its negation.
pub evaluate_expression-contains :
    (s output : Text)
    → ((evaluate_expression (codes "contains:" ++ s) output ≡ true)
        ↔ IsInfix (fold_case s) (fold_case output))
      × (evaluate_expression (codes "not_contains:" ++ s) output
          ≡ not (evaluate_expression (codes "contains:" ++ s) output))
unfolding evaluate_expression
evaluate_expression-contains s output = (contains_iff (fold_case output) (fold_case s), refl)

-- A `startswith:` expression holds exactly when the output is the operand and a rest, and an
-- `endswith:` expression exactly when it is a text and the operand, both trimmed and lower-cased.
pub evaluate_expression-ends :
    (s output : Text)
    → ((evaluate_expression (codes "startswith:" ++ s) output ≡ true)
        ↔ ((t : Text) × (fold_case s ++ t ≡ fold_case output)))
      × ((evaluate_expression (codes "endswith:" ++ s) output ≡ true)
          ↔ ((t : Text) × (t ++ fold_case s ≡ fold_case output)))
unfolding evaluate_expression
evaluate_expression-ends s output = (
  has_prefix_iff (fold_case output) (fold_case s),
  has_suffix_iff (fold_case output) (fold_case s),
)

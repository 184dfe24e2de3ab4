-- ===== src/Workflow/Expression.antt =====
-- `evaluateExpression` and `sanitizeToolName` of services/api/internal/api/handler/invoke.go.
pub mod Meaning
pub mod ToolName
use agent_nexus.Prelude.{
  ℕ, Bool, true, false, not, ◌&&◌, ◌||◌, List, [], ◌∷◌, ◌++◌, length, leb, ltb, ◌==◌, take, drop,
  if◌then◌else◌,
}
use agent_nexus.Prelude.Text.{
  Text, codes, text_eq, is_blank, has_prefix, has_suffix, contains, to_lower, trim_space,
}

-- `output = strings.ToLower(strings.TrimSpace(output))`, and the same of the operand
unfoldable pub fold_case : Text → Text
fold_case s = to_lower (trim_space s)

unfoldable pub evaluate_expression : Text → Text → Bool
evaluate_expression expression output =
    let out = fold_case output in
    if text_eq expression (codes "*") || is_blank expression
    then true
    else if has_prefix expression (codes "contains:")
    then contains out (fold_case (drop 9 expression))
    else if has_prefix expression (codes "not_contains:")
    then not (contains out (fold_case (drop 13 expression)))
    else if has_prefix expression (codes "startswith:")
    then has_prefix out (fold_case (drop 11 expression))
    else if has_prefix expression (codes "endswith:")
    then has_suffix out (fold_case (drop 9 expression))
    else true

-- The loop of `sanitizeToolName` over the lower-cased name.
unfoldable pub keep_char : ℕ → Text
keep_char r =
    if (leb b'a' r && leb r b'z') || (leb b'0' r && leb r b'9') || r == b'_'
    then r ∷ []
    else if r == b' ' || r == b'-' || r == b'.'
    then b'_' ∷ []
    else []

unfoldable pub sanitize_chars : Text → Text
unfolding keep_char
sanitize_chars [] = []
sanitize_chars (r ∷ s) = keep_char r ++ sanitize_chars s

unfoldable pub sanitize_tool_name : Text → Text
sanitize_tool_name name =
    let s = sanitize_chars (to_lower name) in
    let cut = if ltb 50 (length s) then take 50 s else s in
    if is_blank cut then codes "agent" else cut

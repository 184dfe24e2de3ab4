-- ===== src/Workflow/Expression/ToolName.antt =====
-- The names of delegate tools: `sanitizeToolName` of
-- services/api/internal/api/handler/invoke.go.
use agent_nexus.Prelude.{
  ℕ, zero, suc, ◌≤◌, ◌≡◌, refl, inl, inr, Bool, true, ◌&&◌, ◌||◌, [], ◌∷◌, arith, leb, ltb, ◌==◌,
  length, take, All, All-append, Bool-cases, if◌then◌else◌,
}
use agent_nexus.Prelude.Text.{Text, codes, is_blank, to_lower}
use agent_nexus.Workflow.Expression.{keep_char, sanitize_chars, sanitize_tool_name}

-- a lower-case letter, a digit or an underscore
abbrev pub is_tool_char : ℕ → Bool
is_tool_char c = (leb b'a' c && leb c b'z') || (leb b'0' c && leb c b'9') || c == b'_'

abbrev pub IsToolChar : ℕ → Type 0
IsToolChar c = is_tool_char c ≡ true

keep_char-IsToolChar : (r : ℕ) → All IsToolChar (keep_char r)
unfolding keep_char
keep_char-IsToolChar r = ground arith

sanitize_chars-IsToolChar : (s : Text) → All IsToolChar (sanitize_chars s)
unfolding sanitize_chars
sanitize_chars-IsToolChar [] = tt
sanitize_chars-IsToolChar (r ∷ s) =
    All-append IsToolChar (keep_char r) (sanitize_chars s) (keep_char-IsToolChar r)
      (sanitize_chars-IsToolChar s)

All-take : (n : ℕ) (s : Text) → All IsToolChar s → All IsToolChar (take n s)
All-take zero s h = tt
All-take (suc n) [] h = tt
All-take (suc n) (c ∷ s) h = (h.0, All-take n s h.1)

length-take-le : (n : ℕ) (s : Text) → length (take n s) ≤ n
length-take-le zero s = omega arith
length-take-le (suc n) [] = omega arith
length-take-le (suc n) (c ∷ s) = omega (arith, length-take-le n s)

abbrev IsToolName : Text → Type 0
IsToolName s = All IsToolChar s × (1 ≤ length s) × (length s ≤ 50)

-- the last step, "agent" for an empty name
or_agent :
    (s : Text)
    → All IsToolChar s
    → length s ≤ 50
    → IsToolName (if is_blank s then codes "agent" else s)
or_agent [] a h = ((refl, (refl, (refl, (refl, (refl, tt))))), omega arith, omega arith)
or_agent (c ∷ s) a h = (a, omega arith, h)

-- Whatever the agent is called, its delegate tool's name holds only lower-case letters, digits and
-- underscores, and has from 1 to 50 of them.
pub sanitize_tool_name-IsToolChar :
    (name : Text)
    → All IsToolChar (sanitize_tool_name name)
      × (1 ≤ length (sanitize_tool_name name))
      × (length (sanitize_tool_name name) ≤ 50)
unfolding sanitize_tool_name
sanitize_tool_name-IsToolChar name =
    let s = sanitize_chars (to_lower name) in
    let a = sanitize_chars-IsToolChar (to_lower name) in
    elim (Bool-cases (ltb 50 (length s))) [
      | inl long ↦ rw long (or_agent (take 50 s) (All-take 50 s a) (length-take-le 50 s))
      | inr short ↦ rw short (or_agent s a (ground arith))
    ]

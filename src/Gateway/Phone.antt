-- ===== src/Gateway/Phone.antt =====
-- Phone numbers, JIDs and aliases of contacts (services/api/internal/api/handler/gateway.go,
-- services/api/internal/gateway/service.go and services/api/internal/repository/gateway.go).
pub mod Forms
use agent_nexus.Prelude.{
  ℕ, Bool, true, false, not, ◌&&◌, ◌||◌, [], ◌∷◌, ◌++◌, leb, ◌==◌, if◌then◌else◌, length,
}
use agent_nexus.Prelude.Text.{Text, codes, is_blank, to_lower, trim_space, has_prefix}
use agent_nexus.Prelude.Strings.{is_digit, is_alnum, replace_runs, trim_of, trim_prefix}

-- the empty text, or a plus sign when the text begins with one
abbrev pub plus_prefix : Text → Text
plus_prefix s = if has_prefix s (codes "+") then codes "+" else []

abbrev pub is_non_digit : ℕ → Bool
is_non_digit c = not (is_digit c)

unfoldable pub normalize_gateway_phone : Text → Text
normalize_gateway_phone raw =
    let s = trim_space raw in
    if is_blank s then [] else plus_prefix s ++ replace_runs is_non_digit [] false s

-- the loop that writes the digits into a builder, which both copies of `normalizePhone` have
abbrev pub write_digits : Text → Text → Text
write_digits [] b = b
write_digits (c ∷ s) b = write_digits s (if leb b'0' c && leb c b'9' then b ++ (c ∷ []) else b)

unfoldable pub normalize_phone : Text → Text
normalize_phone raw =
    let s = trim_space raw in if is_blank s then [] else write_digits s (plus_prefix s)

abbrev pub whatsapp_domain : Text
whatsapp_domain = codes "@s.whatsapp.net"

unfoldable pub jid_from_phone : Text → Text
jid_from_phone phone =
    let p = trim_prefix (normalize_gateway_phone phone) (codes "+") in
    if is_blank p then [] else p ++ whatsapp_domain

unfoldable pub phone_to_jid : Text → Text
phone_to_jid phone =
    let p = trim_prefix (normalize_phone phone) (codes "+") in
    if is_blank p then [] else p ++ whatsapp_domain

unfoldable pub looks_like_gateway_phone : Text → Bool
looks_like_gateway_phone s = leb 8 (length (trim_prefix (normalize_gateway_phone s) (codes "+")))

unfoldable pub alias_from_name : Text → Text
alias_from_name name =
    trim_of (λ c. c == b'-')
      (replace_runs (λ c. not (is_alnum c)) (codes "-") false (to_lower (trim_space name)))

abbrev pub default_string : Text → Text → Text
default_string v fallback = if is_blank (trim_space v) then fallback else v

-- ===== src/Gateway/Owner.antt =====
-- What the owner of a channel types: the natural commands with their targets, and the numbers in them
-- (services/api/internal/api/handler/gateway.go).
pub mod Intents
pub mod Targets
use agent_nexus.Prelude.{
  ℕ, zero, suc, ◌+◌, ◌-◌, Bool, true, false, not, ◌&&◌, ◌||◌, Option, none, some, List, [], ◌∷◌,
  ◌++◌, leb, ◌==◌, if◌then◌else◌, length, take, drop,
}
use agent_nexus.Prelude.Text.{Text, codes, is_blank, to_lower, trim_space, has_prefix, join}
use agent_nexus.Prelude.Strings.{is_digit, trim_of, fields, split_at_first, contains_any}
use agent_nexus.Gateway.Phone.{normalize_gateway_phone, looks_like_gateway_phone}

pub data Intent : Type 0 where
  enable_bot_mode disable_bot_mode start_assistant stop_assistant : Intent
  start_contact stop_contact : Text → Intent

-- The cut set of `strings.Trim`.
abbrev pub is_mark : ℕ → Bool
is_mark c = c == b'.' || c == b',' || c == b';' || c == b':'

abbrev is_mark_or_dash : ℕ → Bool
is_mark_or_dash c = is_mark c || c == b'-'

-- The class of the expression for phone numbers: digits, \s, parentheses, dot and dash.
abbrev is_phone_char : ℕ → Bool
is_phone_char c =
    is_digit c
    || c == 32
    || c == 9
    || c == 10
    || c == 12
    || c == 13
    || c == b'('
    || c == b')'
    || c == b'.'
    || c == b'-'

-- How long the longest prefix is that stays in the class and ends with a digit.
abbrev phone_tail : Text → ℕ → ℕ → ℕ
phone_tail [] at_char best = best
phone_tail (c ∷ s) at_char best =
    let in_class = phone_tail s (at_char + 1) best in
    let at_digit = phone_tail s (at_char + 1) (at_char + 1) in
    if is_digit c then at_digit else if is_phone_char c then in_class else best

-- the length of the match at the start of a text, without its sign; 0 is no match
abbrev digits_match : Text → ℕ
digits_match [] = 0
digits_match (c ∷ s) = let n = phone_tail s 0 0 in if is_digit c && leb 8 n then n + 1 else 0

abbrev phone_match : Text → ℕ
phone_match [] = 0
phone_match (c ∷ s) =
    if c == b'+'
    then (let n = digits_match s in if n == 0 then 0 else n + 1)
    else digits_match (c ∷ s)

-- `phoneInText.FindString`
unfoldable pub find_phone : Text → Text
find_phone [] = []
find_phone (c ∷ s) =
    let later = find_phone s in
    let n = phone_match (c ∷ s) in if n == 0 then later else take n (c ∷ s)

-- strings.Replace(s, sub, "", 1)
abbrev remove_first : Text → Text → Text
remove_first sub s = elim (split_at_first sub s) [
  | none ↦ s
  | some (before, after) ↦ before ++ after
]

unfoldable pub extract_name_phone : Text → Text × Text
extract_name_phone raw =
    let found = find_phone raw in
    let phone = normalize_gateway_phone found in
    if is_blank found
    then (trim_space raw, [])
    else if not (looks_like_gateway_phone phone)
    then (trim_space raw, [])
    else (trim_of is_mark_or_dash (trim_space (trim_space (remove_first found raw))), phone)

-- the fields around the first one that reads as a number, and that number
abbrev split_phone_field : List Text → Option (List Text × Text)
split_phone_field [] = none
split_phone_field (f ∷ fs) =
    let later = split_phone_field fs in
    let number = normalize_gateway_phone f in
    if looks_like_gateway_phone number
    then some (fs, number)
    else elim later [ none ↦ none | some (rest, phone) ↦ some (f ∷ rest, phone) ]

unfoldable pub split_contact_name_phone : Text → Text × Text
split_contact_name_phone s =
    let (name, phone) = extract_name_phone s in
    if not (is_blank phone) then (name, phone) else elim (split_phone_field (fields s)) [
      | none ↦ (trim_space s, [])
      | some (names, number) ↦ (trim_space (join names (codes " ")), number)
    ]

abbrev first_pair : List (Text × Text) → Text → Option (Text × Text)
first_pair [] s = none
first_pair ((from, to) ∷ ps) s = if has_prefix s from then some (from, to) else first_pair ps s

-- strings.NewReplacer; the number of characters of the last match that are still to be passed over
abbrev replace_pairs : List (Text × Text) → ℕ → Text → Text
replace_pairs ps skip [] = []
replace_pairs ps (suc skip) (c ∷ s) = replace_pairs ps skip s
replace_pairs ps zero (c ∷ s) =
    let plain = replace_pairs ps zero s in
    elim (first_pair ps (c ∷ s)) [
      | none ↦ c ∷ plain
      | some (from, to) ↦ to ++ replace_pairs ps (length from - 1) s
    ]

unfoldable pub normalize_reply_phrase : Text → Text
normalize_reply_phrase body = replace_pairs ((codes "replies", codes "reply") ∷ []) 0 (
    replace_pairs
      ((codes "auto-repl", codes "auto repl") ∷ (codes "autorepl", codes "auto repl") ∷ []) 0 body)

-- one round of the loop over `replacements`: the place is found in the lower-case copy
abbrev replace_found : Text → Text → Text → Text
replace_found from to s = elim (split_at_first from (to_lower s)) [
  | none ↦ s
  | some (before, after) ↦ take (length before) s ++ (to ++ drop (length before + length from) s)
]

abbrev pub replace_each : List (Text × Text) → Text → Text
replace_each [] s = s
replace_each ((from, to) ∷ ps) s = replace_each ps (replace_found from to s)

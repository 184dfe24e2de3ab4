-- ===== src/Prelude/Strings.antt =====
-- More of Go's `strings` and `regexp` packages on lists of bytes: runs that a pattern such as `\D+`
-- matches, cut sets, prefixes, fields and replacement.
pub mod Runs
use Prim.Native.Nat.{ℕ, zero, suc, ◌+◌, ◌-◌}
use mathlib.Core.Bool.{Bool, true, false, ◌&&◌, ◌||◌}
use mathlib.Core.Option.{Option, none, some}
use mathlib.Core.List.{List, [], ◌∷◌, ◌++◌, reverse}
use agent_nexus.Prelude.Tests.{leb, ◌==◌, if◌then◌else◌}
use agent_nexus.Prelude.Lists.{take, drop, length}
use agent_nexus.Prelude.Text.{Text, is_blank, is_space, has_prefix, has_suffix, contains}

-- the class \d
abbrev pub is_digit : ℕ → Bool
is_digit c = leb b'0' c && leb c b'9'

-- the class [a-z0-9]
abbrev pub is_alnum : ℕ → Bool
is_alnum c = (leb b'a' c && leb c b'z') || is_digit c

-- `ReplaceAllString` of the maximal runs of characters of a class; the Boolean says that a run is open.
abbrev pub replace_runs : (ℕ → Bool) → Text → Bool → Text → Text
replace_runs p by open_run [] = []
replace_runs p by open_run (c ∷ s) =
    let inside = replace_runs p by true s in
    let outside = replace_runs p by false s in
    if p c then (if open_run then inside else by ++ inside) else c ∷ outside

-- strings.TrimLeft with the cut set as a test
abbrev pub trim_left_of : (ℕ → Bool) → Text → Text
trim_left_of p [] = []
trim_left_of p (c ∷ s) = let rest = trim_left_of p s in if p c then rest else c ∷ s

-- strings.Trim
abbrev pub trim_of : (ℕ → Bool) → Text → Text
trim_of p s = reverse (trim_left_of p (reverse (trim_left_of p s)))

-- strings.TrimPrefix
abbrev pub trim_prefix : Text → Text → Text
trim_prefix s p = if has_prefix s p then drop (length p) s else s

-- strings.TrimSuffix
abbrev pub trim_suffix : Text → Text → Text
trim_suffix s p = if has_suffix s p then take (length s - length p) s else s

-- strings.Fields: the maximal runs without spaces; the second text is the field that is being read.
abbrev pub fields_from : Text → Text → List Text
fields_from [] word = if is_blank word then [] else word ∷ []
fields_from (c ∷ s) word =
    let after = fields_from s [] in
    let within = fields_from s (word ++ (c ∷ [])) in
    if is_space c then (if is_blank word then after else word ∷ after) else within

abbrev pub fields : Text → List Text
fields s = fields_from s []

-- The text before and after the first occurrence, as strings.Index finds it.
abbrev pub split_at_first : Text → Text → Option (Text × Text)
split_at_first sub [] = if has_prefix [] sub then some ([], []) else none
split_at_first sub (c ∷ s) =
    let later = split_at_first sub s in
    if has_prefix (c ∷ s) sub
    then some ([], drop (length sub) (c ∷ s))
    else elim later [ none ↦ none | some (before, after) ↦ some (c ∷ before, after) ]

-- The contains-any test of several needles.
abbrev pub contains_any : Text → List Text → Bool
contains_any s [] = false
contains_any s (n ∷ ns) = contains s n || contains_any s ns

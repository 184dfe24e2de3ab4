-- ===== src/Prelude/Text/Laws.antt =====
-- The text functions against prefixes, suffixes and infixes as concatenations.

use mathlib.Core.Path.{◌≡◌, refl, sym, ap, ◌∙◌}
use mathlib.Core.Logic.{◌↔◌, inl, inr}
use mathlib.Core.Bool.{true}
use mathlib.Core.List.{[], ◌∷◌, ◌++◌, reverse, reverse-append, reverse-reverse}
use native.Mathlib.Omega.{arith}
use agent_nexus.Prelude.Tests.{Bool-cases}
use agent_nexus.Prelude.Text.{Text, text_eq, has_prefix, has_suffix, contains}

pub text_eq_refl : (s : Text) → text_eq s s ≡ true
text_eq_refl [] = refl
text_eq_refl (c ∷ s) = ground (arith, text_eq_refl s)

pub text_eq_sound : (s t : Text) → text_eq s t ≡ true → s ≡ t
text_eq_sound [] [] h = refl
text_eq_sound [] (d ∷ t) h = cc
text_eq_sound (c ∷ s) [] h = cc
text_eq_sound (c ∷ s) (d ∷ t) h = ground (arith, text_eq_sound s t)

pub text_eq_iff : (s t : Text) → (text_eq s t ≡ true) ↔ (s ≡ t)
text_eq_iff s t = (text_eq_sound s t, λ e. rw e (text_eq_refl t))

pub has_prefix-append : (p t : Text) → has_prefix (p ++ t) p ≡ true
has_prefix-append [] t = refl
has_prefix-append (c ∷ p) t = ground (arith, has_prefix-append p t)

has_prefix_split : (s p : Text) → has_prefix s p ≡ true → (t : Text) × (p ++ t ≡ s)
has_prefix_split s [] h = (s, refl)
has_prefix_split [] (c ∷ p) h = cc
has_prefix_split (d ∷ s) (c ∷ p) h =
    let (t, e) = has_prefix_split s p (ground arith) in (t, ground arith)

pub has_prefix_iff : (s p : Text) → (has_prefix s p ≡ true) ↔ ((t : Text) × (p ++ t ≡ s))
has_prefix_iff s p = (has_prefix_split s p, λ (t, e). rw (← e) (has_prefix-append p t))

has_suffix_split : (s p : Text) → has_suffix s p ≡ true → (t : Text) × (t ++ p ≡ s)
has_suffix_split s p h =
    let (t, e) = has_prefix_split (reverse s) (reverse p) h in
    (
      reverse t,
      ap (λ q. reverse t ++ q) (sym (reverse-reverse p))
          ∙ sym (reverse-append (reverse p) t)
          ∙ ap reverse e
          ∙ reverse-reverse s,
    )

pub has_suffix_iff : (s p : Text) → (has_suffix s p ≡ true) ↔ ((t : Text) × (t ++ p ≡ s))
has_suffix_iff s p = (
  has_suffix_split s p,
  λ (t, e). rw (← e, reverse-append t p) (has_prefix-append (reverse p) (reverse t)),
)

-- `s` is `before`, then `sub`, then `after`.
abbrev pub IsInfix : Text → Text → Type 0
IsInfix sub s = (before : Text) × (after : Text) × (before ++ (sub ++ after) ≡ s)

contains_split : (s sub : Text) → contains s sub ≡ true → IsInfix sub s
contains_split [] sub h = let (t, e) = has_prefix_split [] sub h in ([], t, e)
contains_split (c ∷ s) sub h = elim (Bool-cases (has_prefix (c ∷ s) sub)) [
  | inl here ↦ let (t, e) = has_prefix_split (c ∷ s) sub here in ([], t, e)
  | inr later ↦ let (b, a, e) = contains_split s sub (ground arith) in (c ∷ b, a, ap (λ r. c ∷ r) e)
]

contains_of_prefix : (s sub : Text) → has_prefix s sub ≡ true → contains s sub ≡ true
contains_of_prefix [] sub h = h
contains_of_prefix (c ∷ s) sub h = rw h

pub contains-append : (b sub a : Text) → contains (b ++ (sub ++ a)) sub ≡ true
contains-append [] sub a = contains_of_prefix (sub ++ a) sub (has_prefix-append sub a)
contains-append (c ∷ b) sub a = ground (arith, contains-append b sub a)

pub contains_iff : (s sub : Text) → (contains s sub ≡ true) ↔ IsInfix sub s
contains_iff s sub = (contains_split s sub, λ (b, a, e). rw (← e) (contains-append b sub a))

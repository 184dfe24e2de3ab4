-- ===== src/Gateway/Owner/Targets.antt =====
-- The loop that strips the verbs of a command, and phrases within phrases
-- (services/api/internal/api/handler/gateway.go).
use agent_nexus.Prelude.{
  ℕ, zero, suc, ◌≤◌, ◌<◌, ◌≡◌, refl, sym, ap, ◌∙◌, inl, inr, true, false, none, some, List, [], ◌∷◌,
  ◌++◌, reverse, arith, length, drop, All, Bool-cases, Option-cases, length-append,
}
use mathlib.Core.List.{append_assoc, reverse-cons}
use agent_nexus.Prelude.Text.{
  Text, codes, is_blank, to_lower, trim_left, trim_space, has_prefix, contains,
}
use agent_nexus.Prelude.Text.Laws.{contains_iff}
use agent_nexus.Prelude.Strings.{contains_any}
use agent_nexus.Gateway.Owner.{Intent}
use agent_nexus.Gateway.Owner.Intents.{
  leading_verb, strip_round, strip_verbs, enable_bot_phrases, intent_of,
  parse_owner_natural_command,
}

length-reverse : (s : Text) → length (reverse s) ≡ length s
length-reverse [] = refl
length-reverse (c ∷ s) =
    omega
      (arith, ap length (reverse-cons c s), length-append (reverse s) (c ∷ []), length-reverse s)

length-trim_left : (s : Text) → length (trim_left s) ≤ length s
unfolding trim_left
length-trim_left [] = omega arith
length-trim_left (c ∷ s) = ground (arith, length-trim_left s)

length-trim_space : (s : Text) → length (trim_space s) ≤ length s
unfolding trim_space
length-trim_space s = omega (
  arith,
  length-reverse (trim_left (reverse (trim_left s))),
  length-trim_left (reverse (trim_left s)),
  length-reverse (trim_left s),
  length-trim_left s,
)

length-drop : (n : ℕ) (s : Text) → 0 < n → 0 < length s → length (drop n s) < length s
length-drop zero s h g = omega arith
length-drop (suc n) [] h g = omega arith
length-drop (suc zero) (c ∷ s) h g = omega arith
length-drop (suc (suc n)) (c ∷ []) h g = omega arith
length-drop (suc (suc n)) (c ∷ d ∷ s) h g =
    omega (arith, length-drop (suc n) (d ∷ s) (omega arith) (omega arith))

has_prefix-length : (s p : Text) → has_prefix s p ≡ true → length p ≤ length s
has_prefix-length s [] h = omega arith
has_prefix-length [] (c ∷ p) h = ground arith
has_prefix-length (d ∷ s) (c ∷ p) h = ground (arith, has_prefix-length s p)

length-to_lower : (s : Text) → length (to_lower s) ≡ length s
unfolding to_lower
length-to_lower [] = refl
length-to_lower (c ∷ s) = omega (arith, length-to_lower s)

abbrev AllFull : List Text → Type 0
AllFull = All (λ v. 0 < length v)

leading_verb-prefix :
    (vs : List Text) (lower v : Text)
    → AllFull vs
    → leading_verb vs lower ≡ some v
    → (has_prefix lower v ≡ true) × (0 < length v)
leading_verb-prefix [] lower v h e = ground arith
leading_verb-prefix (w ∷ vs) lower v h e = elim (Bool-cases (has_prefix lower w)) [
  | inl f ↦ ground arith
  | inr f ↦ leading_verb-prefix vs lower v h.1 (ground arith)
]

strip_round-shorter :
    (vs : List Text) (s t : Text) → AllFull vs → strip_round vs s ≡ some t → length t < length s
strip_round-shorter vs s t h e = elim (Option-cases (leading_verb vs (to_lower s))) [
  | inl f ↦ ground arith
  | inr (v, f) ↦
      let (p, full) = leading_verb-prefix vs (to_lower s) v h f in
      ground (
        arith,
        f,
        e,
        length-trim_space (drop (length v) s),
        length-drop (length v) s full
            (omega (arith, full, has_prefix-length (to_lower s) v p, length-to_lower s)),
      )
]

strip_round_empty : (vs : List Text) → AllFull vs → strip_round vs [] ≡ none
strip_round_empty vs h = elim (Option-cases (strip_round vs [])) [
  | inl e ↦ e
  | inr (t, e) ↦ absurd (omega (arith, strip_round-shorter vs [] t h e))
]

strip_verbs-none :
    (vs : List Text) (n : ℕ) (s : Text) → strip_round vs s ≡ none → strip_verbs vs (suc n) s ≡ s
unfolding strip_verbs
strip_verbs-none vs n s e = ap (λ r. elim r [ none ↦ s | some t ↦ strip_verbs vs n t ]) e

strip_verbs-some :
    (vs : List Text) (n : ℕ) (s t : Text)
    → strip_round vs s ≡ some t
    → strip_verbs vs (suc n) s ≡ strip_verbs vs n t
unfolding strip_verbs
strip_verbs-some vs n s t e = ap (λ r. elim r [ none ↦ s | some t ↦ strip_verbs vs n t ]) e

-- The loop that strips leading verbs ends with a text that begins with none of them, as soon as its
-- fuel is the length of the text: when no verb is empty.
pub strip_verbs_enough :
    (vs : List Text) (n : ℕ) (s : Text)
    → AllFull vs
    → length s ≤ n
    → strip_round vs (strip_verbs vs n s) ≡ none
unfolding strip_verbs
strip_verbs_enough vs zero [] h le = strip_round_empty vs h
strip_verbs_enough vs zero (c ∷ s) h le = absurd (omega arith)
strip_verbs_enough vs (suc n) s h le = elim (Option-cases (strip_round vs s)) [
  | inl e ↦ ap (strip_round vs) (strip_verbs-none vs n s e) ∙ e
  | inr (t, e) ↦
      ap (strip_round vs) (strip_verbs-some vs n s t e)
      ∙ strip_verbs_enough vs n t h (omega (arith, strip_round-shorter vs s t h e))
]

contains-inner : (s p t q : Text) → contains s (p ++ (t ++ q)) ≡ true → contains s t ≡ true
contains-inner s p t q h =
    let (b, a, e) = (contains_iff s (p ++ (t ++ q))).0 h in
    (contains_iff s t).1 (
      b ++ p,
      q ++ a,
      append_assoc b p (t ++ (q ++ a))
          ∙ ap (λ r. b ++ r)
              (ap (λ r. p ++ r) (sym (append_assoc t q a)) ∙ sym (append_assoc p (t ++ q) a))
          ∙ e,
    )

abbrev pub unmark_phrases : List Text
unmark_phrases = codes "unmark channel as bot" ∷ codes "unmark this channel as bot" ∷ []

unmark-enable :
    (s : Text) → contains_any s unmark_phrases ≡ true → contains_any s enable_bot_phrases ≡ true
unmark-enable s h = ground (
  arith,
  contains-inner s (codes "un") (codes "mark channel as bot") [],
  contains-inner s (codes "un") (codes "mark this channel as bot") [],
)

contains_any-full : (s : Text) → contains_any s unmark_phrases ≡ true → is_blank s ≡ false
contains_any-full [] h = ground arith
contains_any-full (c ∷ s) h = refl

-- A text that asks to unmark the channel as a bot, in either wording and with anything around it, is
-- read as the command that turns bot mode on.
pub parse_owner_natural_command-unmark :
    (raw : Text)
    → contains_any (to_lower (trim_space raw)) unmark_phrases ≡ true
    → parse_owner_natural_command raw ≡ some Intent.enable_bot_mode
unfolding parse_owner_natural_command intent_of
parse_owner_natural_command-unmark raw h =
    rw
      (contains_any-full (to_lower (trim_space raw)) h, unmark-enable (to_lower (trim_space raw)) h)
      refl

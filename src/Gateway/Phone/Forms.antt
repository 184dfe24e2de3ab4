-- ===== src/Gateway/Phone/Forms.antt =====
-- The forms of a phone number: normalised, as a JID, and read back
-- (services/api/internal/api/handler/gateway.go, services/api/internal/gateway/service.go and
-- services/api/internal/repository/gateway.go).
use agent_nexus.Prelude.{
  ℕ, ◌≡◌, refl, sym, ap, ◌∙◌, ◌⊎◌, inl, inr, true, false, not, [], ◌∷◌, ◌++◌, arith, if◌then◌else◌,
  All, All-append, Bool-cases, keep,
}
use mathlib.Core.List.{append_assoc, append-nil}
use agent_nexus.Prelude.Text.{Text, codes, is_blank, is_space, trim_space, has_prefix}
use agent_nexus.Prelude.Strings.{is_digit, replace_runs, trim_prefix}
use agent_nexus.Prelude.Strings.Runs.{
  replace_runs-keep, All-keep, keep-All, keep-append, All-map, IsSpaceless, trim_space-IsSpaceless,
  is_digit-is_space,
}
use agent_nexus.Gateway.Phone.{
  is_non_digit, plus_prefix, normalize_gateway_phone, write_digits, normalize_phone,
  whatsapp_domain, jid_from_phone, phone_to_jid,
}

keep-not-not : (s : Text) → keep (λ c. not (is_non_digit c)) s ≡ keep is_digit s
keep-not-not [] = refl
keep-not-not (c ∷ s) = ground (arith, keep-not-not s)

normalize_trimmed :
    (t : Text)
    → (if is_blank t then [] else plus_prefix t ++ replace_runs is_non_digit [] false t)
      ≡ plus_prefix t ++ keep is_digit t
normalize_trimmed [] = refl
normalize_trimmed (c ∷ t) =
    ap (λ r. plus_prefix (c ∷ t) ++ r)
      (replace_runs-keep is_non_digit false (c ∷ t) ∙ keep-not-not (c ∷ t))

normalize_gateway_phone-eq :
    (s : Text)
    → normalize_gateway_phone s ≡ plus_prefix (trim_space s) ++ keep is_digit (trim_space s)
unfolding normalize_gateway_phone
normalize_gateway_phone-eq s = normalize_trimmed (trim_space s)

write_digits-keep : (s b : Text) → write_digits s b ≡ b ++ keep is_digit s
write_digits-keep [] b = sym (append-nil b)
write_digits-keep (c ∷ s) b = ground (
  arith,
  write_digits-keep s b,
  write_digits-keep s (b ++ (c ∷ [])),
  append_assoc b (c ∷ []) (keep is_digit s),
)

normalize_phone_trimmed :
    (t : Text)
    → (if is_blank t then [] else write_digits t (plus_prefix t)) ≡ plus_prefix t ++ keep is_digit t
normalize_phone_trimmed [] = refl
normalize_phone_trimmed (c ∷ t) = write_digits-keep (c ∷ t) (plus_prefix (c ∷ t))

same_number : (s : Text) → normalize_gateway_phone s ≡ normalize_phone s
unfolding normalize_phone
same_number s = normalize_gateway_phone-eq s ∙ sym (normalize_phone_trimmed (trim_space s))

-- The regular expression of the handler and the loops of the service and of the repository make the
-- same number of every text, and so the handler and the service the same JID.
pub normalize_gateway_phone-normalize_phone :
    (s : Text)
    → (normalize_gateway_phone s ≡ normalize_phone s) × (jid_from_phone s ≡ phone_to_jid s)
unfolding jid_from_phone phone_to_jid
normalize_gateway_phone-normalize_phone s = (same_number s, rw (same_number s) refl)

abbrev AllDigits : Text → Type 0
AllDigits s = All (λ c. is_digit c ≡ true) s

-- digits, after a plus or not
abbrev pub IsNumber : Text → Type 0
IsNumber s = AllDigits s ⊎ ((d : Text) × AllDigits d × (s ≡ b'+' ∷ d))

normalize-IsNumber : (s : Text) → IsNumber (normalize_gateway_phone s)
normalize-IsNumber s =
    rw (normalize_gateway_phone-eq s) (elim (Bool-cases (has_prefix (trim_space s) (codes "+"))) [
      | inl e ↦ rw e (inr (keep is_digit (trim_space s), All-keep is_digit (trim_space s), refl))
      | inr e ↦ rw e (inl (All-keep is_digit (trim_space s)))
    ])

AllDigits-IsSpaceless : (s : Text) → AllDigits s → IsSpaceless s
AllDigits-IsSpaceless s h =
    All-map (λ c. is_digit c ≡ true) (λ c. is_space c ≡ false) s is_digit-is_space h

AllDigits-no_plus : (s : Text) → AllDigits s → plus_prefix s ≡ []
AllDigits-no_plus [] h = refl
AllDigits-no_plus (c ∷ s) h = ground arith

normalize-AllDigits : (s : Text) → AllDigits s → normalize_gateway_phone s ≡ s
normalize-AllDigits s h =
    rw
      (
        normalize_gateway_phone-eq s,
        trim_space-IsSpaceless s (AllDigits-IsSpaceless s h),
        AllDigits-no_plus s h,
      )
      (keep-All is_digit s h)

normalize-plus : (d : Text) → AllDigits d → normalize_gateway_phone (b'+' ∷ d) ≡ b'+' ∷ d
unfolding is_space
normalize-plus d h =
    rw
      (
        normalize_gateway_phone-eq (b'+' ∷ d),
        trim_space-IsSpaceless (b'+' ∷ d) (refl, AllDigits-IsSpaceless d h),
      )
      (ap (◌∷◌ b'+') (keep-All is_digit d h))

-- Normalising a number twice is normalising it once.
pub normalize_gateway_phone_idempotent :
    (s : Text) → normalize_gateway_phone (normalize_gateway_phone s) ≡ normalize_gateway_phone s
normalize_gateway_phone_idempotent s = elim (normalize-IsNumber s) [
  | inl h ↦ normalize-AllDigits (normalize_gateway_phone s) h
  | inr (d, h, e) ↦ rw e (normalize-plus d h)
]

trim_prefix-AllDigits : (s : Text) → AllDigits s → trim_prefix s (codes "+") ≡ s
trim_prefix-AllDigits [] h = refl
trim_prefix-AllDigits (c ∷ s) h = ground arith

trim_prefix-IsNumber : (s : Text) → IsNumber s → AllDigits (trim_prefix s (codes "+"))
trim_prefix-IsNumber s (inl h) = rw (trim_prefix-AllDigits s h) h
trim_prefix-IsNumber s (inr (d, h, e)) = rw e h

jid_of : Text → Text
jid_of p = if is_blank p then [] else p ++ whatsapp_domain

domain-IsSpaceless : IsSpaceless whatsapp_domain
unfolding is_space
domain-IsSpaceless = ground arith

no_plus : (c : ℕ) (s : Text) → is_digit c ≡ true → plus_prefix (c ∷ s) ≡ []
no_plus c s h = ground arith

normalize-jid_of : (p : Text) → AllDigits p → normalize_gateway_phone (jid_of p) ≡ p
unfolding jid_of
normalize-jid_of [] h = normalize-AllDigits [] tt
normalize-jid_of (c ∷ p) h =
    rw
      (
        normalize_gateway_phone-eq ((c ∷ p) ++ whatsapp_domain),
        trim_space-IsSpaceless ((c ∷ p) ++ whatsapp_domain) (
            All-append (λ x. is_space x ≡ false) (c ∷ p) whatsapp_domain
              (AllDigits-IsSpaceless (c ∷ p) h) (domain-IsSpaceless)),
        no_plus c (p ++ whatsapp_domain) h.0,
        keep-append is_digit (c ∷ p) whatsapp_domain,
        keep-All is_digit (c ∷ p) h,
      )
      (append-nil (c ∷ p))

read_back :
    (s : Text)
    → normalize_gateway_phone (jid_from_phone s)
      ≡ trim_prefix (normalize_gateway_phone s) (codes "+")
unfolding jid_from_phone jid_of
read_back s =
    normalize-jid_of (trim_prefix (normalize_gateway_phone s) (codes "+"))
      (trim_prefix-IsNumber (normalize_gateway_phone s) (normalize-IsNumber s))

-- The number that is read back from the JID of a number is the number without its plus, so that the
-- JID of a JID is the JID itself.
pub normalize-jid_from_phone :
    (s : Text)
    → (normalize_gateway_phone (jid_from_phone s)
        ≡ trim_prefix (normalize_gateway_phone s) (codes "+"))
      × (jid_from_phone (jid_from_phone s) ≡ jid_from_phone s)
unfolding jid_from_phone jid_of
normalize-jid_from_phone s = (
  read_back s,
  rw
      (
        read_back s,
        trim_prefix-AllDigits (trim_prefix (normalize_gateway_phone s) (codes "+"))
            (trim_prefix-IsNumber (normalize_gateway_phone s) (normalize-IsNumber s)),
      )
      refl,
)

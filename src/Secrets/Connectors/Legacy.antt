-- ===== src/Secrets/Connectors/Legacy.antt =====
-- The encryption of old rows at the start of the server (services/api/internal/connector/secrets.go).
use agent_nexus.Prelude.{
  ◌≡◌, refl, sym, ap, ◌∙◌, inl, inr, Bool, true, false, ◌||◌, Option, none, some, List, [], ◌∷◌,
  ◌++◌, if◌then◌else◌, All, Bool-cases, arith,
}
use agent_nexus.Prelude.Text.{Text, is_blank, has_prefix}
use agent_nexus.Prelude.Fields.{get}
use agent_nexus.Secrets.{Library, is_usable, encrypt}
use agent_nexus.Secrets.Connectors.{
  Value, Raw, secret_config_keys, enc_prefix, visit_keys, rewrite, sealed_text, encrypted,
  encrypt_config_secrets, Row, configs, encrypt_rows, encrypt_legacy_configs,
}
use agent_nexus.Secrets.Connectors.Rounds.{
  is_secret, or_kept, visited, config_of, get-rewrite, visit_keys-idle,
}

-- no encryption of the row fails
abbrev pub IsReady : Row → Type 0
IsReady r = (k : Text) → (n : Text) × (r.nonces k ≡ some n)

module _ (lib : Library) (key : Text) (usable : is_usable key ≡ true) where
  encrypt-some :
      (given : Option Text) (n v : Text)
      → given ≡ some n
      → (enc : Text) × (encrypt lib key given v ≡ some enc)
  unfolding encrypt
  encrypt-some given n v e = (lib.encode (n ++ lib.seal key n v), rw (e, usable, encrypt) refl)

  module _ (first second : Text → Option Text) where
    second_time : Text → Text → Bool → Option Value
    second_time k v skipped = encrypted lib key second k (
        or_kept (if skipped then none else sealed_text (encrypt lib key (first k) v))
          (some (Value.text v)))

    -- a field that was encrypted is not encrypted again
    encrypted-again :
        (k n : Text) (x : Option Value)
        → first k ≡ some n
        → encrypted lib key second k (visited (encrypted lib key first) k x) ≡ none
    unfolding second_time
    encrypted-again k _ none e = refl
    encrypted-again k _ (some (Value.other i)) e = refl
    encrypted-again k n (some (Value.text v)) e =
        elim (Bool-cases (is_blank v || has_prefix v enc_prefix)) [
          | inl skip ↦ ap (second_time k v) skip ∙ rw (skip, encrypted) refl
          | inr go ↦
              let (enc, f) = encrypt-some (first k) n v e in
              ap (second_time k v) go
              ∙ ap (λ o. encrypted lib key second k (or_kept (sealed_text o) (some (Value.text v))))
                  f
        ]

    encrypted_twice :
        (k n : Text) (before after : Option Value)
        → is_secret k ≡ true
        → first k ≡ some n
        → after ≡ (if is_secret k then visited (encrypted lib key first) k before else before)
        → encrypted lib key second k after ≡ none
    encrypted_twice k n before after s e h =
        let once : after ≡ visited (encrypted lib key first) k before = h ∙ rw s refl in
        ap (encrypted lib key second k) once ∙ encrypted-again k n before e

    rewrite-again :
        (raw : Raw)
        → ((k : Text) → (n : Text) × (first k ≡ some n))
        → rewrite (encrypted lib key second) (rewrite (encrypted lib key first) raw).0
          ≡ ((rewrite (encrypted lib key first) raw).0, false)
    rewrite-again Raw.empty ready = refl
    rewrite-again Raw.not_object ready = refl
    rewrite-again (Raw.object cfg) ready =
        let after = config_of (rewrite (encrypted lib key first) (Raw.object cfg)).0 in
        ap (λ s. (Raw.object (if s.1 then s.0 else after), s.1))
          (visit_keys-idle (encrypted lib key second) secret_config_keys after false (λ k s.
            encrypted_twice k (ready k).0 (get k cfg) (get k after) s (ready k).1
              (get-rewrite (encrypted lib key first) (Raw.object cfg) k refl)))

  encrypt-again :
      (first second : Text → Option Text) (raw : Raw)
      → ((k : Text) → (n : Text) × (first k ≡ some n))
      → encrypt_config_secrets lib key second (encrypt_config_secrets lib key first raw).0
        ≡ ((encrypt_config_secrets lib key first raw).0, false)
  unfolding encrypt_config_secrets
  encrypt-again first second raw ready =
      rw (usable, encrypt_config_secrets) (rewrite-again first second raw ready)

  encrypt-unchanged :
      (nonces : Text → Option Text) (raw : Raw)
      → (encrypt_config_secrets lib key nonces raw).1 ≡ false
      → (encrypt_config_secrets lib key nonces raw).0 ≡ raw
  unfolding encrypt_config_secrets
  encrypt-unchanged nonces Raw.empty h = rw (usable, encrypt_config_secrets) refl
  encrypt-unchanged nonces Raw.not_object h = rw (usable, encrypt_config_secrets) refl
  encrypt-unchanged nonces (Raw.object cfg) h =
      rw (usable, encrypt_config_secrets)
        (ap
          (λ b. Raw.object (
            if b
            then (visit_keys (encrypted lib key nonces) secret_config_keys (cfg, false)).0
            else cfg))
          (ap
              (λ u.
                (if u
                  then rewrite (encrypted lib key nonces) (Raw.object cfg)
                  else (Raw.object cfg, false)).1)
              (sym usable)
            ∙ h))

  abbrev Quiet : List Row → Type 0
  Quiet rows = encrypt_rows lib key rows ≡ (configs rows, record { updated = 0; failed = false })

  Quiet-cons :
      (r : Row) (rows : List Row)
      → (encrypt_config_secrets lib key r.nonces r.config).1 ≡ false
      → Quiet rows
      → Quiet (r ∷ rows)
  unfolding encrypt_rows
  Quiet-cons r rows e q = rw (e, encrypt_rows) (rw (q, encrypt_rows) refl)

  quiet_row :
      (r : Row) (nonces : Text → Option Text) (now : Raw)
      → IsReady r
      → now ≡ (encrypt_config_secrets lib key r.nonces r.config).0
      → (encrypt_config_secrets lib key nonces now).1 ≡ false
  quiet_row r nonces now ready e =
      ap (λ c. (encrypt_config_secrets lib key nonces c).1) e
      ∙ ap (λ p. p.1) (encrypt-again r.nonces nonces r.config ready)

  -- what the loop leaves of a first row, when no update fails
  first_row :
      (r : Row) (rows : List Row)
      → (encrypt_rows lib key (r ∷ rows)).1.failed ≡ false
      → ((encrypt_rows lib key (r ∷ rows)).0
          ≡ (encrypt_config_secrets lib key r.nonces r.config).0 ∷ (encrypt_rows lib key rows).0)
        × ((encrypt_rows lib key rows).1.failed ≡ false)
  unfolding encrypt_rows
  first_row r rows h = elim (Bool-cases (encrypt_config_secrets lib key r.nonces r.config).1) [
    | inl changed ↦ ground (arith, changed)
    | inr same ↦ ground (arith, same, encrypt-unchanged r.nonces r.config same)
  ]

  Quiet-step :
      (later : List Row) (x : Raw) (xs : List Raw)
      → configs later ≡ x ∷ xs
      → ((r : Row) → r.config ≡ x → (encrypt_config_secrets lib key r.nonces r.config).1 ≡ false)
      → ((rs : List Row) → configs rs ≡ xs → Quiet rs)
      → Quiet later
  Quiet-step [] x xs e here there = cc
  Quiet-step (r ∷ rs) x xs e here there = Quiet-cons r rs (here r (cc)) (there rs (cc))

  rows-Quiet :
      (rows later : List Row)
      → All IsReady rows
      → (encrypt_rows lib key rows).1.failed ≡ false
      → configs later ≡ (encrypt_rows lib key rows).0
      → Quiet later
  unfolding encrypt_rows
  rows-Quiet [] [] ready ok e = refl
  rows-Quiet [] (r ∷ later) ready ok e = cc
  rows-Quiet (r ∷ rows) later ready ok e =
      let (first, rest) = first_row r rows ok in
      Quiet-step later (encrypt_config_secrets lib key r.nonces r.config).0
        (encrypt_rows lib key rows).0 (e ∙ first) (λ s h. quiet_row r s.nonces s.config ready.0 h)
        (λ rs h. rows-Quiet rows rs ready.1 rest h)

-- When the random source gives every nonce and every update succeeds, a second encryption of the rows
-- that the first left updates none of them and leaves each config as it is, whatever happens in it.
pub encrypt_legacy_configs-again :
    (lib : Library) (key : Text) (rows later : List Row)
    → All IsReady rows
    → (encrypt_legacy_configs lib key rows).1.failed ≡ false
    → configs later ≡ (encrypt_legacy_configs lib key rows).0
    → encrypt_legacy_configs lib key later ≡ (configs later, record { updated = 0; failed = false })
unfolding encrypt_legacy_configs
encrypt_legacy_configs-again lib key rows later ready ok e = elim (Bool-cases (is_usable key)) [
  | inl u ↦
      let run = λ (b : Bool).
        if b
        then encrypt_rows lib key rows
        else (configs rows, record { updated = 0; failed = false }) in
      rw (u, encrypt_legacy_configs)
        (rows-Quiet lib key u rows later ready (sym (ap (λ b. (run b).1.failed) u) ∙ ok)
          (e ∙ ap (λ b. (run b).0) u))
  | inr u ↦ rw (u, encrypt_legacy_configs) refl
]

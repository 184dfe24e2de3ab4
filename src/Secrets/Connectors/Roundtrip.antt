-- ===== src/Secrets/Connectors/Roundtrip.antt =====
-- Encrypted configs read as they were, and a second encryption changes nothing
-- (services/api/internal/connector/secrets.go).
use agent_nexus.Prelude.{
  ◌≡◌, refl, sym, ap, ◌∙◌, inl, inr, false, ◌||◌, Option, none, some, if◌then◌else◌, Bool-cases,
  arith,
}
use agent_nexus.Prelude.Text.{Text, is_blank, has_prefix}
use agent_nexus.Prelude.Fields.{get}
use agent_nexus.Secrets.{Library, is_usable, encrypt}
use agent_nexus.Secrets.Cipher.{IsNonce, decrypt-encrypt}
use agent_nexus.Secrets.Connectors.{
  Value, Config, Raw, secret_config_keys, enc_prefix, rewrite, encrypted, encrypt_config_secrets,
  sealed_text, decrypted, decrypt_config_secrets,
}
use agent_nexus.Secrets.Connectors.Rounds.{
  is_secret, or_kept, visited, get-visit_keys, config_of, secret_keys-AllDistinct, get-rewrite,
}

module _ (lib : Library) (key : Text) (nonces : Text → Option Text) where
  read-sealed_text :
      (k v : Text) (enc : Option Text)
      → encrypt lib key (nonces k) v ≡ enc
      → IsNonce lib (nonces k)
      → has_prefix v enc_prefix ≡ false
      → visited (decrypted lib key) k (or_kept (sealed_text enc) (some (Value.text v)))
        ≡ some (Value.text v)
  read-sealed_text k v none e h plain = rw (plain, visited, decrypted) refl
  read-sealed_text k v (some enc) e h plain =
      rw (decrypt-encrypt lib key (nonces k) v enc h e, visited, decrypted) refl

  read-plain :
      (k v : Text)
      → has_prefix v enc_prefix ≡ false
      → ◌≡◌ {A = Option Value}
          (some (Value.text v))
          (visited (decrypted lib key) k (some (Value.text v)))
  read-plain k v plain = rw (plain, visited, decrypted) refl

  -- of one field
  decrypted-encrypted :
      (k : Text) (o : Option Value)
      → IsNonce lib (nonces k)
      → visited (decrypted lib key) k (visited (encrypted lib key nonces) k o)
        ≡ visited (decrypted lib key) k o
  decrypted-encrypted k none h = refl
  decrypted-encrypted k (some (Value.other n)) h = refl
  decrypted-encrypted k (some (Value.text v)) h =
      elim (Bool-cases (is_blank v || has_prefix v enc_prefix)) [
        | inl e ↦
            ap
              (λ b. visited (decrypted lib key) k (
                or_kept (if b then none else sealed_text (encrypt lib key (nonces k) v))
                  (some (Value.text v))))
              e
        | inr e ↦
            ap
              (λ b. visited (decrypted lib key) k (
                or_kept (if b then none else sealed_text (encrypt lib key (nonces k) v))
                  (some (Value.text v))))
              e
            ∙ (read-sealed_text k v (encrypt lib key (nonces k) v) refl h (ground arith)
                ∙ read-plain k v (ground arith))
      ]

  get-decrypt :
      (cfg : Config) (j : Text)
      → get j (decrypt_config_secrets lib key cfg)
        ≡ (if is_secret j then visited (decrypted lib key) j (get j cfg) else get j cfg)
  unfolding decrypt_config_secrets
  get-decrypt cfg j =
      get-visit_keys (decrypted lib key) secret_config_keys cfg false j secret_keys-AllDistinct

  decrypted_field :
      (j : Text) (before after : Option Value)
      → IsNonce lib (nonces j)
      → after ≡ (if is_secret j then visited (encrypted lib key nonces) j before else before)
      → (if is_secret j then visited (decrypted lib key) j after else after)
        ≡ (if is_secret j then visited (decrypted lib key) j before else before)
  decrypted_field j before after h e = elim (Bool-cases (is_secret j)) [
    | inl s ↦
        let first : after ≡ visited (encrypted lib key nonces) j before = e ∙ rw s refl in
        rw s (ap (visited (decrypted lib key) j) first ∙ decrypted-encrypted j before h)
    | inr s ↦ rw s (e ∙ rw s refl)
  ]

  -- When the nonces have the size of a nonce, every field of an encrypted config reads as the field of the
  -- config itself, whatever the key, and whichever encryptions fail.
  pub decrypt-encrypt_config_secrets :
      (raw : Raw) (j : Text)
      → IsNonce lib (nonces j)
      → get j
          (decrypt_config_secrets lib key (config_of (encrypt_config_secrets lib key nonces raw).0))
        ≡ get j (decrypt_config_secrets lib key (config_of raw))
  unfolding encrypt_config_secrets
  decrypt-encrypt_config_secrets raw j h = elim (Bool-cases (is_usable key)) [
    | inl u ↦
        rw (u, encrypt_config_secrets)
          (get-decrypt (config_of (rewrite (encrypted lib key nonces) raw).0) j
            ∙ (decrypted_field j (get j (config_of raw))
                  (get j (config_of (rewrite (encrypted lib key nonces) raw).0)) h
                  (get-rewrite (encrypted lib key nonces) raw j refl)
                ∙ sym (get-decrypt (config_of raw) j)))
    | inr u ↦ rw (u, encrypt_config_secrets) refl
  ]

-- ===== src/Secrets/Mcp/Roundtrip.antt =====
-- Encrypted configs of MCP servers read as they were
-- (services/api/internal/api/handler/mcp_secrets.go).
use agent_nexus.Prelude.{
  ◌≡◌, refl, sym, ap, ◌∙◌, inl, inr, true, false, Option, none, some, List, [], ◌∷◌, ◌++◌,
  if◌then◌else◌, Bool-cases,
}
use agent_nexus.Prelude.Text.{Text, text_eq, is_blank, has_prefix, codes}
use agent_nexus.Prelude.Text.Laws.{text_eq_sound}
use agent_nexus.Secrets.{Library, is_usable, encrypt}
use agent_nexus.Secrets.Cipher.{IsNonce, decrypt-encrypt}
use agent_nexus.Secrets.Connectors.{Value, enc_prefix}
use agent_nexus.Secrets.Mcp.{
  McpRaw, transform_value, transform_token, transform_env, transform_all, transform_mcp_config,
  or_same, or_marked, encrypt_value, encrypt_mcp_config, decrypt_value, decrypt_mcp_config,
}

abbrev value_of : (Text → Text) → Text → Value
value_of fn v = if is_blank v then Value.text v else Value.text (fn v)

-- the comparison with the old value only spares a write
transform-value_of :
    (fn : Text → Text) (v : Text) → transform_value fn (Value.text v) ≡ value_of fn v
transform-value_of fn v = elim (Bool-cases (text_eq (fn v) v)) [
  | inl e ↦
      rw (e, transform_value)
        (ap (λ t. if is_blank v then Value.text v else Value.text t)
          (sym (text_eq_sound (fn v) v e)))
  | inr e ↦ rw (e, transform_value) refl
]

marked-filled : (v : Text) (o : Option Text) → is_blank v ≡ false → is_blank (or_marked v o) ≡ false
marked-filled v none h = h
marked-filled v (some s) h = refl

module _ (lib : Library) (key : Text) (nonces : Text → Option Text)
    (ok : (k : Text) → IsNonce lib (nonces k)) where
  abbrev dec : Text → Text → Text
  dec = decrypt_value lib key

  abbrev enc : Text → Text → Text
  enc = encrypt_value lib key nonces

  dec-plain : (k v : Text) → has_prefix v enc_prefix ≡ false → dec k v ≡ v
  dec-plain k v plain = rw (plain, decrypt_value) refl

  dec-marked :
      (k v : Text) (o : Option Text)
      → encrypt lib key (nonces k) v ≡ o
      → is_usable key ≡ true
      → has_prefix v enc_prefix ≡ false
      → dec k (or_marked v o) ≡ v
  dec-marked k v none e u plain = dec-plain k v plain
  dec-marked k v (some s) e u plain =
      rw (u, decrypt_value)
        (ap (or_same (enc_prefix ++ s)) (decrypt-encrypt lib key (nonces k) v s (ok k) e))

  dec-enc : (k v : Text) → dec k (enc k v) ≡ dec k v
  dec-enc k v = elim (Bool-cases (has_prefix v enc_prefix)) [
    | inl p ↦ let e : enc k v ≡ v = rw (p, encrypt_value) refl in ap (dec k) e
    | inr p ↦ elim (Bool-cases (is_usable key)) [
      | inl u ↦
          let e : enc k v ≡ or_marked v (encrypt lib key (nonces k) v) =
            rw (p, u, encrypt_value) refl in
          ap (dec k) e
          ∙ (dec-marked k v (encrypt lib key (nonces k) v) refl u p ∙ sym (dec-plain k v p))
      | inr u ↦ let e : enc k v ≡ v = rw (p, u, encrypt_value) refl in ap (dec k) e
    ]
  ]

  -- an encrypted text is not empty
  enc-filled : (k v : Text) → is_blank v ≡ false → is_blank (enc k v) ≡ false
  enc-filled k v h = elim (Bool-cases (has_prefix v enc_prefix)) [
    | inl p ↦ rw (p, encrypt_value) h
    | inr p ↦ elim (Bool-cases (is_usable key)) [
      | inl u ↦
          let e : enc k v ≡ or_marked v (encrypt lib key (nonces k) v) =
            rw (p, u, encrypt_value) refl in
          ap is_blank e ∙ marked-filled v (encrypt lib key (nonces k) v) h
      | inr u ↦ let e : enc k v ≡ v = rw (p, u, encrypt_value) refl in ap is_blank e ∙ h
    ]
  ]

  value-twice :
      (k : Text) (v : Value)
      → transform_value (dec k) (transform_value (enc k) v) ≡ transform_value (dec k) v
  value-twice k (Value.other n) = refl
  value-twice k (Value.text v) = elim (Bool-cases (is_blank v)) [
    | inl b ↦
        let e : transform_value (enc k) (Value.text v) ≡ Value.text v =
          rw (b, transform_value) refl in
        ap (transform_value (dec k)) e
    | inr b ↦
        let once : transform_value (enc k) (Value.text v) ≡ Value.text (enc k v) =
          transform-value_of (enc k) v ∙ rw (b, value_of) refl in
        let twice : value_of (dec k) (enc k v) ≡ Value.text (dec k (enc k v)) =
          rw (enc-filled k v b, value_of) refl in
        let direct : value_of (dec k) v ≡ Value.text (dec k v) = rw (b, value_of) refl in
        ap (transform_value (dec k)) once
        ∙ (transform-value_of (dec k) (enc k v)
            ∙ (twice
                ∙ (ap Value.text (dec-enc k v)
                    ∙ (sym direct ∙ sym (transform-value_of (dec k) v)))))
  ]

  env-twice :
      (env : List (Text × Value))
      → transform_env dec (transform_env enc env) ≡ transform_env dec env
  env-twice [] = refl
  env-twice ((k, v) ∷ env) =
      ap (λ x. (k, x) ∷ transform_env dec (transform_env enc env)) (value-twice k v)
      ∙ ap (λ r. (k, transform_value (dec k) v) ∷ r) (env-twice env)

  token-twice :
      (o : Option Value)
      → transform_token (dec (codes "token")) (transform_token (enc (codes "token")) o)
        ≡ transform_token (dec (codes "token")) o
  token-twice none = refl
  token-twice (some v) = ap (λ x. some x) (value-twice (codes "token") v)

  all-twice :
      (o : Option (List (Text × Value)))
      → transform_all dec (transform_all enc o) ≡ transform_all dec o
  all-twice none = refl
  all-twice (some env) = ap (λ x. some x) (env-twice env)

  -- When the nonces have the size of a nonce, an encrypted config decrypts to what the config itself
  -- decrypts to, whatever the key, and whichever encryptions fail.
  pub decrypt-encrypt_mcp_config :
      (raw : McpRaw)
      → decrypt_mcp_config lib key (encrypt_mcp_config lib key nonces raw)
        ≡ decrypt_mcp_config lib key raw
  unfolding decrypt_mcp_config encrypt_mcp_config transform_mcp_config
  decrypt-encrypt_mcp_config McpRaw.empty = refl
  decrypt-encrypt_mcp_config McpRaw.not_object = refl
  decrypt-encrypt_mcp_config (McpRaw.object cfg) =
      ap
        (λ t.
          McpRaw.object
            (record cfg { token = t; env = transform_all dec (transform_all enc cfg.env) }))
        (token-twice cfg.token)
      ∙ ap
          (λ t.
            McpRaw.object
              (record cfg { token = transform_token (dec (codes "token")) cfg.token; env = t }))
          (all-twice cfg.env)

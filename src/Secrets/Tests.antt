-- ===== src/Secrets/Tests.antt =====
-- A toy library, and configs that the theorems are applied to.
use agent_nexus.Prelude.{◌≡◌, refl, inr, true, false, Option, none, some, [], ◌∷◌, ◌++◌}
use agent_nexus.Prelude.Text.{Text, codes}
use agent_nexus.Prelude.Fields.{get}
use agent_nexus.Secrets.{Library, encrypt}
use agent_nexus.Secrets.Connectors.{
  Value, Raw, Row, visit_keys, encrypt_rows, encrypt_legacy_configs, encrypt_config_secrets,
  decrypt_config_secrets, redact_config_secrets,
}
use agent_nexus.Secrets.Mcp.{
  McpRaw, encrypt_mcp_rows, encrypt_legacy_mcp_configs, transform_mcp_config, encrypt_mcp_config,
  decrypt_mcp_config,
}
use agent_nexus.Secrets.Mcp.Roundtrip.{decrypt-encrypt_mcp_config}
use agent_nexus.Secrets.Connectors.Rounds.{config_of}
use agent_nexus.Secrets.Connectors.Roundtrip.{decrypt-encrypt_config_secrets}
use agent_nexus.Secrets.Connectors.Legacy.{encrypt_legacy_configs-again}
use agent_nexus.Secrets.Connectors.Redacted.{redact_config_secrets-LooksLike}

-- The seal is a mark before the text, and a nonce has two bytes.
abbrev unseal : Text → Option Text
unseal [] = none
unseal (c ∷ s) = some s

abbrev toy : Library
toy = record {
  seal = λ key nonce plain. 1 ∷ plain;
  open_sealed = λ key nonce sealed. unseal sealed;
  encode = λ s. s;
  decode = λ s. some s;
  nonce_size = 2;
  open_sealed-seal = λ key nonce plain h. refl;
  decode-encode = λ s. refl;
}

abbrev instance_key : Text
instance_key = codes "0123456789abcdef0123456789abcdef"

abbrev two_bytes : Text → Option Text
two_bytes k = some (7 ∷ 9 ∷ [])

abbrev with_token : Text → Raw
with_token t =
    Raw.object ((codes "url", Value.text (codes "http://a")) ∷ (codes "token", Value.text t) ∷ [])

encrypt_config_secrets-token :
    encrypt_config_secrets toy instance_key two_bytes (with_token (codes "ghp"))
    ≡ (with_token (codes "enc:v1:" ++ (7 ∷ 9 ∷ 1 ∷ codes "ghp")), true)
unfolding encrypt_config_secrets encrypt visit_keys
encrypt_config_secrets-token = refl

encrypt_config_secrets-short_key :
    encrypt_config_secrets toy (codes "short") two_bytes (with_token (codes "ghp"))
    ≡ (with_token (codes "ghp"), false)
unfolding encrypt_config_secrets
encrypt_config_secrets-short_key = refl

decrypt-encrypt_config_secrets_example :
    get (codes "token") (
      decrypt_config_secrets toy instance_key (
        config_of (encrypt_config_secrets toy instance_key two_bytes (with_token (codes "ghp"))).0))
    ≡ get
        (codes "token")
        (decrypt_config_secrets toy instance_key (config_of (with_token (codes "ghp"))))
decrypt-encrypt_config_secrets_example =
    decrypt-encrypt_config_secrets toy instance_key two_bytes (with_token (codes "ghp"))
      (codes "token") refl

redact_config_secrets-LooksLike_example :
    get (codes "token") (config_of (redact_config_secrets (with_token (codes "ghp"))))
    ≡ get (codes "token") (config_of (redact_config_secrets (with_token (codes "pat"))))
redact_config_secrets-LooksLike_example =
    redact_config_secrets-LooksLike (with_token (codes "ghp")) (with_token (codes "pat"))
      (codes "token") (inr (refl, (refl, refl)))

abbrev row : Text → Row
row t = record { nonces = two_bytes; update_ok = true; config = with_token t }

encrypt_legacy_configs-again_example :
    encrypt_legacy_configs toy instance_key
      (row (codes "enc:v1:" ++ (7 ∷ 9 ∷ 1 ∷ codes "ghp")) ∷ [])
    ≡ (
      with_token (codes "enc:v1:" ++ (7 ∷ 9 ∷ 1 ∷ codes "ghp")) ∷ [],
      record { updated = 0; failed = false },
    )
unfolding encrypt_legacy_configs encrypt_rows encrypt_config_secrets encrypt visit_keys
encrypt_legacy_configs-again_example =
    encrypt_legacy_configs-again toy instance_key (row (codes "ghp") ∷ [])
      (row (codes "enc:v1:" ++ (7 ∷ 9 ∷ 1 ∷ codes "ghp")) ∷ []) ((λ k. (7 ∷ 9 ∷ [], refl)), tt) refl
      refl

abbrev server : Text → McpRaw
server t =
    McpRaw.object (record {
      token = none;
      env = some ((codes "JIRA_API_TOKEN", Value.text t) ∷ []);
      others = 0;
    })

encrypt_mcp_config-env :
    encrypt_mcp_config toy instance_key two_bytes (server (codes "ghp"))
    ≡ server (codes "enc:v1:" ++ (7 ∷ 9 ∷ 1 ∷ codes "ghp"))
unfolding encrypt_mcp_config transform_mcp_config encrypt
encrypt_mcp_config-env = refl

decrypt-encrypt_mcp_config_example :
    decrypt_mcp_config toy instance_key
      (encrypt_mcp_config toy instance_key two_bytes (server (codes "ghp")))
    ≡ decrypt_mcp_config toy instance_key (server (codes "ghp"))
decrypt-encrypt_mcp_config_example =
    decrypt-encrypt_mcp_config toy instance_key two_bytes (λ k. refl) (server (codes "ghp"))

-- A row that is encrypted stays, and the one after it is encrypted.
encrypt_legacy_mcp_configs-mixed :
    encrypt_legacy_mcp_configs toy instance_key (
      record { nonces = two_bytes; update_ok = true; config = server (codes "enc:v1:x") }
      ∷ record { nonces = two_bytes; update_ok = true; config = server (codes "ghp") }
      ∷ [])
    ≡ (
      server (codes "enc:v1:x") ∷ server (codes "enc:v1:" ++ (7 ∷ 9 ∷ 1 ∷ codes "ghp")) ∷ [],
      record { updated = 1; failed = false },
    )
unfolding encrypt_legacy_mcp_configs encrypt_mcp_rows encrypt_mcp_config transform_mcp_config
    encrypt
encrypt_legacy_mcp_configs-mixed = refl

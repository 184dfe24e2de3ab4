-- ===== src/Secrets/Mcp.antt =====
-- The secrets in the configs of MCP servers (services/api/internal/api/handler/mcp_secrets.go).
pub mod Roundtrip
use agent_nexus.Prelude.{
  ℕ, suc, Bool, true, false, not, ◌&&◌, ◌||◌, Option, none, some, List, [], ◌∷◌, ◌++◌, map,
  if◌then◌else◌,
}
use agent_nexus.Prelude.Text.{Text, codes, text_eq, is_blank, has_prefix}
use agent_nexus.Prelude.Strings.{trim_prefix}
use agent_nexus.Secrets.{Library, is_usable, encrypt, decrypt}
use agent_nexus.Secrets.Connectors.{Value, Backfill, enc_prefix, placeholder}

-- The token, the environment when it is an object, and the other fields by a number.
pub record McpConfig : Type 0 where
  pub token : Option Value
  pub env : Option (List (Text × Value))
  pub others : ℕ

pub data McpRaw : Type 0 where
  empty not_object : McpRaw
  object : McpConfig → McpRaw

-- a value that fn is asked for when it is a text that is not empty
abbrev pub transform_value : (Text → Text) → Value → Value
transform_value fn (Value.text v) =
    if is_blank v
    then Value.text v
    else if text_eq (fn v) v
    then Value.text v
    else Value.text (fn v)
transform_value fn (Value.other n) = Value.other n

abbrev pub transform_token : (Text → Text) → Option Value → Option Value
transform_token fn none = none
transform_token fn (some v) = some (transform_value fn v)

-- the range loop over the environment, with fn of a field
abbrev pub transform_env : (Text → Text → Text) → List (Text × Value) → List (Text × Value)
transform_env fn [] = []
transform_env fn ((k, v) ∷ env) = (k, transform_value (fn k) v) ∷ transform_env fn env

abbrev pub transform_all :
    (Text → Text → Text) → Option (List (Text × Value)) → Option (List (Text × Value))
transform_all fn none = none
transform_all fn (some env) = some (transform_env fn env)

-- `transformMCPConfig`; fn takes the name of the field too, for the nonce that it gets there.
unfoldable pub transform_mcp_config : (Text → Text → Text) → McpRaw → McpRaw
transform_mcp_config fn McpRaw.empty = McpRaw.empty
transform_mcp_config fn McpRaw.not_object = McpRaw.not_object
transform_mcp_config fn (McpRaw.object cfg) = McpRaw.object (record cfg {
  token = transform_token (fn (codes "token")) cfg.token;
  env = transform_all fn cfg.env;
})

abbrev pub or_same : Text → Option Text → Text
or_same v none = v
or_same v (some t) = t

abbrev pub or_marked : Text → Option Text → Text
or_marked v none = v
or_marked v (some enc) = enc_prefix ++ enc

module _ (lib : Library) where
  abbrev pub encrypt_value : Text → (Text → Option Text) → Text → Text → Text
  encrypt_value key nonces k v =
      if has_prefix v enc_prefix
      then v
      else if is_usable key
      then or_marked v (encrypt lib key (nonces k) v)
      else v

  -- `encryptMCPConfig`
  unfoldable pub encrypt_mcp_config : Text → (Text → Option Text) → McpRaw → McpRaw
  encrypt_mcp_config key nonces raw = transform_mcp_config (encrypt_value key nonces) raw

  abbrev pub decrypt_value : Text → Text → Text → Text
  decrypt_value key k v =
      if has_prefix v enc_prefix
      then (if is_usable key then or_same v (decrypt lib key (trim_prefix v enc_prefix)) else v)
      else v

  -- `decryptMCPConfig`
  unfoldable pub decrypt_mcp_config : Text → McpRaw → McpRaw
  decrypt_mcp_config key raw = transform_mcp_config (decrypt_value key) raw

-- `redactMCPConfig`
unfoldable pub redact_mcp_config : McpRaw → McpRaw
redact_mcp_config raw = transform_mcp_config (λ k v. placeholder) raw

-- whether transformMCPConfig writes the config anew
abbrev pub changes_value : (Text → Text) → Value → Bool
changes_value fn (Value.text v) = not (is_blank v) && not (text_eq (fn v) v)
changes_value fn (Value.other n) = false

abbrev pub changes_env : (Text → Text → Text) → List (Text × Value) → Bool
changes_env fn [] = false
changes_env fn ((k, v) ∷ env) = changes_value (fn k) v || changes_env fn env

abbrev pub changes_all : (Text → Text → Text) → Option Value → Option (List (Text × Value)) → Bool
changes_all fn none none = false
changes_all fn none (some env) = changes_env fn env
changes_all fn (some v) none = changes_value (fn (codes "token")) v
changes_all fn (some v) (some env) = changes_value (fn (codes "token")) v || changes_env fn env

abbrev pub changes : (Text → Text → Text) → McpRaw → Bool
changes fn McpRaw.empty = false
changes fn McpRaw.not_object = false
changes fn (McpRaw.object cfg) = changes_all fn cfg.token cfg.env

-- A row, with the nonces that it would get, and whether its update would succeed.
pub record McpRow : Type 0 where
  pub nonces : Text → Option Text
  pub update_ok : Bool
  pub config : McpRaw

abbrev pub mcp_configs : List McpRow → List McpRaw
mcp_configs rows = map (λ r. r.config) rows

module _ (lib : Library) where
  -- `EncryptLegacyMCPConfigs`, with the configs that it leaves
  unfoldable pub encrypt_mcp_rows : Text → List McpRow → List McpRaw × Backfill
  encrypt_mcp_rows key [] = ([], record { updated = 0; failed = false })
  encrypt_mcp_rows key (r ∷ rows) =
      let (after, b) = encrypt_mcp_rows key rows in
      if not (changes (encrypt_value lib key r.nonces) r.config)
      then (r.config ∷ after, b)
      else if r.update_ok
      then (
        encrypt_mcp_config lib key r.nonces r.config ∷ after,
        record b { updated = suc b.updated },
      )
      else (mcp_configs (r ∷ rows), record { updated = 0; failed = true })

  unfoldable pub encrypt_legacy_mcp_configs : Text → List McpRow → List McpRaw × Backfill
  encrypt_legacy_mcp_configs key rows =
      if is_usable key
      then encrypt_mcp_rows key rows
      else (mcp_configs rows, record { updated = 0; failed = false })

-- ===== src/Secrets/Connectors.antt =====
-- The secrets in the configs of connectors (services/api/internal/connector/secrets.go).
pub mod Rounds
pub mod Roundtrip
pub mod Redacted
pub mod Legacy
use agent_nexus.Prelude.{
  ℕ, Bool, true, false, not, ◌&&◌, ◌||◌, Option, none, some, List, [], ◌∷◌, ◌++◌, map, suc,
  if◌then◌else◌,
}
use agent_nexus.Prelude.Text.{Text, codes, is_blank, has_prefix}
use agent_nexus.Prelude.Strings.{trim_prefix}
use agent_nexus.Prelude.Fields.{get, put}
use agent_nexus.Secrets.{Library, is_usable, encrypt, decrypt}

-- a JSON value: a string, or anything else by a number
pub data Value : Type 0 where
  text : Text → Value
  other : ℕ → Value

abbrev pub Config : Type 0
Config = List (Text × Value)

abbrev pub secret_config_keys : List Text
secret_config_keys =
    codes "token" ∷ codes "api_token" ∷ codes "api_key" ∷ codes "password" ∷ codes "secret" ∷ []

abbrev pub enc_prefix : Text
enc_prefix = codes "enc:v1:"

-- The loop over `secretConfigKeys`, with what a field is replaced by, and whether any was replaced.
unfoldable pub visit_keys :
    (Text → Option Value → Option Value) → List Text → Config × Bool → Config × Bool
visit_keys change [] s = s
visit_keys change (k ∷ ks) (cfg, changed) = elim (change k (get k cfg)) [
  | none ↦ visit_keys change ks (cfg, changed)
  | some v ↦ visit_keys change ks (put k v cfg, true)
]

-- What `json.Unmarshal` makes of a column: nothing, no object, or an object.
pub data Raw : Type 0 where
  empty not_object : Raw
  object : Config → Raw

-- The object is written anew when a field was replaced.
abbrev pub rewrite : (Text → Option Value → Option Value) → Raw → Raw × Bool
rewrite change Raw.empty = (Raw.empty, false)
rewrite change Raw.not_object = (Raw.not_object, false)
rewrite change (Raw.object cfg) =
    let (after, changed) = visit_keys change secret_config_keys (cfg, false) in
    (Raw.object (if changed then after else cfg), changed)

-- the new value of a field, unless an error leaves it
abbrev pub sealed_text : Option Text → Option Value
sealed_text none = none
sealed_text (some enc) = some (Value.text (enc_prefix ++ enc))

abbrev pub read : Option Text → Option Value
read none = none
read (some dec) = some (Value.text dec)

module _ (lib : Library) where
  abbrev pub encrypted : Text → (Text → Option Text) → Text → Option Value → Option Value
  encrypted key nonces k (some (Value.text v)) =
      if is_blank v || has_prefix v enc_prefix
      then none
      else sealed_text (encrypt lib key (nonces k) v)
  encrypted key nonces k _ = none

  -- `EncryptConfigSecrets`; nonces has what `rand.Reader` gives for each field.
  unfoldable pub encrypt_config_secrets : Text → (Text → Option Text) → Raw → Raw × Bool
  encrypt_config_secrets key nonces raw =
      if is_usable key then rewrite (encrypted key nonces) raw else (raw, false)

  abbrev pub decrypted : Text → Text → Option Value → Option Value
  decrypted key k (some (Value.text v)) =
      if has_prefix v enc_prefix then read (decrypt lib key (trim_prefix v enc_prefix)) else none
  decrypted key k _ = none

  -- `DecryptConfigSecrets`
  unfoldable pub decrypt_config_secrets : Text → Config → Config
  decrypt_config_secrets key cfg = (visit_keys (decrypted key) secret_config_keys (cfg, false)).0

-- three bullets in UTF-8
abbrev pub placeholder : Text
placeholder = 0xe2 ∷ 0x80 ∷ 0xa2 ∷ 0xe2 ∷ 0x80 ∷ 0xa2 ∷ 0xe2 ∷ 0x80 ∷ 0xa2 ∷ []

abbrev pub redacted : Text → Option Value → Option Value
redacted k (some (Value.text v)) = if is_blank v then none else some (Value.text placeholder)
redacted k _ = none

-- `RedactConfigSecrets`
unfoldable pub redact_config_secrets : Raw → Raw
redact_config_secrets raw = (rewrite redacted raw).0

-- What `EncryptLegacyConfigs` returns: how many rows it updated, and whether an update failed.
pub record Backfill : Type 0 where
  pub updated : ℕ
  pub failed : Bool

-- A row, with the nonces that it would get, and whether its update would succeed.
pub record Row : Type 0 where
  pub nonces : Text → Option Text
  pub update_ok : Bool
  pub config : Raw

abbrev pub configs : List Row → List Raw
configs rows = map (λ r. r.config) rows

module _ (lib : Library) where
  -- The loop over the rows, with the configs that it leaves.
  unfoldable pub encrypt_rows : Text → List Row → List Raw × Backfill
  encrypt_rows key [] = ([], record { updated = 0; failed = false })
  encrypt_rows key (r ∷ rows) =
      let (enc, changed) = encrypt_config_secrets lib key r.nonces r.config in
      let (after, b) = encrypt_rows key rows in
      if not changed
      then (r.config ∷ after, b)
      else if r.update_ok
      then (enc ∷ after, record b { updated = suc b.updated })
      else (configs (r ∷ rows), record { updated = 0; failed = true })

  unfoldable pub encrypt_legacy_configs : Text → List Row → List Raw × Backfill
  encrypt_legacy_configs key rows =
      if is_usable key
      then encrypt_rows key rows
      else (configs rows, record { updated = 0; failed = false })

-- ===== src/Secrets/Connectors/Redacted.antt =====
-- What the API shows of a config does not depend on its secrets
-- (services/api/internal/connector/secrets.go).
use agent_nexus.Prelude.{
  ◌≡◌, refl, sym, ap, ◌∙◌, ◌⊎◌, inl, inr, true, false, Option, none, some, if◌then◌else◌,
}
use agent_nexus.Prelude.Text.{Text, is_blank}
use agent_nexus.Prelude.Fields.{get}
use agent_nexus.Secrets.Connectors.{Value, Raw, placeholder, redacted, redact_config_secrets}
use agent_nexus.Secrets.Connectors.Rounds.{is_secret, visited, config_of, get-rewrite}

-- a text that is not empty
abbrev pub IsFilled : Option Value → Type 0
IsFilled (some (Value.text v)) = is_blank v ≡ false
IsFilled _ = ⊥

-- Two values of a field are the same, or both are filled secrets.
abbrev pub LooksLike : Text → Option Value → Option Value → Type 0
LooksLike j x y = (x ≡ y) ⊎ ((is_secret j ≡ true) × (IsFilled x × IsFilled y))

filled-redacted :
    (j : Text) (x : Option Value)
    → IsFilled x
    → visited redacted j x ≡ some (Value.text placeholder)
filled-redacted j (some (Value.text v)) h = rw (h, visited, redacted) refl
filled-redacted j (some (Value.other n)) h = absurd h
filled-redacted j none h = absurd h

abbrev shown : Text → Option Value → Option Value
shown j x = if is_secret j then visited redacted j x else x

LooksLike-shown : (j : Text) (x y : Option Value) → LooksLike j x y → shown j x ≡ shown j y
LooksLike-shown j x y (inl e) = ap (shown j) e
LooksLike-shown j x y (inr (s, (h, k))) = rw s (filled-redacted j x h ∙ sym (filled-redacted j y k))

-- Two configs whose fields are equal, but for secrets that are filled in both, have equal fields after
-- redaction.
pub redact_config_secrets-LooksLike :
    (c d : Raw) (j : Text)
    → LooksLike j (get j (config_of c)) (get j (config_of d))
    → get j (config_of (redact_config_secrets c)) ≡ get j (config_of (redact_config_secrets d))
unfolding redact_config_secrets
redact_config_secrets-LooksLike c d j h =
    get-rewrite redacted c j refl
    ∙ (LooksLike-shown j (get j (config_of c)) (get j (config_of d)) h
        ∙ sym (get-rewrite redacted d j refl))

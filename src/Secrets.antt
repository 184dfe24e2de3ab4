-- ===== src/Secrets.antt =====
-- Encryption of text with the instance key (services/api/pkg/encrypt/aes.go). AES-GCM and base64 are
-- parameters; texts are lists of bytes.
pub mod Cipher
pub mod Connectors
pub mod Mcp
mod Tests
use agent_nexus.Prelude.{
  ℕ, ◌≡◌, Bool, Option, none, some, List, ◌++◌, ◌==◌, ltb, if◌then◌else◌, length, take, drop,
}
use agent_nexus.Prelude.Text.{Text}

-- What Go's crypto/cipher and encoding/base64 give, with the laws that the code relies on.
pub record Library : Type 0 where
  pub seal : Text → Text → Text → Text
  pub open_sealed : Text → Text → Text → Option Text
  pub encode : Text → Text
  pub decode : Text → Option Text
  pub nonce_size : ℕ
  pub open_sealed-seal :
      (key nonce plain : Text)
      → length nonce ≡ nonce_size
      → open_sealed key nonce (seal key nonce plain) ≡ some plain
  pub decode-encode : (s : Text) → decode (encode s) ≡ some s

abbrev pub is_usable : Text → Bool
is_usable key = length key == 32

module _ (lib : Library) where
  -- `Encrypt`; the nonce is what `rand.Reader` gives, or `none` when it fails.
  unfoldable pub encrypt : Text → Option Text → Text → Option Text
  encrypt key nonce plaintext =
      if is_usable key
      then elim nonce [ none ↦ none | some n ↦ some (lib.encode (n ++ lib.seal key n plaintext)) ]
      else none

  -- `Decrypt`
  unfoldable pub decrypt : Text → Text → Option Text
  decrypt key encoded =
      if is_usable key
      then elim (lib.decode encoded) [
        | none ↦ none
        | some ciphertext ↦
            if ltb (length ciphertext) lib.nonce_size
            then none
            else lib.open_sealed key (take lib.nonce_size ciphertext)
                (drop lib.nonce_size ciphertext)
      ]
      else none

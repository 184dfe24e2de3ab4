-- ===== src/Secrets/Cipher.antt =====
-- Decryption undoes encryption (services/api/pkg/encrypt/aes.go).
use agent_nexus.Prelude.{
  ◌≡◌, refl, ap, true, false, Option, none, some, [], ◌∷◌, ◌++◌, ltb, length, length-append, take,
  drop, arith,
}
use agent_nexus.Prelude.Text.{Text}
use agent_nexus.Secrets.{Library, is_usable, encrypt, decrypt}

take-append : (s t : Text) → take (length s) (s ++ t) ≡ s
take-append [] t = refl
take-append (c ∷ s) t = ap (λ r. c ∷ r) (take-append s t)

drop-append : (s t : Text) → drop (length s) (s ++ t) ≡ t
drop-append [] t = refl
drop-append (c ∷ s) t = drop-append s t

module _ (lib : Library) where
  -- what `rand.Reader` gives has the size of a nonce
  abbrev pub IsNonce : Option Text → Type 0
  IsNonce none = Unit
  IsNonce (some n) = length n ≡ lib.nonce_size

  decrypt-sealed :
      (key nonce plain : Text)
      → is_usable key ≡ true
      → length nonce ≡ lib.nonce_size
      → decrypt lib key (lib.encode (nonce ++ lib.seal key nonce plain)) ≡ some plain
  unfolding decrypt
  decrypt-sealed key nonce plain usable h =
      let long : ltb (length (nonce ++ lib.seal key nonce plain)) (length nonce) ≡ false =
        ground (arith, length-append nonce (lib.seal key nonce plain)) in
      rw
        (
          usable,
          lib.decode-encode (nonce ++ lib.seal key nonce plain),
          ← h,
          long,
          take-append nonce (lib.seal key nonce plain),
          drop-append nonce (lib.seal key nonce plain),
        )
        (lib.open_sealed-seal key nonce plain h)

  pub decrypt-encrypt :
      (key : Text) (nonce : Option Text) (plain enc : Text)
      → IsNonce nonce
      → encrypt lib key nonce plain ≡ some enc
      → decrypt lib key enc ≡ some plain
  unfolding encrypt
  decrypt-encrypt key none plain enc h e = ground arith
  decrypt-encrypt key (some n) plain enc h e = ground (arith, decrypt-sealed key n plain)

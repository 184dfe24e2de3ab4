-- ===== src/Runner/Requests/Keys.antt =====
-- Which launches share a session (services/runner/main.go).
use agent_nexus.Prelude.{
  ℕ, ◌≡◌, refl, sym, ap, ◌∙◌, ◌↔◌, Bool, true, false, [], ◌∷◌, ◌++◌, arith, ◌==◌, All,
  if◌then◌else◌,
}
use agent_nexus.Prelude.Text.{Text, codes}
use agent_nexus.Runner.Requests.{LaunchRequest, is_review, session_key}

-- a text without the separators of a key
abbrev pub IsBare : Text → Type 0
IsBare s = All (λ c. ((c == b'|') ≡ false) × ((c == b':') ≡ false)) s

head-∷ : (x y : ℕ) (s t : Text) → x ∷ s ≡ y ∷ t → x ≡ y
head-∷ x y s t e = cc

split_injective :
    (a b c d : Text) → IsBare a → IsBare b → a ++ (b'|' ∷ c) ≡ b ++ (b'|' ∷ d) → (a ≡ b) × (c ≡ d)
split_injective [] [] c d ha hb e = (refl, cc)
split_injective (x ∷ a) [] c d ha hb e = ground (arith, ha.0.0, head-∷ _ _ _ _ e)
split_injective [] (y ∷ b) c d ha hb e = ground (arith, hb.0.0, head-∷ _ _ _ _ e)
split_injective (x ∷ a) (y ∷ b) c d ha hb e =
    let (h, k) = split_injective a b c d ha.1 hb.1 cc in (cc, k)

no_colon : (p t rest s : Text) → IsBare p → IsBare t → p ++ (b':' ∷ rest) ≡ t ++ (b'|' ∷ s) → ⊥
no_colon [] [] rest s hp ht e = ground (arith, head-∷ _ _ _ _ e)
no_colon [] (y ∷ t) rest s hp ht e = ground (arith, ht.0.1, head-∷ _ _ _ _ e)
no_colon (x ∷ p) [] rest s hp ht e = ground (arith, hp.0.0, head-∷ _ _ _ _ e)
no_colon (x ∷ p) (y ∷ t) rest s hp ht e = no_colon p t rest s hp.1 ht.1 cc

abbrev key_of : Bool → Text → Text → Text
key_of review ticket repo =
    let key = ticket ++ (b'|' ∷ repo) in if review then codes "review:" ++ key else key

IsBare-review : IsBare (codes "review")
IsBare-review = (
  (refl, refl),
  ((refl, refl), ((refl, refl), ((refl, refl), ((refl, refl), ((refl, refl), tt))))),
)

key_of-injective :
    (review other : Bool) (ticket t repo r : Text)
    → IsBare ticket
    → IsBare t
    → key_of review ticket repo ≡ key_of other t r
    → (review ≡ other) × ((ticket ≡ t) × (repo ≡ r))
key_of-injective true true ticket t repo r h k e = (refl, split_injective ticket t repo r h k cc)
key_of-injective false false ticket t repo r h k e = (refl, split_injective ticket t repo r h k e)
key_of-injective true false ticket t repo r h k e =
    absurd (no_colon (codes "review") t (ticket ++ (b'|' ∷ repo)) r IsBare-review k e)
key_of-injective false true ticket t repo r h k e =
    absurd (no_colon (codes "review") ticket (t ++ (b'|' ∷ r)) repo IsBare-review h (sym e))

-- When neither ticket key has a bar or a colon, two launches have the same session key exactly if both
-- are reviews or neither is, and they have the same ticket and the same repository.
pub session_key_iff :
    (r q : LaunchRequest)
    → IsBare r.ticket_key
    → IsBare q.ticket_key
    → (session_key r ≡ session_key q)
      ↔ ((is_review r ≡ is_review q) × ((r.ticket_key ≡ q.ticket_key) × (r.repo ≡ q.repo)))
session_key_iff r q h k = (
  key_of-injective (is_review r) (is_review q) r.ticket_key q.ticket_key r.repo q.repo h k,
  λ e.
      ap (λ b. key_of b r.ticket_key r.repo) e.0
      ∙ (ap (λ s. key_of (is_review q) s r.repo) e.1.0
          ∙ ap (key_of (is_review q) q.ticket_key) e.1.1),
)

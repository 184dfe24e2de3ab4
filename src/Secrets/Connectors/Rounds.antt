-- ===== src/Secrets/Connectors/Rounds.antt =====
-- What the loops over the secret fields do to each field (services/api/internal/connector/secrets.go).
use agent_nexus.Prelude.{
  ◌≡◌, refl, sym, ap, ◌∙◌, subst, inl, inr, Bool, true, false, ◌||◌, Option, none, some, List, [],
  ◌∷◌, if◌then◌else◌, Bool-cases, Option-cases, arith,
}
use agent_nexus.Prelude.Text.{Text, text_eq}
use agent_nexus.Prelude.Text.Laws.{text_eq_iff, text_eq_refl}
use agent_nexus.Prelude.Fields.{get, put, get-put}
use agent_nexus.Secrets.Connectors.{Value, Config, secret_config_keys, visit_keys, Raw, rewrite}

abbrev pub is_listed : Text → List Text → Bool
is_listed j [] = false
is_listed j (k ∷ ks) = text_eq k j || is_listed j ks

abbrev pub is_secret : Text → Bool
is_secret j = is_listed j secret_config_keys

abbrev pub AllDistinct : List Text → Type 0
AllDistinct [] = Unit
AllDistinct (k ∷ ks) = (is_listed k ks ≡ false) × AllDistinct ks

-- the field after a visit
abbrev pub or_kept : Option Value → Option Value → Option Value
or_kept none o = o
or_kept (some v) o = some v

abbrev pub visited : (Text → Option Value → Option Value) → Text → Option Value → Option Value
visited change j o = or_kept (change j o) o

module _ (change : Text → Option Value → Option Value) where
  -- what the theorem says of a field, when the loop gives o for it and x was there before
  abbrev Tells : List Text → Text → Option Value → Option Value → Type 0
  Tells ks j x o = o ≡ (if is_listed j ks then visited change j x else x)

  Tells-later :
      (k : Text) (ks : List Text) (j : Text) (x o : Option Value)
      → text_eq k j ≡ false
      → Tells ks j x o
      → Tells (k ∷ ks) j x o
  Tells-later k ks j x o differ h = rw differ h

  Tells-here :
      (k : Text) (ks : List Text) (x o : Option Value)
      → o ≡ visited change k x
      → Tells (k ∷ ks) k x o
  Tells-here k ks x o h = rw (text_eq_refl k) h

  after_here :
      (k : Text) (ks : List Text) (x o : Option Value)
      → is_listed k ks ≡ false
      → Tells ks k x o
      → o ≡ x
  after_here k ks x o d h = h ∙ rw d refl

  kept :
      (k : Text) (ks : List Text) (cfg : Config) (j : Text) (o : Option Value)
      → is_listed k ks ≡ false
      → change k (get k cfg) ≡ none
      → Tells ks j (get j cfg) o
      → Tells (k ∷ ks) j (get j cfg) o
  kept k ks cfg j o d e = elim (Bool-cases (text_eq k j)) [
    | inl same ↦
        subst (λ x. Tells ks x (get x cfg) o → Tells (k ∷ ks) x (get x cfg) o)
          ((text_eq_iff k j).0 same)
          (λ h.
            Tells-here k ks (get k cfg) o
              (after_here k ks (get k cfg) o d h ∙ sym (ap (λ c. or_kept c (get k cfg)) e)))
    | inr differ ↦ Tells-later k ks j (get j cfg) o differ
  ]

  replaced :
      (k : Text) (ks : List Text) (cfg : Config) (v : Value) (j : Text) (o : Option Value)
      → is_listed k ks ≡ false
      → change k (get k cfg) ≡ some v
      → Tells ks j (get j (put k v cfg)) o
      → Tells (k ∷ ks) j (get j cfg) o
  replaced k ks cfg v j o d e = elim (Bool-cases (text_eq k j)) [
    | inl same ↦
        subst (λ x. Tells ks x (get x (put k v cfg)) o → Tells (k ∷ ks) x (get x cfg) o)
          ((text_eq_iff k j).0 same)
          (λ h. Tells-here k ks (get k cfg) o (
            after_here k ks (get k (put k v cfg)) o d h
            ∙ (get-put k k v cfg
                ∙ (rw (text_eq_refl k) (sym (ap (λ c. or_kept c (get k cfg)) e))))))
    | inr differ ↦ λ h.
        Tells-later k ks j (get j cfg) o differ
          (subst (λ x. Tells ks j x o) (get-put k j v cfg ∙ rw differ refl) h)
  ]

  pub get-visit_keys :
      (ks : List Text) (cfg : Config) (changed : Bool) (j : Text)
      → AllDistinct ks
      → get j (visit_keys change ks (cfg, changed)).0
        ≡ (if is_listed j ks then visited change j (get j cfg) else get j cfg)
  unfolding visit_keys
  get-visit_keys [] cfg changed j d = refl
  get-visit_keys (k ∷ ks) cfg changed j d = elim (Option-cases (change k (get k cfg))) [
    | inl e ↦ rw (e, visit_keys) (kept k ks cfg j _ d.0 e (get-visit_keys ks cfg changed j d.1))
    | inr (v, e) ↦
        rw (e, visit_keys)
          (replaced k ks cfg v j _ d.0 e (get-visit_keys ks (put k v cfg) true j d.1))
  ]

  visit_keys-true : (ks : List Text) (cfg : Config) → (visit_keys change ks (cfg, true)).1 ≡ true
  unfolding visit_keys
  visit_keys-true [] cfg = refl
  visit_keys-true (k ∷ ks) cfg = elim (Option-cases (change k (get k cfg))) [
    | inl e ↦ rw (e, visit_keys) (visit_keys-true ks cfg)
    | inr (v, e) ↦ rw (e, visit_keys) (visit_keys-true ks (put k v cfg))
  ]

  -- the object that is kept when the flag says that nothing changed
  visit_keys-unchanged :
      (ks : List Text) (cfg : Config)
      → (if (visit_keys change ks (cfg, false)).1
          then (visit_keys change ks (cfg, false)).0
          else cfg)
        ≡ (visit_keys change ks (cfg, false)).0
  unfolding visit_keys
  visit_keys-unchanged [] cfg = refl
  visit_keys-unchanged (k ∷ ks) cfg = elim (Option-cases (change k (get k cfg))) [
    | inl e ↦ rw (e, visit_keys) (visit_keys-unchanged ks cfg)
    | inr (v, e) ↦ rw (e, visit_keys) (rw (visit_keys-true ks (put k v cfg)) refl)
  ]

  pub visit_keys-idle :
      (ks : List Text) (cfg : Config) (changed : Bool)
      → ((j : Text) → is_listed j ks ≡ true → change j (get j cfg) ≡ none)
      → visit_keys change ks (cfg, changed) ≡ (cfg, changed)
  unfolding visit_keys
  visit_keys-idle [] cfg changed h = refl
  visit_keys-idle (k ∷ ks) cfg changed h =
      rw (h k (rw (text_eq_refl k) refl), visit_keys)
        (visit_keys-idle ks cfg changed (λ j e. h j (ground (arith, e))))

-- what `json.Unmarshal` puts into a map that is empty
abbrev pub config_of : Raw → Config
config_of Raw.empty = []
config_of Raw.not_object = []
config_of (Raw.object cfg) = cfg

pub secret_keys-AllDistinct : AllDistinct secret_config_keys
secret_keys-AllDistinct = (refl, (refl, (refl, (refl, (refl, tt)))))

if-same : (b : Bool) (o : Option Value) → o ≡ (if b then o else o)
if-same true o = refl
if-same false o = refl

-- Every field after a rewriting of the secrets.
pub get-rewrite :
    (change : Text → Option Value → Option Value) (raw : Raw) (j : Text)
    → change j none ≡ none
    → get j (config_of (rewrite change raw).0)
      ≡ (if is_secret j then visited change j (get j (config_of raw)) else get j (config_of raw))
get-rewrite change Raw.empty j h = rw (h, visited) (if-same (is_secret j) none)
get-rewrite change Raw.not_object j h = rw (h, visited) (if-same (is_secret j) none)
get-rewrite change (Raw.object cfg) j h =
    ap (get j) (visit_keys-unchanged change secret_config_keys cfg)
    ∙ get-visit_keys change secret_config_keys cfg false j secret_keys-AllDistinct

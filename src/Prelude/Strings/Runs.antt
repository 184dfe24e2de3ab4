-- ===== src/Prelude/Strings/Runs.antt =====
-- Runs that are deleted, filters of characters, and texts that trimming leaves alone.
use Prim.Native.Nat.{ℕ}
use mathlib.Core.Path.{◌≡◌, refl, ap}
use mathlib.Core.Bool.{Bool, true, false, not}
use mathlib.Core.List.{[], ◌∷◌, ◌++◌, reverse, reverse-cons, reverse-reverse}
use native.Mathlib.Omega.{arith}
use agent_nexus.Prelude.Lists.{All, All-append, keep}
use agent_nexus.Prelude.Text.{Text, is_space, trim_left, trim_space}
use agent_nexus.Prelude.Strings.{is_digit, replace_runs}

pub replace_runs-keep :
    (p : ℕ → Bool) (open_run : Bool) (s : Text)
    → replace_runs p [] open_run s ≡ keep (λ c. not (p c)) s
replace_runs-keep p open_run [] = refl
replace_runs-keep p open_run (c ∷ s) =
    ground (arith, replace_runs-keep p true s, replace_runs-keep p false s)

pub All-keep : (p : ℕ → Bool) (s : Text) → All (λ c. p c ≡ true) (keep p s)
All-keep p [] = tt
All-keep p (c ∷ s) = ground (arith, All-keep p s)

pub keep-All : (p : ℕ → Bool) (s : Text) → All (λ c. p c ≡ true) s → keep p s ≡ s
keep-All p [] h = refl
keep-All p (c ∷ s) h = rw h.0 (ap (◌∷◌ c) (keep-All p s h.1))

pub keep-append : (p : ℕ → Bool) (s t : Text) → keep p (s ++ t) ≡ keep p s ++ keep p t
keep-append p [] t = refl
keep-append p (c ∷ s) t = ground (arith, keep-append p s t)

pub All-map : (P Q : ℕ → Type 0) (s : Text) → ((c : ℕ) → P c → Q c) → All P s → All Q s
All-map P Q [] f h = tt
All-map P Q (c ∷ s) f h = (f c h.0, All-map P Q s f h.1)

pub All-reverse : (P : ℕ → Type 0) (s : Text) → All P s → All P (reverse s)
All-reverse P [] h = tt
All-reverse P (c ∷ s) h =
    rw (reverse-cons c s) (All-append P (reverse s) (c ∷ []) (All-reverse P s h.1) (h.0, tt))

abbrev pub IsSpaceless : Text → Type 0
IsSpaceless s = All (λ c. is_space c ≡ false) s

trim_left-IsSpaceless : (s : Text) → IsSpaceless s → trim_left s ≡ s
unfolding trim_left
trim_left-IsSpaceless [] h = refl
trim_left-IsSpaceless (c ∷ s) h = rw h.0 refl

pub trim_space-IsSpaceless : (s : Text) → IsSpaceless s → trim_space s ≡ s
unfolding trim_space
trim_space-IsSpaceless s h =
    rw
      (
        trim_left-IsSpaceless s h,
        trim_left-IsSpaceless (reverse s) (All-reverse (λ c. is_space c ≡ false) s h),
      )
      (reverse-reverse s)

pub is_digit-is_space : (c : ℕ) → is_digit c ≡ true → is_space c ≡ false
unfolding is_space
is_digit-is_space c h = ground arith

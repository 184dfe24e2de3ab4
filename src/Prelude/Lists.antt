-- ===== src/Prelude/Lists.antt =====
-- Lists measured by native numbers, and membership as a Boolean test and as a predicate.
use Prim.Native.Nat.{ℕ, zero, suc, ◌+◌, ◌≤◌}
use mathlib.Core.Path.{◌≡◌, refl}
use mathlib.Core.Logic.{◌⊎◌, inl, inr}
use mathlib.Core.Bool.{Bool, true, false, ◌||◌}
use mathlib.Core.List.{List, [], ◌∷◌, ◌++◌}
use mathlib.Core.Option.{Option, none, some}
use native.Mathlib.Omega.{arith}
use agent_nexus.Prelude.Tests.{ltb, ◌==◌, if◌then◌else◌}

module _ {ℓ} {A : Type ℓ} where
  abbrev pub length : List A → ℕ
  length [] = 0
  length (x ∷ xs) = suc (length xs)

  abbrev pub get_elem? : List A → ℕ → Option A
  get_elem? [] i = none
  get_elem? (x ∷ xs) zero = some x
  get_elem? (x ∷ xs) (suc i) = get_elem? xs i

  -- A write out of bounds changes nothing.
  abbrev pub set : List A → ℕ → A → List A
  set [] i v = []
  set (x ∷ xs) zero v = v ∷ xs
  set (x ∷ xs) (suc i) v = x ∷ set xs i v

  abbrev pub take : ℕ → List A → List A
  take zero xs = []
  take (suc n) [] = []
  take (suc n) (x ∷ xs) = x ∷ take n xs

  abbrev pub drop : ℕ → List A → List A
  drop zero xs = xs
  drop (suc n) [] = []
  drop (suc n) (x ∷ xs) = drop n xs

  pub length-append : (xs ys : List A) → length (xs ++ ys) ≡ length xs + length ys
  length-append [] ys = omega arith
  length-append (x ∷ xs) ys = omega (arith, length-append xs ys)

-- The elements that pass a Boolean test, in order.
abbrev pub keep {ℓ} : {A : Type ℓ} → (A → Bool) → List A → List A
keep p [] = []
keep p (x ∷ xs) = let rest = keep p xs in if p x then x ∷ rest else rest

-- `member n l` is the Boolean membership test of a set of ids.
abbrev pub member : ℕ → List ℕ → Bool
member n [] = false
member n (x ∷ xs) = x == n || member n xs

-- Membership with its witness kept, by recursion.
abbrev pub In : {A : Type 0} → A → List A → Type 0
In a [] = ⊥
In a (x ∷ xs) = (x ≡ a) ⊎ In a xs

abbrev pub All {ℓ κ} : {A : Type ℓ} → (A → Type κ) → List A → Type κ
All P [] = Unit
All P (x ∷ xs) = P x × All P xs

pub All-append {ℓ κ} :
    {A : Type ℓ} (P : A → Type κ) (xs ys : List A) → All P xs → All P ys → All P (xs ++ ys)
All-append P [] ys hx hy = hy
All-append P (x ∷ xs) ys hx hy = (hx.0, All-append P xs ys hx.1 hy)

pub In-append_left : {A : Type 0} (a : A) (xs ys : List A) → In a xs → In a (xs ++ ys)
In-append_left a [] ys h = absurd h
In-append_left a (x ∷ xs) ys (inl e) = inl e
In-append_left a (x ∷ xs) ys (inr h) = inr (In-append_left a xs ys h)

pub In-append_right : {A : Type 0} (a : A) (xs ys : List A) → In a ys → In a (xs ++ ys)
In-append_right a [] ys h = h
In-append_right a (x ∷ xs) ys h = inr (In-append_right a xs ys h)

pub member-append : (x : ℕ) (xs ys : List ℕ) → member x (xs ++ ys) ≡ (member x xs || member x ys)
member-append x [] ys = refl
member-append x (z ∷ xs) ys = ground (arith, member-append x xs ys)

pub In-keep : {A : Type 0} (p : A → Bool) (a : A) (xs : List A) → In a (keep p xs) → In a xs
In-keep p a [] h = h
In-keep p a (x ∷ xs) h = ground (arith, In-keep p a xs)

pub List-cases {ℓ} : {A : Type ℓ} (l : List A) → (l ≡ []) ⊎ ((x : A) × (xs : List A) × (l ≡ x ∷ xs))
List-cases [] = inl refl
List-cases (x ∷ xs) = inr (x, xs, refl)

abbrev pub bit : Bool → ℕ
bit true = 1
bit false = 0

-- How many elements pass a Boolean test.
abbrev pub count {ℓ} : {A : Type ℓ} → (A → Bool) → List A → ℕ
count p [] = 0
count p (x ∷ xs) = bit (p x) + count p xs

pub count-set {ℓ} :
    {A : Type ℓ} (p : A → Bool) (l : List A) (i : ℕ) (x y : A)
    → get_elem? l i ≡ some x
    → count p (set l i y) + bit (p x) ≡ count p l + bit (p y)
count-set p [] i x y h = ground arith
count-set p (z ∷ l) zero x y h = ground arith
count-set p (z ∷ l) (suc i) x y h = omega (arith, count-set p l i x y h)

pub count-get_elem? {ℓ} :
    {A : Type ℓ} (p : A → Bool) (l : List A) (i : ℕ) (x : A)
    → get_elem? l i ≡ some x
    → bit (p x) ≤ count p l
count-get_elem? p [] i x h = ground arith
count-get_elem? p (z ∷ l) zero x h = ground arith
count-get_elem? p (z ∷ l) (suc i) x h = omega (arith, count-get_elem? p l i x h)

pub get_elem?-set {ℓ} :
    {A : Type ℓ} (l : List A) (i j : ℕ) (y : A)
    → get_elem? (set l i y) j
      ≡ (if i == j then (if ltb i (length l) then some y else none) else get_elem? l j)
get_elem?-set [] i j y = ground arith
get_elem?-set (z ∷ l) zero zero y = ground arith
get_elem?-set (z ∷ l) zero (suc j) y = ground arith
get_elem?-set (z ∷ l) (suc i) zero y = ground arith
get_elem?-set (z ∷ l) (suc i) (suc j) y = ground (arith, get_elem?-set l i j y)

pub All-set {ℓ κ} :
    {A : Type ℓ} (P : A → Type κ) (l : List A) (i : ℕ) (y : A) → All P l → P y → All P (set l i y)
All-set P [] i y h hy = h
All-set P (x ∷ l) zero y h hy = (hy, h.1)
All-set P (x ∷ l) (suc i) y h hy = (h.0, All-set P l i y h.1 hy)

pub All-get_elem? {ℓ κ} :
    {A : Type ℓ} (P : A → Type κ) (l : List A) (i : ℕ) (x : A)
    → All P l
    → get_elem? l i ≡ some x
    → P x
All-get_elem? P [] i x h e = ground arith
All-get_elem? P (z ∷ l) zero x h e = ground arith
All-get_elem? P (z ∷ l) (suc i) x h e = All-get_elem? P l i x h.1 e

pub count-none {ℓ} :
    {A : Type ℓ} (q p : A → Bool) (l : List A)
    → ((a : A) → q a ≡ true → p a ≡ false)
    → All (λ a. q a ≡ true) l
    → count p l ≡ 0
count-none q p [] k h = refl
count-none q p (x ∷ l) k (hx, h) = ground (arith, k x hx, count-none q p l k h)

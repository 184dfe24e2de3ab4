-- ===== src/Provider/Truncation.antt =====
-- What `TruncateMessages` of services/api/internal/provider/tokens.go keeps.
use agent_nexus.Prelude.{
  ℕ, zero, suc, ◌+◌, ◌≤◌, ◌<◌, ◌≡◌, ◌⊎◌, inl, inr, refl, ◌∙◌, ap, subst, true, false, List, [], ◌∷◌,
  ◌++◌, length, length-append, take, drop, leb, Bool-cases, arith, All,
}
use agent_nexus.Prelude.Text.{codes}
use agent_nexus.Prelude.Text.Laws.{text_eq_sound, text_eq_refl}
use agent_nexus.Provider.{Message}
use agent_nexus.Provider.Tokens.{
  token_budget, is_system, first_non_system, remove_at, estimate_tokens, is_over, drop_oldest,
  truncate_to, truncate_messages,
}

remove_at-append :
    (p xs : List Message) (x : Message) → remove_at (length p) (p ++ x ∷ xs) ≡ p ++ xs
unfolding remove_at
remove_at-append [] xs x = refl
remove_at-append (y ∷ p) xs x = ap (λ l. y ∷ l) (remove_at-append p xs x)

module _ (size : List Message → ℕ) (budget : ℕ) where
  -- How many of `rest` are dropped after the messages `p`: the least number that fits, or all but one.
  pub record IsCut (p rest : List Message) (d : ℕ) (out : List Message × ℕ) : Type 0 where
    pub dropped : ℕ
    pub cut : out ≡ (p ++ drop dropped rest, dropped + d)
    pub fits :
        (estimate_tokens size (p ++ drop dropped rest) ≤ budget) ⊎ (length rest ≤ suc dropped)
    pub least : (j : ℕ) → j < dropped → budget < estimate_tokens size (p ++ drop j rest)

  kept :
      (p rest : List Message) (d : ℕ)
      → is_over size budget (length p) (p ++ rest) ≡ false
      → IsCut p rest d (p ++ rest, d)
  kept p rest d h = record {
    dropped = 0;
    cut = ap (λ n. (p ++ rest, n)) (omega arith);
    fits = ground (arith, length-append p rest);
    least = λ j less. absurd (omega (arith, less));
  }

  none_over : (p : List Message) → is_over size budget (length p) (p ++ []) ≡ false
  none_over p = ground (arith, length-append p [])

  over_budget :
      (k : ℕ) (ms : List Message)
      → is_over size budget k ms ≡ true
      → budget < estimate_tokens size ms
  over_budget k ms h = ground arith

  least_more :
      (p xs : List Message) (x : Message) (n : ℕ)
      → budget < estimate_tokens size (p ++ x ∷ xs)
      → ((j : ℕ) → j < n → budget < estimate_tokens size (p ++ drop j xs))
      → (j : ℕ) → j < suc n
      → budget < estimate_tokens size (p ++ drop j (x ∷ xs))
  least_more p xs x n over k zero less = over
  least_more p xs x n over k (suc j) less = k j (omega (arith, less))

  one_more :
      (p xs : List Message) (x : Message) (d : ℕ) (out : List Message × ℕ)
      → is_over size budget (length p) (p ++ x ∷ xs) ≡ true
      → IsCut p xs (suc d) out
      → IsCut p (x ∷ xs) d out
  one_more p xs x d out over h = record {
    dropped = suc h.dropped;
    cut = h.cut ∙ ap (λ n. (p ++ drop h.dropped xs, n)) (omega arith);
    fits = ground (arith, h.fits);
    least = least_more p xs x h.dropped (over_budget (length p) (p ++ x ∷ xs) over) h.least;
  }

  drop_oldest-IsCut :
      (fuel : ℕ) (p rest : List Message) (d : ℕ)
      → length rest ≤ fuel
      → IsCut p rest d (drop_oldest size fuel budget (length p) (p ++ rest) d)
  unfolding drop_oldest
  drop_oldest-IsCut zero p [] d h = kept p [] d (none_over p)
  drop_oldest-IsCut zero p (x ∷ xs) d h = absurd (omega (arith, h))
  drop_oldest-IsCut (suc fuel) p [] d h = rw (none_over p) (kept p [] d (none_over p))
  drop_oldest-IsCut (suc fuel) p (x ∷ xs) d h =
      elim (Bool-cases (is_over size budget (length p) (p ++ x ∷ xs))) [
        | inl over ↦
            rw (over, remove_at-append p xs x)
              (one_more p xs x d (drop_oldest size fuel budget (length p) (p ++ xs) (suc d)) over
                (drop_oldest-IsCut fuel p xs (suc d) (omega (arith, h))))
        | inr fine ↦ rw fine (kept p (x ∷ xs) d fine)
      ]

  -- nothing is dropped
  whole :
      (p rest : List Message)
      → (estimate_tokens size (p ++ rest) ≤ budget) ⊎ (length rest ≤ 1)
      → IsCut p rest 0 (p ++ rest, 0)
  whole p rest h = record {
    dropped = 0;
    cut = refl;
    fits = h;
    least = λ j less. absurd (omega (arith, less));
  }

  truncate_to-IsCut :
      (p rest : List Message) → IsCut p rest 0 (truncate_to size budget (length p) (p ++ rest))
  unfolding truncate_to
  truncate_to-IsCut p rest =
      let long = length-append p rest in
      elim (Bool-cases (leb (length (p ++ rest)) 0)) [
        | inl none ↦ rw none (whole p rest (inr (ground (arith, long, none))))
        | inr some ↦ elim (Bool-cases (leb (estimate_tokens size (p ++ rest)) budget)) [
          | inl fine ↦ rw (some, fine) (whole p rest (inl (ground (arith, fine))))
          | inr over ↦ elim (Bool-cases (leb (length (p ++ rest)) (suc (length p)))) [
            | inl short ↦ rw (some, over, short) (whole p rest (inr (ground (arith, long, short))))
            | inr many ↦
                rw (some, over, many)
                  (drop_oldest-IsCut (length (p ++ rest)) p rest 0 (omega (arith, long)))
          ]
        ]
      ]

-- the leading system messages, and the rest
first_non_system-split :
    (ms : List Message)
    → (take (first_non_system ms) ms ++ drop (first_non_system ms) ms ≡ ms)
      × (length (take (first_non_system ms) ms) ≡ first_non_system ms)
unfolding first_non_system
first_non_system-split [] = (refl, refl)
first_non_system-split (m ∷ ms) = elim (Bool-cases (is_system m)) [
  | inl system ↦
      rw system (
        let (parts, len) = first_non_system-split ms in (ap (λ l. m ∷ l) parts, omega (arith, len)))
  | inr other ↦ rw other (refl, refl)
]

other_role : (m : Message) → is_system m ≡ false → m.role ≡ codes "system" → ⊥
other_role m other same = ground (arith, same, text_eq_refl (codes "system"))

-- The messages begin with one of another role, or are none.
abbrev pub NoSystemFirst : List Message → Type 0
NoSystemFirst [] = Unit
NoSystemFirst (m ∷ ms) = ¬ (m.role ≡ codes "system")

first_non_system-system :
    (ms : List Message)
    → All (λ (m : Message). m.role ≡ codes "system") (take (first_non_system ms) ms)
      × NoSystemFirst (drop (first_non_system ms) ms)
unfolding first_non_system
first_non_system-system [] = (tt, tt)
first_non_system-system (m ∷ ms) = elim (Bool-cases (is_system m)) [
  | inl is ↦ rw is (
      let (front, rest) = first_non_system-system ms in
      ((text_eq_sound m.role (codes "system") is, front), rest))
  | inr other ↦ rw other (tt, λ same. other_role m other same)
]

-- Truncation keeps exactly the messages of role system that come before every other one, and a suffix
-- of the rest, and says how many messages it dropped. What it keeps fits the budget or has at most one
-- message besides those; and no smaller number of dropped messages fits.
pub truncate_messages-IsCut :
    (size : List Message → ℕ) (window max_output : ℕ) (ms : List Message)
    → let k = first_non_system ms in
      IsCut size
        (token_budget window max_output)
        (take k ms)
        (drop k ms)
        0
        (truncate_messages size window max_output ms)
      × All (λ (m : Message). m.role ≡ codes "system") (take k ms)
      × NoSystemFirst (drop k ms)
unfolding truncate_messages
truncate_messages-IsCut size window max_output ms =
    let k = first_non_system ms in
    let budget = token_budget window max_output in
    let (parts, front) = first_non_system-split ms in
    (
      subst (λ l. IsCut size budget (take k ms) (drop k ms) 0 (truncate_to size budget k l)) parts
          (subst
            (λ i.
              IsCut size budget (take k ms) (drop k ms) 0
                (truncate_to size budget i (take k ms ++ drop k ms)))
            front (truncate_to-IsCut size budget (take k ms) (drop k ms))),
      (first_non_system-system ms).0,
      (first_non_system-system ms).1,
    )

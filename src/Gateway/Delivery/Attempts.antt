-- ===== src/Gateway/Delivery/Attempts.antt =====
-- How the attempts to post a message end (services/api/internal/gateway/service.go, `SendWhatsApp`).
use agent_nexus.Prelude.{
  ℕ, zero, suc, ◌+◌, ◌≤◌, ◌<◌, ◌≡◌, refl, sym, subst, ◌⊎◌, inl, inr, Bool, true, false, arith, ◌==◌,
  ==_iff, Bool-cases,
}
use agent_nexus.Gateway.Delivery.{AdapterAnswer, Adapter, post_attempts, waits_in_vain}

-- The attempt at which the adapter took the message, after attempts at which it was still connecting.
pub record Took (a : Adapter) (from posts : ℕ) : Type 0 where
  pub last : ℕ
  pub counted : posts ≡ last + 1
  pub started : from ≤ last
  pub taken : a.answers last ≡ AdapterAnswer.posted
  pub connecting : (j : ℕ) → from ≤ j → j < last → a.answers j ≡ AdapterAnswer.connecting

-- No attempt that was made was taken, and it ended at the limit of the attempts, when the context was
-- done before the next one, or with an attempt that the adapter refused.
pub record Missed (a : Adapter) (from limit posts : ℕ) : Type 0 where
  pub untaken : (j : ℕ) → from ≤ j → j < posts → ¬ (a.answers j ≡ AdapterAnswer.posted)
  pub ended :
      (posts ≡ limit)
      ⊎ ((0 < posts) × (a.is_done posts ≡ true))
      ⊎ ((last : ℕ) × (posts ≡ last + 1) × (a.answers last ≡ AdapterAnswer.refused))

abbrev pub TookIf : Adapter → ℕ → ℕ → Bool × ℕ → Type 0
TookIf a from limit (true, posts) = Took a from posts
TookIf a from limit (false, posts) = Missed a from limit posts

Took-earlier :
    (a : Adapter) (from posts : ℕ)
    → a.answers from ≡ AdapterAnswer.connecting
    → Took a (from + 1) posts
    → Took a from posts
Took-earlier a from posts e t = record {
  last = t.last;
  counted = t.counted;
  started = omega (arith, t.started);
  taken = t.taken;
  connecting = λ j h g. earlier j h g;
}
  where
    earlier : (j : ℕ) → from ≤ j → j < t.last → a.answers j ≡ AdapterAnswer.connecting
    earlier j h g = elim (Bool-cases (from == j)) [
      | inl same ↦ rw (sym ((==_iff from j).0 same)) e
      | inr other ↦ t.connecting j (ground arith) g
    ]

Missed-earlier :
    (a : Adapter) (from limit posts : ℕ)
    → a.answers from ≡ AdapterAnswer.connecting
    → Missed a (from + 1) limit posts
    → Missed a from limit posts
Missed-earlier a from limit posts e t = record { untaken = λ j h g. earlier j h g; ended = t.ended }
  where
    earlier : (j : ℕ) → from ≤ j → j < posts → ¬ (a.answers j ≡ AdapterAnswer.posted)
    earlier j h g = elim (Bool-cases (from == j)) [
      | inl same ↦
          rw (sym ((==_iff from j).0 same))
            (λ (p : a.answers from ≡ AdapterAnswer.posted). cc (e, p))
      | inr other ↦ t.untaken j (ground arith) g
    ]

TookIf-earlier :
    (a : Adapter) (from limit : ℕ) (r : Bool × ℕ)
    → a.answers from ≡ AdapterAnswer.connecting
    → TookIf a (from + 1) limit r
    → TookIf a from limit r
TookIf-earlier a from limit (true, posts) e t = Took-earlier a from posts e t
TookIf-earlier a from limit (false, posts) e t = Missed-earlier a from limit posts e t

-- an attempt that the adapter refused
refused_at :
    (a : Adapter) (from limit : ℕ)
    → a.answers from ≡ AdapterAnswer.refused
    → Missed a from limit (from + 1)
refused_at a from limit e = record { untaken = untaken; ended = inr (inr (from, refl, e)) }
  where
    untaken : (j : ℕ) → from ≤ j → j < from + 1 → ¬ (a.answers j ≡ AdapterAnswer.posted)
    untaken j h g p =
        let same : j ≡ from = omega (arith, h, g) in
        let taken = subst (λ i. a.answers i ≡ AdapterAnswer.posted) same p in cc (e, taken)

answer_step :
    (a : Adapter) (left from : ℕ) (answer : AdapterAnswer)
    → a.answers from ≡ answer
    → TookIf a (from + 1) (from + suc left) (post_attempts a left (from + 1))
    → TookIf a from (from + suc left) (elim answer [
      | AdapterAnswer.posted ↦ (true, from + 1)
      | AdapterAnswer.connecting ↦ post_attempts a left (from + 1)
      | AdapterAnswer.refused ↦ (false, from + 1)
    ])
answer_step a left from AdapterAnswer.posted e t = record {
  last = from;
  counted = refl;
  started = omega arith;
  taken = e;
  connecting = λ j h g. absurd (omega arith);
}
answer_step a left from AdapterAnswer.connecting e t =
    TookIf-earlier a from (from + suc left) (post_attempts a left (from + 1)) e t
answer_step a left from AdapterAnswer.refused e t = refused_at a from (from + suc left) e

waits_in_vain-done :
    (a : Adapter) (n : ℕ) → waits_in_vain a n ≡ true → (0 < n) × (a.is_done n ≡ true)
waits_in_vain-done a zero h = ground arith
waits_in_vain-done a (suc n) h = (omega arith, h)

-- no attempt is made
none_made :
    (a : Adapter) (from limit : ℕ)
    → (from ≡ limit) ⊎ ((0 < from) × (a.is_done from ≡ true))
    → Missed a from limit from
none_made a from limit h = record {
  untaken = λ j g l. absurd (omega (arith, g, l));
  ended = elim h [ inl e ↦ inl e | inr e ↦ inr (inl e) ];
}

pub post_attempts-TookIf :
    (a : Adapter) (left from : ℕ) → TookIf a from (from + left) (post_attempts a left from)
unfolding post_attempts
post_attempts-TookIf a zero from = none_made a from (from + 0) (inl (omega arith))
post_attempts-TookIf a (suc left) from = elim (Bool-cases (waits_in_vain a from)) [
  | inl e ↦ rw e (none_made a from (from + suc left) (inr (waits_in_vain-done a from e)))
  | inr e ↦ rw e (
      answer_step a left from (a.answers from) refl (
        subst (λ n. TookIf a (from + 1) n (post_attempts a left (from + 1))) (omega arith)
          (post_attempts-TookIf a left (from + 1))))
]

pub post_attempts-le : (a : Adapter) (left from : ℕ) → (post_attempts a left from).1 ≤ from + left
unfolding post_attempts
post_attempts-le a zero from = omega arith
post_attempts-le a (suc left) from = ground (arith, post_attempts-le a left (from + 1))

waits_in_vain-live : (a : Adapter) (n : ℕ) → 0 < n → waits_in_vain a n ≡ false → a.is_done n ≡ false
waits_in_vain-live a zero p h = absurd (omega (arith, p))
waits_in_vain-live a (suc n) p h = h

-- an attempt after this one is one of the later ones
later_posts :
    (a : Adapter) (left from j : ℕ)
    → waits_in_vain a from ≡ false
    → from < j
    → j < (post_attempts a (suc left) from).1
    → j < (post_attempts a left (from + 1)).1
unfolding post_attempts
later_posts a left from j e h l = ground (arith, e, h, l)

pub post_attempts-live :
    (a : Adapter) (left from j : ℕ)
    → from ≤ j
    → 0 < j
    → j < (post_attempts a left from).1
    → a.is_done j ≡ false
unfolding post_attempts
post_attempts-live a zero from j h p l = absurd (omega (arith, h, l))
post_attempts-live a (suc left) from j h p l = elim (Bool-cases (waits_in_vain a from)) [
  | inl e ↦ absurd (ground (arith, e, h, l))
  | inr e ↦ elim (Bool-cases (from == j)) [
    | inl same ↦
        let first = (==_iff from j).0 same in
        waits_in_vain-live a j p (subst (λ i. waits_in_vain a i ≡ false) first e)
    | inr other ↦
        post_attempts-live a left (from + 1) j (ground (arith, other)) p
          (later_posts a left from j e (ground (arith, other)) l)
  ]
]

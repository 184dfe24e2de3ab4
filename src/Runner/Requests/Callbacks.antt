-- ===== src/Runner/Requests/Callbacks.antt =====
-- When a callback of the session runner is delivered (services/runner/main.go).
use agent_nexus.Prelude.{
  ℕ, zero, suc, ◌+◌, ◌*◌, ◌≤◌, ◌<◌, ◌↔◌, ◌≡◌, refl, sym, ap, ◌∙◌, ◌⊎◌, inl, inr, true, arith,
}
use agent_nexus.Runner.Requests.{
  Response, Verdict, verdict_of, Callback, after_attempt, deliver_from, deliver_callback,
}

-- a 2xx status
abbrev pub IsSuccess : Response → Type 0
IsSuccess Response.not_built = ⊥
IsSuccess Response.no_response = ⊥
IsSuccess (Response.status code) = (200 ≤ code) × (code < 300)

-- no response at all, or a status that is neither 2xx nor 4xx, or 408 (request timeout) or 429 (too many
-- requests)
abbrev pub MayRepeat : Response → Type 0
MayRepeat Response.not_built = ⊥
MayRepeat Response.no_response = Unit
MayRepeat (Response.status code) =
    (code < 200) ⊎ ((300 ≤ code) × (code < 400)) ⊎ (500 ≤ code) ⊎ (code ≡ 408) ⊎ (code ≡ 429)

-- one of the first n attempts succeeds, and those before it may be repeated
abbrev pub IsAccepted : ℕ → (ℕ → Response) → Type 0
IsAccepted n answers =
    (k : ℕ) × (k < n) × IsSuccess (answers k) × ((j : ℕ) → j < k → MayRepeat (answers j))

delivered-IsSuccess : (r : Response) → (verdict_of r ≡ Verdict.delivered) ↔ IsSuccess r
delivered-IsSuccess Response.not_built = (λ h. ground arith, λ h. absurd h)
delivered-IsSuccess Response.no_response = (λ h. ground arith, λ h. absurd h)
delivered-IsSuccess (Response.status code) = (λ h. ground arith, λ h. ground arith)

again-MayRepeat : (r : Response) → (verdict_of r ≡ Verdict.again) ↔ MayRepeat r
again-MayRepeat Response.not_built = (λ h. ground arith, λ h. absurd h)
again-MayRepeat Response.no_response = (λ h. tt, λ h. refl)
again-MayRepeat (Response.status code) = (λ h. ground arith, λ h. ground arith)

Verdict-cases :
    (v : Verdict) → (v ≡ Verdict.delivered) ⊎ ((v ≡ Verdict.rejected) ⊎ (v ≡ Verdict.again))
Verdict-cases Verdict.delivered = inl refl
Verdict-cases Verdict.rejected = inr (inl refl)
Verdict-cases Verdict.again = inr (inr refl)

IsAccepted-later :
    (n : ℕ) (answers : ℕ → Response)
    → MayRepeat (answers 0)
    → IsAccepted n (λ k. answers (suc k))
    → IsAccepted (suc n) answers
IsAccepted-later n answers e (k, lt, d, before) = (suc k, omega arith, d, earlier)
  where
    earlier : (j : ℕ) → j < suc k → MayRepeat (answers j)
    earlier zero h = e
    earlier (suc j) h = before j (omega arith)

after_rejected :
    {v : Verdict} (made slept : ℕ) (later : Callback)
    → v ≡ Verdict.rejected
    → (after_attempt v made slept later).is_delivered ≡ true
    → ⊥
after_rejected {v} made slept later e h =
    ground (arith, sym (ap (λ u. (after_attempt u made slept later).is_delivered) e) ∙ h)

after_again :
    {v : Verdict} (made slept : ℕ) (later : Callback)
    → v ≡ Verdict.again
    → (after_attempt v made slept later).is_delivered ≡ true
    → later.is_delivered ≡ true
after_again {v} made slept later e h =
    sym (ap (λ u. (after_attempt u made slept later).is_delivered) e) ∙ h

deliver_from-IsAccepted :
    (n : ℕ) (answers : ℕ → Response) (made slept backoff : ℕ)
    → (deliver_from n answers made slept backoff).is_delivered ≡ true
    → IsAccepted n answers
unfolding deliver_from
deliver_from-IsAccepted zero answers made slept backoff h = ground (arith)
deliver_from-IsAccepted (suc n) answers made slept backoff h =
    (let next : ℕ → Response = λ k. answers (suc k) in
      let later = deliver_from n next (made + 1) (slept + backoff) (2 * backoff) in
      elim (Verdict-cases (verdict_of (answers 0))) [
        | inl e ↦
            (0, omega arith, (delivered-IsSuccess (answers 0)).0 e, λ j lt. absurd (omega arith))
        | inr (inl e) ↦ absurd (after_rejected (made + 1) slept later e h)
        | inr (inr e) ↦ IsAccepted-later n answers ((again-MayRepeat (answers 0)).0 e) (
            deliver_from-IsAccepted n next (made + 1) (slept + backoff) (2 * backoff)
              (after_again (made + 1) slept later e h))
      ])

IsAccepted-deliver_from :
    (n : ℕ) (answers : ℕ → Response) (made slept backoff : ℕ)
    → IsAccepted n answers
    → (deliver_from n answers made slept backoff).is_delivered ≡ true
unfolding deliver_from
IsAccepted-deliver_from zero answers made slept backoff (k, lt, d, before) = absurd (omega arith)
IsAccepted-deliver_from (suc n) answers made slept backoff (zero, lt, d, before) =
    rw ((delivered-IsSuccess (answers 0)).1 d, deliver_from) refl
IsAccepted-deliver_from (suc n) answers made slept backoff (suc k, lt, d, before) =
    rw ((again-MayRepeat (answers 0)).1 (before 0 (omega arith)), deliver_from)
      (IsAccepted-deliver_from n (λ i. answers (suc i)) (made + 1) (slept + backoff) (2 * backoff)
        (k, omega arith, d, λ j h. before (suc j) (omega arith)))

-- b doubled n times
abbrev doubled : ℕ → ℕ → ℕ
doubled zero b = b
doubled (suc n) b = doubled n (2 * b)

doubled-le : (n b : ℕ) → b ≤ doubled n b
doubled-le zero b = omega arith
doubled-le (suc n) b = (let h = doubled-le n (2 * b) in omega arith)

deliver_from-slept :
    (n : ℕ) (answers : ℕ → Response) (made slept backoff : ℕ)
    → (deliver_from n answers made slept backoff).slept + backoff ≤ slept + doubled n backoff
unfolding deliver_from
deliver_from-slept zero answers made slept backoff = omega arith
deliver_from-slept (suc n) answers made slept backoff =
    (let h = doubled-le n (2 * backoff) in
      let later =
        deliver_from-slept n (λ k. answers (suc k)) (made + 1) (slept + backoff) (2 * backoff) in
      elim (Verdict-cases (verdict_of (answers 0))) [
        | inl e ↦ rw (e, deliver_from) (omega arith)
        | inr (inl e) ↦ rw (e, deliver_from) (omega arith)
        | inr (inr e) ↦ rw (e, deliver_from) (omega arith)
      ])

-- A callback counts as delivered exactly when one of its first six attempts is answered by a status from
-- 200 on and below 300, and each attempt before it had no response, or a status that is neither 2xx nor 4xx, or 408 or 429; the
-- loop sleeps for at most 126 seconds.
pub deliver_callback_iff :
    (answers : ℕ → Response)
    → (((deliver_callback answers).is_delivered ≡ true) ↔ IsAccepted 6 answers)
      × ((deliver_callback answers).slept ≤ 126)
unfolding deliver_callback
deliver_callback_iff answers = (
  (deliver_from-IsAccepted 6 answers 0 0 2, IsAccepted-deliver_from 6 answers 0 0 2),
  (let h = deliver_from-slept 6 answers 0 0 2 in omega arith),
)

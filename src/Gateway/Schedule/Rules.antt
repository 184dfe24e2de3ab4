-- ===== src/Gateway/Schedule/Rules.antt =====
-- What a next time owes to the rule of its message (services/api/internal/api/handler/gateway.go,
-- `nextScheduledFireAt`).
use agent_nexus.Prelude.{
  ℕ, ◌≡◌, refl, subst, inl, inr, Bool, true, false, ◌&&◌, Option, none, some, arith, leb, ltb,
  Bool-cases,
}
use agent_nexus.Gateway.Calendar.{Time, add_days, is_weekend}
use agent_nexus.Gateway.Schedule.{
  Frequency, Rule, interval_of, skip_weekend, step_of, is_past, unless_past, next_scheduled_fire_at,
}

skip_weekend-weekday : (t : Time) → is_weekend (skip_weekend 2 t) ≡ false
skip_weekend-weekday t = ground arith

abbrev is_weekdays : Frequency → Bool
is_weekdays Frequency.weekdays = true
is_weekdays _ = false

-- What a rule says of a time that is the next after `count` occurrences.
abbrev pub Respects : Rule → ℕ → Option Time → Type 0
Respects r count none = Unit
Respects r count (some t) =
    (is_past r.end_at t ≡ false)
    × ((ltb 0 r.max_occurrences && leb r.max_occurrences count) ≡ false)
    × ((is_weekdays r.frequency && is_weekend t) ≡ false)

module _ (beyond : Frequency → ℕ → Time → Time) where
  step_of-weekday :
      (f : Frequency) (n : ℕ) (from t : Time)
      → step_of beyond f n from ≡ some t
      → (is_weekdays f && is_weekend t) ≡ false
  step_of-weekday Frequency.weekdays n from t e =
      subst
        (λ (o : Option Time). elim o as (λ x. Type 0) [
          | none ↦ Unit
          | some u ↦ is_weekend u ≡ false
        ])
        e (skip_weekend-weekday (add_days 1 from))
  step_of-weekday Frequency.daily n from t e = refl
  step_of-weekday Frequency.weekly n from t e = refl
  step_of-weekday Frequency.monthly n from t e = refl
  step_of-weekday Frequency.yearly n from t e = refl
  step_of-weekday Frequency.unknown n from t e = refl

  unless_past-Respects :
      (r : Rule) (from : Time) (count : ℕ) (o : Option Time)
      → (ltb 0 r.max_occurrences && leb r.max_occurrences count) ≡ false
      → step_of beyond r.frequency (interval_of r) from ≡ o
      → Respects r count (unless_past r.end_at o)
  unless_past-Respects r from count none h e = tt
  unless_past-Respects r from count (some t) h e = elim (Bool-cases (is_past r.end_at t)) [
    | inl f ↦ rw f tt
    | inr f ↦ rw f (f, h, step_of-weekday r.frequency (interval_of r) from t e)
  ]

  -- A next time is not past the end of the series, comes only while the number of occurrences is below
  -- the maximum, and for a rule of weekdays it is no Saturday or Sunday.
  pub next_scheduled_fire_at-Respects :
      (r : Rule) (from : Time) (count : ℕ)
      → Respects r count (next_scheduled_fire_at beyond (some r) from count)
  unfolding next_scheduled_fire_at
  next_scheduled_fire_at-Respects r from count =
      elim (Bool-cases (ltb 0 r.max_occurrences && leb r.max_occurrences count)) [
        | inl e ↦ rw e tt
        | inr e ↦ rw e (
            unless_past-Respects r from count (step_of beyond r.frequency (interval_of r) from) e
              refl)
      ]

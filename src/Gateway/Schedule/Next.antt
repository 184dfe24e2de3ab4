-- ===== src/Gateway/Schedule/Next.antt =====
-- The next time of a recurring message (services/api/internal/api/handler/gateway.go,
-- `nextScheduledFireAt` and the loop that catches up).
use agent_nexus.Prelude.{
  ℕ, zero, suc, ◌+◌, ◌*◌, ◌%◌, ◌≤◌, ◌<◌, ◌≡◌, refl, ◌∙◌, inl, inr, true, false, ◌&&◌, Option, none,
  some, arith, leb, ltb, Bool-cases, lt→ltb,
}
use agent_nexus.Gateway.Calendar.{Time, after, add_days, civil, is_weekend}
use agent_nexus.Gateway.Calendar.Months.{add_months-later, add_months-clock, civil-le}
use agent_nexus.Gateway.Schedule.{
  Frequency, Rule, Tick, ScheduledMessage, interval_of, skip_weekend, days_on, weeks_on, months_on,
  end_of_days, end_of_months, is_due, step_of, is_past, unless_past, next_scheduled_fire_at,
  catch_up, rounds_to, next_of,
}

-- 2 ^ 40 days, which is three thousand million years
abbrev pub far_day : ℕ
far_day = 0x100_0000_0000

-- On a later day, at the same time of the day.
pub record IsLater (from t : Time) : Type 0 where
  pub day : from.day < t.day
  pub clock : t.clock ≡ from.clock

IsLater-trans : (a b c : Time) → IsLater a b → IsLater b c → IsLater a c
IsLater-trans a b c h g = record { day = omega (arith, h.day, g.day); clock = g.clock ∙ h.clock }

-- the time, where there is one, is a later one
abbrev pub Later : Time → Option Time → Type 0
Later from none = Unit
Later from (some t) = IsLater from t

skip_weekend-IsLater :
    (from : Time) (n : ℕ) (t : Time) → IsLater from t → IsLater from (skip_weekend n t)
skip_weekend-IsLater from zero t h = h
skip_weekend-IsLater from (suc n) t h = elim (Bool-cases (is_weekend t)) [
  | inl e ↦ rw e (
      skip_weekend-IsLater from n (add_days 1 t)
        (record { day = omega (arith, h.day); clock = h.clock }))
  | inr e ↦ rw e h
]

unless_past-Later :
    (from : Time) (end : Option Time) (o : Option Time)
    → Later from o
    → Later from (unless_past end o)
unless_past-Later from end none h = tt
unless_past-Later from end (some t) h = elim (Bool-cases (is_past end t)) [
  | inl e ↦ rw e tt
  | inr e ↦ rw e h
]

Later-trans : (a b : Time) (o : Option Time) → IsLater a b → Later b o → Later a o
Later-trans a b none h g = tt
Later-trans a b (some c) h g = IsLater-trans a b c h g

-- The loop has ended: the series is complete, or the time is after now.
abbrev pub IsCaughtUp : Time → Option Time → Type 0
IsCaughtUp now none = Unit
IsCaughtUp now (some t) = after t now ≡ true

-- a rule whose interval is at most a thousand million, or none
abbrev pub IsModest : Option Rule → Type 0
IsModest none = Unit
IsModest (some r) = interval_of r ≤ 1000000000

after-day : (t now : Time) → after t now ≡ false → now.day < far_day → t.day < far_day
after-day t now h near = ground arith

due-day :
    (t : Tick) (m : ScheduledMessage)
    → is_due t m ≡ true
    → t.now.day < far_day
    → m.send_at.day < far_day
unfolding is_due
due-day t m h near = ground arith

interval_of-positive : (r : Rule) → 0 < interval_of r
interval_of-positive r = ground arith

module _ (beyond : Frequency → ℕ → Time → Time) where
  days_on-IsLater :
      (f : Frequency) (n k : ℕ) (from : Time)
      → 0 < k
      → k ≤ 7000000000
      → from.day < far_day
      → IsLater from (days_on beyond f n k from)
  days_on-IsLater f n k from h le early =
      rw (lt→ltb (from.day + k) end_of_days (omega (arith, le, early)))
        (record { day = omega (arith, h); clock = refl })

  weeks_on-IsLater :
      (n : ℕ) (from : Time)
      → 0 < n
      → n ≤ 1000000000
      → from.day < far_day
      → IsLater from (weeks_on beyond n from)
  weeks_on-IsLater n from h le early =
      let same : (7 * n) % 0x1_0000_0000_0000_0000 ≡ 7 * n = omega (arith, le) in
      rw (same, lt→ltb (7 * n) 0x8000_0000_0000_0000 (omega (arith, le)))
        (days_on-IsLater Frequency.weekly n (7 * n) from (omega (arith, h)) (omega (arith, le))
          early)

  months_on-IsLater :
      (f : Frequency) (n k : ℕ) (from : Time)
      → 0 < k
      → k ≤ 12000000000
      → from.day < far_day
      → IsLater from (months_on beyond f n k from)
  months_on-IsLater f n k from h le early =
      rw
        (lt→ltb ((civil from.day).0 + k) end_of_months
          (omega (arith, le, early, civil-le from.day)))
        (record {
          day = omega (arith, h, add_months-later k from);
          clock = add_months-clock k from;
        })

  step_of-Later :
      (f : Frequency) (n : ℕ) (from : Time)
      → 0 < n
      → n ≤ 1000000000
      → from.day < far_day
      → Later from (step_of beyond f n from)
  step_of-Later Frequency.daily n from h le early =
      days_on-IsLater Frequency.daily n n from h (omega (arith, le)) early
  step_of-Later Frequency.weekly n from h le early = weeks_on-IsLater n from h le early
  step_of-Later Frequency.monthly n from h le early =
      months_on-IsLater Frequency.monthly n n from h (omega (arith, le)) early
  step_of-Later Frequency.yearly n from h le early =
      months_on-IsLater Frequency.yearly n (12 * n) from (omega (arith, h)) (omega (arith, le))
        early
  step_of-Later Frequency.weekdays n from h le early =
      skip_weekend-IsLater from 2 (add_days 1 from) (record { day = omega arith; clock = refl })
  step_of-Later Frequency.unknown n from h le early = tt

  next-Later :
      (r : Option Rule) (from : Time) (count : ℕ)
      → IsModest r
      → from.day < far_day
      → Later from (next_scheduled_fire_at beyond r from count)
  unfolding next_scheduled_fire_at
  next-Later none from count modest early = tt
  next-Later (some r) from count modest early =
      elim (Bool-cases (ltb 0 r.max_occurrences && leb r.max_occurrences count)) [
        | inl e ↦ rw e tt
        | inr e ↦ rw e (
            unless_past-Later from r.end_at (step_of beyond r.frequency (interval_of r) from) (
              step_of-Later r.frequency (interval_of r) from (interval_of-positive r) modest early))
      ]

  -- the loop on a time that a fuel reaches the day after now from
  catch_up-both :
      (fuel : ℕ) (r : Option Rule) (now : Time) (count : ℕ) (from : Time) (o : Option Time)
      → IsModest r
      → now.day < far_day
      → Later from o
      → now.day ≤ from.day + fuel
      → IsCaughtUp now (catch_up beyond fuel r now count o)
        × Later from (catch_up beyond fuel r now count o)
  unfolding catch_up
  catch_up-both zero r now count from none modest near h e = (tt, tt)
  catch_up-both zero r now count from (some t) modest near h e = (ground (arith, h.day), h)
  catch_up-both (suc fuel) r now count from none modest near h e = (tt, tt)
  catch_up-both (suc fuel) r now count from (some t) modest near h e =
      elim (Bool-cases (after t now)) [
        | inl f ↦ rw f (f, h)
        | inr f ↦
            let later_step = next_scheduled_fire_at beyond r t count in
            let (caught, later) =
              catch_up-both fuel r now count t later_step modest near
                (next-Later r t count modest (after-day t now f near)) (omega (arith, h.day)) in
            rw f (caught, Later-trans from t (catch_up beyond fuel r now count later_step) h later)
      ]

  -- After a delivery the loop that catches up ends within its fuel, when the message was due, the rule's
  -- interval is at most a thousand million and now is less than 2 ^ 40 days from 1970: either the series
  -- is complete, or the next time is after now, on a later day than the time before and at the same time
  -- of the day.
  pub next_of-IsCaughtUp :
      (t : Tick) (m : ScheduledMessage) (r : Option Rule)
      → IsModest r
      → t.now.day < far_day
      → is_due t m ≡ true
      → IsCaughtUp t.now (next_of beyond t m r) × Later m.send_at (next_of beyond t m r)
  next_of-IsCaughtUp t m r modest near due =
      catch_up-both (rounds_to t.now m.send_at) r t.now (m.occurrence_count + 1) m.send_at
        (next_scheduled_fire_at beyond r m.send_at (m.occurrence_count + 1)) modest near
        (next-Later r m.send_at (m.occurrence_count + 1) modest (due-day t m due near))
        (omega arith)

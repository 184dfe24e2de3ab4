-- ===== src/Gateway/Calendar/Months.antt =====
-- Adding days and months moves a time forward (the `AddDate` of the scheduled messages).
use agent_nexus.Prelude.{
  ℕ, zero, suc, ◌+◌, ◌-◌, ◌*◌, ◌/◌, ◌%◌, ◌≤◌, ◌<◌, ◌≡◌, refl, ap, Bool, arith,
}
use agent_nexus.Gateway.Calendar.{
  Time, length_of, month_length, month_start, locate, civil, add_months, is_leap_year,
}

length_of-ge : (leap : Bool) (m : ℕ) → 28 ≤ length_of leap m
length_of-ge leap m = ground arith

pub month_length-ge : (m : ℕ) → 28 ≤ month_length m
unfolding month_length
month_length-ge m = length_of-ge (is_leap_year (1970 + m / 12)) (m % 12)

month_start-at : (m n k : ℕ) → k ≡ m + n → month_start m + 28 * n ≤ month_start k
unfolding month_start
month_start-at m zero k e = rw (same_month k m (omega arith)) (omega arith)
  where
    same_month : (x y : ℕ) → x ≡ y → month_start x ≡ month_start y
    same_month x y h = ap month_start h
month_start-at m (suc n) zero e = absurd (omega arith)
month_start-at m (suc n) (suc k) e =
    omega (arith, month_start-at m n k (omega arith), month_length-ge k)

pub month_start-add : (m n : ℕ) → month_start m + 28 * n ≤ month_start (m + n)
month_start-add m n = month_start-at m n (m + n) refl

-- the walk through the months keeps the day
locate-start :
    (fuel m rest : ℕ)
    → month_start (locate fuel m rest).0 + (locate fuel m rest).1 ≡ month_start m + rest
unfolding locate month_start
locate-start zero m rest = refl
locate-start (suc fuel) m rest = ground (arith, locate-start fuel (m + 1) (rest - month_length m))

locate-within :
    (fuel m rest : ℕ) → rest ≤ fuel → (locate fuel m rest).1 < month_length (locate fuel m rest).0
unfolding locate
locate-within zero m rest h = omega (arith, month_length-ge m)
locate-within (suc fuel) m rest h =
    ground (arith, month_length-ge m, locate-within fuel (m + 1) (rest - month_length m))

-- The month and the day in it that are found for a day are those of the day.
pub civil-start :
    (day : ℕ)
    → (month_start (civil day).0 + (civil day).1 ≡ day)
      × ((civil day).1 < month_length (civil day).0)
unfolding civil month_start
civil-start day = (omega (arith, locate-start day 0 day), locate-within day 0 day (omega arith))

pub add_months-later : (n : ℕ) (t : Time) → t.day + 28 * n ≤ (add_months n t).day
unfolding add_months
add_months-later n t = omega (arith, civil-start t.day, month_start-add (civil t.day).0 n)

pub add_months-clock : (n : ℕ) (t : Time) → (add_months n t).clock ≡ t.clock
unfolding add_months
add_months-clock n t = refl

-- The month of a day is at most its number.
pub civil-le : (day : ℕ) → (civil day).0 ≤ day
civil-le day =
    omega (arith, civil-start day, month_start-at 0 (civil day).0 (civil day).0 (omega arith))

-- ===== src/Gateway/Calendar.antt =====
-- The parts of Go's `time` that the scheduled messages use: times in UTC from 1970 on, as a day and the
-- nanoseconds in it, `AddDate`, `Weekday` and `After`. Months are counted from January 1970.
pub mod Months
use agent_nexus.Prelude.{
  ℕ, zero, suc, ◌+◌, ◌-◌, ◌*◌, ◌/◌, ◌%◌, Bool, true, false, not, ◌&&◌, ◌||◌, ltb, ◌==◌,
  if◌then◌else◌,
}

pub record Time : Type 0 where
  pub day : ℕ
  pub clock : ℕ

abbrev pub after : Time → Time → Bool
after t u = ltb u.day t.day || (t.day == u.day && ltb u.clock t.clock)

unfoldable pub is_leap_year : ℕ → Bool
is_leap_year y = y % 400 == 0 || (y % 4 == 0 && not (y % 100 == 0))

-- the length of a month, whose number in the year is given
abbrev pub length_of : Bool → ℕ → ℕ
length_of leap m =
    if m == 1
    then (if leap then 29 else 28)
    else if m == 3 || m == 5 || m == 8 || m == 10
    then 30
    else 31

unfoldable pub month_length : ℕ → ℕ
unfolding is_leap_year
month_length m = length_of (is_leap_year (1970 + m / 12)) (m % 12)

-- the day on which a month starts
unfoldable pub month_start : ℕ → ℕ
month_start zero = 0
month_start (suc m) = month_start m + month_length m

-- The month of a day and the days before it in the month, found month by month from a given one.
unfoldable pub locate : ℕ → ℕ → ℕ → ℕ × ℕ
locate zero m rest = (m, rest)
locate (suc fuel) m rest =
    let later = locate fuel (m + 1) (rest - month_length m) in
    if ltb rest (month_length m) then (m, rest) else later

unfoldable pub civil : ℕ → ℕ × ℕ
civil day = locate day 0 day

abbrev pub add_days : ℕ → Time → Time
add_days n t = record t { day = t.day + n }

-- A day that the month does not have runs over into the next one, as `AddDate` normalises it.
unfoldable pub add_months : ℕ → Time → Time
add_months n t =
    let (month, rest) = civil t.day in record t { day = month_start (month + n) + rest }

-- January 1, 1970 was a Thursday; Sunday is 0.
abbrev pub weekday : ℕ → ℕ
weekday day = (day + 4) % 7

abbrev pub is_weekend : Time → Bool
is_weekend t = weekday t.day == 6 || weekday t.day == 0

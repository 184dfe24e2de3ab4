-- ===== src/Gateway/Schedule/Tests.antt =====
-- Scheduled messages over some ticks (services/api/internal/api/handler/gateway.go).
use agent_nexus.Prelude.{ℕ, ◌+◌, ◌≤◌, ◌≡◌, refl, true, false, none, some, List, [], ◌∷◌, arith}
use agent_nexus.Gateway.Calendar.{
  Time, add_months, civil, locate, month_start, month_length, is_leap_year,
}
use agent_nexus.Gateway.Schedule.{
  Frequency, Rule, MessageStatus, Tick, ScheduledMessage, next_scheduled_fire_at, catch_up, is_due,
  fire, tick, deliveries, next_of,
}
use agent_nexus.Gateway.Schedule.Next.{IsCaughtUp, Later, next_of-IsCaughtUp}
use agent_nexus.Gateway.Schedule.Series.{deliveries-le}

-- out of range, the time stays
abbrev standing : Frequency → ℕ → Time → Time
standing f n t = t

abbrev at_day : ℕ → Time
at_day n = record { day = n; clock = 5 }

-- January 31, 1972, a leap year, and a month later: February 31 is March 2
overflow : add_months 1 (at_day 760) ≡ at_day 791
unfolding add_months civil locate month_start month_length is_leap_year
overflow = refl

abbrev weekdays_thrice : Rule
weekdays_thrice = record {
  frequency = Frequency.weekdays;
  interval = 0;
  end_at = none;
  max_occurrences = 3;
}

-- January 2, 1970 was a Friday.
next_weekday : next_scheduled_fire_at standing (some weekdays_thrice) (at_day 1) 1 ≡ some (at_day 4)
unfolding next_scheduled_fire_at
next_weekday = refl

abbrev each : Frequency → ℕ → Rule
each f n = record { frequency = f; interval = n; end_at = none; max_occurrences = 0 }

-- Seven times this interval is 2 ^ 64 - 2, which is -2: the time moves back by two days.
next_weekly_wraps :
    next_scheduled_fire_at standing
      (some (each Frequency.weekly 2635249153387078802))
      (at_day 20000)
      1
    ≡ some (at_day 19998)
unfolding next_scheduled_fire_at
next_weekly_wraps = refl

-- An interval of -1 counts as 1.
next_weekly_negative :
    next_scheduled_fire_at standing
      (some (each Frequency.weekly 0xffff_ffff_ffff_ffff))
      (at_day 20000)
      1
    ≡ some (at_day 20007)
unfolding next_scheduled_fire_at
next_weekly_negative = refl

-- The loop that catches up then moves away from now, and its fuel does not help.
catch_up_wraps :
    catch_up standing 40
      (some (each Frequency.weekly 2635249153387078802))
      (at_day 20010)
      1
      (some (at_day 19998))
    ≡ some (at_day 19918)
unfolding catch_up next_scheduled_fire_at
catch_up_wraps = refl

abbrev reminder_of_friday : ScheduledMessage
reminder_of_friday = record {
  send_at = at_day 1;
  status = MessageStatus.pending;
  use_agent = false;
  recurrence = some (some weekdays_thrice);
  occurrence_count = 0;
}

abbrev tick_at : ℕ → Tick
tick_at n = record {
  now = at_day n;
  fetch_ok = true;
  channel_found = true;
  is_active = true;
  is_whatsapp = true;
  dispatch_ok = true;
  send_ok = true;
  write_ok = true;
}

friday-due : is_due (tick_at 9) reminder_of_friday ≡ true
unfolding is_due
friday-due = refl

next_of-IsCaughtUp_example :
    IsCaughtUp (at_day 9) (next_of standing (tick_at 9) reminder_of_friday (some weekdays_thrice))
    × Later (at_day 1) (next_of standing (tick_at 9) reminder_of_friday (some weekdays_thrice))
next_of-IsCaughtUp_example =
    next_of-IsCaughtUp standing (tick_at 9) reminder_of_friday (some weekdays_thrice) (omega arith)
      (omega arith) friday-due

caught_up :
    next_of standing (tick_at 9) reminder_of_friday (some weekdays_thrice) ≡ some (at_day 11)
unfolding catch_up next_scheduled_fire_at
caught_up = refl

abbrev ticks : List Tick
ticks = tick_at 2 ∷ tick_at 2 ∷ tick_at 4 ∷ tick_at 9 ∷ tick_at 20 ∷ []

three_deliveries : deliveries standing ticks reminder_of_friday ≡ 3
unfolding deliveries tick fire is_due catch_up next_scheduled_fire_at
three_deliveries = refl

deliveries-le_example : deliveries standing ticks reminder_of_friday + 0 ≤ 3
deliveries-le_example =
    deliveries-le standing weekdays_thrice (omega arith) ticks reminder_of_friday (ground arith)
      refl (omega arith)

-- ===== src/Gateway/Schedule/Series.antt =====
-- How often a scheduled message is delivered (services/api/internal/api/handler/gateway.go,
-- `fireScheduledMessages`).
use agent_nexus.Prelude.{
  ℕ, zero, suc, ◌+◌, ◌≤◌, ◌<◌, ◌≡◌, refl, sym, ap, subst, ltb→lt, ◌⊎◌, inl, inr, true, false,
  Option, none, some, List, [], ◌∷◌, arith, ltb, All, Bool-cases,
}
use agent_nexus.Gateway.Calendar.{Time}
use agent_nexus.Gateway.Schedule.{
  Frequency, Rule, MessageStatus, Tick, ScheduledMessage, next_scheduled_fire_at, catch_up, is_due,
  is_pending, update_status, settle, next_of, after_delivery, reschedule, fire, tick, deliveries,
}

module _ (beyond : Frequency → ℕ → Time → Time) where
  deliveries-settled :
      (ts : List Tick) (m : ScheduledMessage)
      → is_pending m.status ≡ false
      → deliveries beyond ts m ≡ 0
  unfolding deliveries tick is_due
  deliveries-settled [] m h = refl
  deliveries-settled (t ∷ ts) m h = ground (arith, deliveries-settled ts m h)

  catch_up-none :
      (fuel : ℕ) (r : Option Rule) (now : Time) (count : ℕ)
      → catch_up beyond fuel r now count none ≡ none
  unfolding catch_up
  catch_up-none zero r now count = refl
  catch_up-none (suc fuel) r now count = refl

  next_complete :
      (r : Rule) (from : Time) (count : ℕ)
      → 0 < r.max_occurrences
      → r.max_occurrences ≤ count
      → next_scheduled_fire_at beyond (some r) from count ≡ none
  unfolding next_scheduled_fire_at
  next_complete r from count p h = ground arith

  next_of_complete :
      (t : Tick) (m : ScheduledMessage) (r : Rule)
      → 0 < r.max_occurrences
      → r.max_occurrences ≤ m.occurrence_count + 1
      → next_of beyond t m (some r) ≡ none
  next_of_complete t m r p h =
      rw (next_complete r m.send_at (m.occurrence_count + 1) p h) (catch_up-none _ _ _ _)

  -- what a tick does with a message: nothing, a failure, or a delivery
  tick-cases :
      (t : Tick) (m : ScheduledMessage)
      → (tick beyond t m ≡ (m, false))
        ⊎ ((tick beyond t m ≡ (update_status t MessageStatus.failed m, false))
            ⊎ (tick beyond t m ≡ (after_delivery beyond t m m.recurrence, true)))
  unfolding tick fire
  tick-cases t m = ground arith

  sent-0 :
      (ts : List Tick) (t : Tick) (s : MessageStatus) (m : ScheduledMessage)
      → t.write_ok ≡ true
      → is_pending s ≡ false
      → deliveries beyond ts (update_status t s m) ≡ 0
  sent-0 ts t s m w h = rw w (deliveries-settled ts (record m { status = s }) h)

  module _ (r : Rule) (positive : 0 < r.max_occurrences) where
    abbrev IsOpen : ScheduledMessage → Type 0
    IsOpen m = (m.recurrence ≡ some (some r)) × (m.occurrence_count < r.max_occurrences)

    abbrev Fits : List Tick → ScheduledMessage → Type 0
    Fits ts m = deliveries beyond ts m + m.occurrence_count ≤ r.max_occurrences

    below_maximum :
        (t : Tick) (m : ScheduledMessage) (at : Time)
        → next_of beyond t m (some r) ≡ some at
        → m.occurrence_count + 1 < r.max_occurrences
    below_maximum t m at e = elim (Bool-cases (ltb (m.occurrence_count + 1) r.max_occurrences)) [
      | inl f ↦ ltb→lt (m.occurrence_count + 1) r.max_occurrences f
      | inr f ↦ absurd (cc (e, next_of_complete t m r positive (ground arith)))
    ]

    reschedule-Fits :
        (ts : List Tick) (t : Tick) (m : ScheduledMessage) (at : Time)
        → ((n : ScheduledMessage) → IsOpen n → Fits ts n)
        → t.write_ok ≡ true
        → m.recurrence ≡ some (some r)
        → m.occurrence_count + 1 < r.max_occurrences
        → deliveries beyond ts (reschedule t at (m.occurrence_count + 1) m) + 1 + m.occurrence_count
          ≤ r.max_occurrences
    reschedule-Fits ts t m at ih w e h = rw w (
        omega
          (arith, ih (record m { send_at = at; occurrence_count = m.occurrence_count + 1 }) (e, h)))

    settle-Fits :
        (ts : List Tick) (t : Tick) (m : ScheduledMessage) (o : Option Time)
        → ((n : ScheduledMessage) → IsOpen n → Fits ts n)
        → t.write_ok ≡ true
        → IsOpen m
        → next_of beyond t m (some r) ≡ o
        → deliveries beyond ts (settle t m (m.occurrence_count + 1) o) + 1 + m.occurrence_count
          ≤ r.max_occurrences
    settle-Fits ts t m none ih w h e =
        rw (sent-0 ts t MessageStatus.sent m w refl) (omega (arith, h.1))
    settle-Fits ts t m (some at) ih w h e =
        reschedule-Fits ts t m at ih w h.0 (below_maximum t m at e)

    delivery-Fits :
        (ts : List Tick) (t : Tick) (m : ScheduledMessage)
        → ((n : ScheduledMessage) → IsOpen n → Fits ts n)
        → t.write_ok ≡ true
        → IsOpen m
        → deliveries beyond ts (after_delivery beyond t m m.recurrence) + 1 + m.occurrence_count
          ≤ r.max_occurrences
    delivery-Fits ts t m ih w h =
        subst (λ next. deliveries beyond ts next + 1 + m.occurrence_count ≤ r.max_occurrences)
          (sym (ap (after_delivery beyond t m) h.0))
          (settle-Fits ts t m (next_of beyond t m (some r)) ih w h refl)

    -- A recurring message is delivered at most as often as its rule allows, its past occurrences
    -- counted, whatever the ticks bring: when the writes to its row succeed.
    pub deliveries-le :
        (ts : List Tick) (m : ScheduledMessage)
        → All (λ (t : Tick). t.write_ok ≡ true) ts
        → m.recurrence ≡ some (some r)
        → m.occurrence_count < r.max_occurrences
        → deliveries beyond ts m + m.occurrence_count ≤ r.max_occurrences
    unfolding deliveries
    deliveries-le [] m w e h = omega arith
    deliveries-le (t ∷ ts) m w e h = elim (tick-cases t m) [
      | inl same ↦ rw same (deliveries-le ts m w.1 e h)
      | inr (inl fails) ↦ rw (fails, sent-0 ts t MessageStatus.failed m w.0 refl) (omega arith)
      | inr (inr delivers) ↦
          rw delivers (delivery-Fits ts t m (λ n g. deliveries-le ts n w.1 g.0 g.1) w.0 (e, h))
    ]

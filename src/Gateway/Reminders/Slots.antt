-- ===== src/Gateway/Reminders/Slots.antt =====
-- What a tick makes of the reminders (services/api/internal/api/handler/gateway.go, `fireReminders`).
use agent_nexus.Prelude.{
  ℕ, zero, suc, ◌≤◌, ◌≡◌, refl, sym, ap, ◌∙◌, Bool, true, false, ◌||◌, count, List, [], ◌∷◌, ◌++◌,
  arith, if◌then◌else◌, All, length,
}
use agent_nexus.Prelude.Text.{is_blank}
use agent_nexus.Gateway.Reminders.{
  DueReminder, Answers, is_due, can_send, fire_reminder, fire_due, slot_limit, fire_reminders,
}

abbrev pub reminders : List (DueReminder × Answers) → List DueReminder
reminders [] = []
reminders ((r, a) ∷ rest) = r ∷ reminders rest

-- A due reminder with a peer whose channel cannot send.
abbrev pub IsStuck : ℕ → DueReminder × Answers → Type 0
IsStuck now (r, a) = (is_due now r ≡ true) × (is_blank r.peer_id ≡ false) × (can_send a ≡ false)

fire_due-zero : (now : ℕ) (rs : List (DueReminder × Answers)) → fire_due now 0 rs ≡ reminders rs
unfolding fire_due
fire_due-zero now [] = refl
fire_due-zero now ((r, a) ∷ rest) = ap (◌∷◌ r) (fire_due-zero now rest)

fire_reminder-stuck :
    (now : ℕ) (r : DueReminder) (a : Answers) → IsStuck now (r, a) → fire_reminder a r ≡ r
unfolding fire_reminder
fire_reminder-stuck now r a h = rw (h.1, h.2) refl

fire_due-stuck :
    (now : ℕ) (stuck rest : List (DueReminder × Answers))
    → All (IsStuck now) stuck
    → fire_due now (length stuck) (stuck ++ rest) ≡ reminders (stuck ++ rest)
unfolding fire_due
fire_due-stuck now [] rest h = fire_due-zero now rest
fire_due-stuck now ((r, a) ∷ stuck) rest h =
    ground (arith, fire_reminder-stuck now r a h.0, fire_due-stuck now stuck rest h.1)

-- When fifty due reminders of channels that cannot send come first, a tick changes no reminder: those
-- that are due after them are never reached.
pub fire_reminders-stuck :
    (fetch_ok : Bool) (now : ℕ) (stuck rest : List (DueReminder × Answers))
    → length stuck ≡ slot_limit
    → All (IsStuck now) stuck
    → fire_reminders fetch_ok now (stuck ++ rest) ≡ reminders (stuck ++ rest)
unfolding fire_reminders
fire_reminders-stuck true now stuck rest e h =
    ap (λ n. fire_due now n (stuck ++ rest)) (sym e) ∙ fire_due-stuck now stuck rest h
fire_reminders-stuck false now stuck rest e h = fire_due-zero now (stuck ++ rest)

-- A reminder that a round settles: its row can be written, and it has no peer or its channel can send.
abbrev pub IsReady : DueReminder × Answers → Type 0
IsReady (r, a) = (a.write_ok ≡ true) × ((is_blank r.peer_id || can_send a) ≡ true)

fire_reminder-ready :
    (now : ℕ) (r : DueReminder) (a : Answers)
    → IsReady (r, a)
    → is_due now (fire_reminder a r) ≡ false
unfolding fire_reminder
fire_reminder-ready now r a h = ground arith

abbrev pub due_of : ℕ → DueReminder × Answers → Bool
due_of now (r, a) = is_due now r

abbrev pub AllSettled : ℕ → List DueReminder → Type 0
AllSettled now = All (λ r. is_due now r ≡ false)

if-AllSettled :
    (now : ℕ) (b : Bool) (x y : List DueReminder)
    → (b ≡ true → AllSettled now x)
    → (b ≡ false → AllSettled now y)
    → AllSettled now (if b then x else y)
if-AllSettled now true x y h g = h refl
if-AllSettled now false x y h g = g refl

fire_due-ready :
    (now slots : ℕ) (rs : List (DueReminder × Answers))
    → count (due_of now) rs ≤ slots
    → All IsReady rs
    → AllSettled now (fire_due now slots rs)
unfolding fire_due
fire_due-ready now zero [] h g = tt
fire_due-ready now (suc slots) [] h g = tt
fire_due-ready now zero ((r, a) ∷ rest) h g = ground (arith, fire_due-ready now zero rest)
fire_due-ready now (suc slots) ((r, a) ∷ rest) h g =
    if-AllSettled now (is_due now r) _ _
      (λ e. (fire_reminder-ready now r a g.0, fire_due-ready now slots rest (ground arith) g.1))
      λ e. (e, fire_due-ready now (suc slots) rest (ground arith) g.1)

-- When at most fifty reminders are due and a round settles each, none is due after the tick.
pub fire_reminders-ready :
    (now : ℕ) (rs : List (DueReminder × Answers))
    → count (due_of now) rs ≤ slot_limit
    → All IsReady rs
    → AllSettled now (fire_reminders true now rs)
unfolding fire_reminders
fire_reminders-ready now rs h g = fire_due-ready now slot_limit rs h g

-- ===== src/Gateway/Reminders/Tests.antt =====
-- A tick of the reminders (services/api/internal/api/handler/gateway.go).
use agent_nexus.Prelude.{ℕ, ◌≡◌, refl, true, false, some, List, [], ◌∷◌}
use agent_nexus.Prelude.Text.{codes}
use agent_nexus.Gateway.Reminders.{
  ReminderStatus, DueReminder, Answers, fire_reminder, fire_due, fire_reminders,
}

abbrev reminder_at : ℕ → DueReminder
reminder_at at = record {
  status = ReminderStatus.pending;
  due_at = some at;
  channel_active = true;
  peer_id = codes "49@s.whatsapp.net";
  use_agent = false;
}

abbrev answers : Answers
answers = record {
  channel_found = true;
  is_active = true;
  is_whatsapp = true;
  dispatch_ok = true;
  send_ok = true;
  write_ok = true;
}

abbrev two_reminders : List (DueReminder × Answers)
two_reminders = (reminder_at 3, answers) ∷ (reminder_at 9, answers) ∷ []

fire_two :
    fire_reminders true 5 two_reminders
    ≡ record (reminder_at 3) { status = ReminderStatus.completed } ∷ reminder_at 9 ∷ []
unfolding fire_reminders fire_due fire_reminder
fire_two = refl

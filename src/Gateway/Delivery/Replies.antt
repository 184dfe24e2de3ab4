-- ===== src/Gateway/Delivery/Replies.antt =====
-- When a run is answered (services/api/internal/api/handler/gateway.go, `deliverWhenComplete`).
use agent_nexus.Prelude.{
  ℕ, ◌+◌, ◌≤◌, ◌≡◌, ◌⊎◌, inl, inr, refl, ◌∙◌, Bool, false, Option, none, some, List, [], ◌∷◌, ◌++◌,
  arith, ltb,
}
use agent_nexus.Prelude.Text.{Text}
use agent_nexus.Run.{RunStatus}
use agent_nexus.Gateway.Delivery.{
  reply_limit, Poll, Delivery, completion_reply, error_reply, Turn, turn_of, deliver_when_complete,
}

-- the row of a run that is queued, works or waits for a person, or none when the query fails
abbrev pub IsBusy : Option (RunStatus × Text) → Type 0
IsBusy none = Unit
IsBusy (some (status, output)) =
    (status ≡ RunStatus.pending)
    ⊎ (status ≡ RunStatus.running)
    ⊎ (status ≡ RunStatus.approval_wait)
    ⊎ (status ≡ RunStatus.user_input_wait)

-- The deadline after some polls: five minutes after the last one that saw the run in the queue, or the
-- one from before.
abbrev pub next_deadline : ℕ → ℕ → Option (RunStatus × Text) → ℕ
next_deadline deadline now (some (RunStatus.pending, output)) = now + reply_limit
next_deadline deadline now _ = deadline

abbrev pub deadline_after : ℕ → List Poll → ℕ
deadline_after deadline [] = deadline
deadline_after deadline (p ∷ ps) = deadline_after (next_deadline deadline p.now p.row) ps

-- Each poll comes before the deadline that those before it leave, and its query fails, or finds the run
-- in the queue, working or waiting for a person.
abbrev pub IsWaiting : ℕ → List Poll → Type 0
IsWaiting deadline [] = Unit
IsWaiting deadline (p ∷ ps) =
    (p.now ≤ deadline) × IsBusy p.row × IsWaiting (next_deadline deadline p.now p.row) ps

in_time : (now deadline : ℕ) → now ≤ deadline → ltb deadline now ≡ false
in_time now deadline h = ground arith

module _ (elsewhere : Bool) where
  waiting-step :
      (p : Poll) (row : Option (RunStatus × Text)) (ps : List Poll) (deadline : ℕ)
      → p.row ≡ row
      → p.now ≤ deadline
      → IsBusy row
      → deliver_when_complete elsewhere deadline (p ∷ ps)
        ≡ deliver_when_complete elsewhere (next_deadline deadline p.now row) ps
  unfolding deliver_when_complete
  waiting-step p none ps deadline e h b = rw (in_time p.now deadline h, e) refl
  waiting-step p (some (status, output)) ps deadline e h (inl b) =
      rw (in_time p.now deadline h, e, b) refl
  waiting-step p (some (status, output)) ps deadline e h (inr (inl b)) =
      rw (in_time p.now deadline h, e, b) refl
  waiting-step p (some (status, output)) ps deadline e h (inr (inr (inl b))) =
      rw (in_time p.now deadline h, e, b) refl
  waiting-step p (some (status, output)) ps deadline e h (inr (inr (inr b))) =
      rw (in_time p.now deadline h, e, b) refl

  deliver-waiting :
      (polls rest : List Poll) (deadline : ℕ)
      → IsWaiting deadline polls
      → deliver_when_complete elsewhere deadline (polls ++ rest)
        ≡ deliver_when_complete elsewhere (deadline_after deadline polls) rest
  deliver-waiting [] rest deadline h = refl
  deliver-waiting (p ∷ ps) rest deadline h =
      waiting-step p p.row (ps ++ rest) deadline refl h.0 h.1
      ∙ deliver-waiting ps rest (next_deadline deadline p.now p.row) h.2

  last-step :
      (p : Poll) (status : RunStatus) (output : Text) (ps : List Poll) (deadline : ℕ)
      → p.row ≡ some (status, output)
      → p.now ≤ deadline
      → deliver_when_complete elsewhere deadline (p ∷ ps) ≡ elim (turn_of status) [
        | Turn.rearm ↦ deliver_when_complete elsewhere (p.now + reply_limit) ps
        | Turn.keep_polling ↦ deliver_when_complete elsewhere deadline ps
        | Turn.reply ↦ Delivery.answered (completion_reply output elsewhere)
        | Turn.report_error ↦ Delivery.apologised (error_reply output)
      ]
  unfolding deliver_when_complete
  last-step p status output ps deadline e h = rw (in_time p.now deadline h, e) refl

  -- However long a run is in the queue, and whatever queries fail on the way, in the queue or after it,
  -- its answer is delivered when it succeeds within five minutes of the last poll that saw it in the
  -- queue, as long as each poll before comes within the deadline that holds then and, when its query
  -- succeeds, finds the run in the queue, running, or waiting for an approval or an input.
  pub deliver_when_complete-answered :
      (polls rest : List Poll) (p : Poll) (output : Text) (deadline : ℕ)
      → IsWaiting deadline polls
      → p.now ≤ deadline_after deadline polls
      → p.row ≡ some (RunStatus.success, output)
      → deliver_when_complete elsewhere deadline (polls ++ p ∷ rest)
        ≡ Delivery.answered (completion_reply output elsewhere)
  deliver_when_complete-answered polls rest p output deadline w h e =
      deliver-waiting polls (p ∷ rest) deadline w
      ∙ last-step p RunStatus.success output rest (deadline_after deadline polls) e h

  -- A run that is seen while it waits for a session is reported to the peer as an error, and nothing
  -- that comes later is delivered.
  pub deliver_when_complete-session_wait :
      (polls rest : List Poll) (p : Poll) (output : Text) (deadline : ℕ)
      → IsWaiting deadline polls
      → p.now ≤ deadline_after deadline polls
      → p.row ≡ some (RunStatus.session_wait, output)
      → deliver_when_complete elsewhere deadline (polls ++ p ∷ rest)
        ≡ Delivery.apologised (error_reply output)
  deliver_when_complete-session_wait polls rest p output deadline w h e =
      deliver-waiting polls (p ∷ rest) deadline w
      ∙ last-step p RunStatus.session_wait output rest (deadline_after deadline polls) e h

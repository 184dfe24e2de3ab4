-- ===== src/Gateway/Delivery/Sending.antt =====
-- The attempts to send a message (services/api/internal/gateway/service.go, `SendWhatsApp`).
use agent_nexus.Prelude.{
  ℕ, ◌≤◌, ◌<◌, ◌≡◌, refl, ◌⊎◌, inl, inr, Bool, true, false, Option, none, some, arith,
  if◌then◌else◌,
}
use agent_nexus.Gateway.Delivery.{
  Adapter, OutboundStatus, Outbound, mark_outbound, fresh_outbound, post_attempts, send_whatsapp,
}
use agent_nexus.Gateway.Delivery.Attempts.{
  Took, Missed, TookIf, post_attempts-TookIf, post_attempts-le, post_attempts-live,
}

-- A message that is sent: its row agrees with the caller's status when it can be written, it was posted
-- at most five times, never after the context was done, and it is sent exactly when the adapter took it: with the last attempt, or else with
-- none.
pub record IsHonest (db_ok : Bool) (a : Adapter) (row : Outbound) (s : OutboundStatus) (posts : ℕ)
    : Type 0 where
  pub limit : posts ≤ 5
  pub live : (j : ℕ) → 0 < j → j < posts → a.is_done j ≡ false
  pub agrees : db_ok ≡ true → row.status ≡ s
  pub settled :
      ((s ≡ OutboundStatus.failed) × Missed a 0 5 posts)
      ⊎ ((s ≡ OutboundStatus.sent) × Took a 0 posts)

abbrev pub HonestIf : Bool → Adapter → Option (Outbound × OutboundStatus × ℕ) → Type 0
HonestIf db_ok a none = Unit
HonestIf db_ok a (some (row, s, posts)) = IsHonest db_ok a row s posts

marked :
    (db_ok : Bool) (s : OutboundStatus)
    → db_ok ≡ true
    → (mark_outbound db_ok s fresh_outbound).status ≡ s
marked true s h = refl
marked false s h = absurd (ground arith)

settled-HonestIf :
    (db_ok : Bool) (a : Adapter) (r : Bool × ℕ)
    → r.1 ≤ 5
    → ((j : ℕ) → 0 < j → j < r.1 → a.is_done j ≡ false)
    → TookIf a 0 5 r
    → HonestIf db_ok a (
        if r.0
        then some (mark_outbound db_ok OutboundStatus.sent fresh_outbound, OutboundStatus.sent, r.1)
        else some
            (mark_outbound db_ok OutboundStatus.failed fresh_outbound, OutboundStatus.failed, r.1))
settled-HonestIf db_ok a (true, posts) h live t = record {
  limit = h;
  live = live;
  agrees = marked db_ok OutboundStatus.sent;
  settled = inr (refl, t);
}
settled-HonestIf db_ok a (false, posts) h live t = record {
  limit = h;
  live = live;
  agrees = marked db_ok OutboundStatus.failed;
  settled = inl (refl, t);
}

-- Whatever the adapter answers and whenever the context is done, a message whose row was made is posted
-- at most five times, and an attempt after the first is made only when the context is not done. It is
-- reported as sent when the adapter took the last attempt, after attempts at which it was connecting; or
-- as failed, when it took none of the attempts made, and the attempts were used up, the context was done
-- before the next one, or the adapter refused the last one. The row has that status when it can be
-- written; when it cannot be made, there is no result.
pub send_whatsapp-HonestIf :
    (db_ok : Bool) (a : Adapter)
    → HonestIf db_ok a (send_whatsapp true db_ok a) × (send_whatsapp false db_ok a ≡ none)
unfolding send_whatsapp
send_whatsapp-HonestIf db_ok a = (
  settled-HonestIf db_ok a (post_attempts a 5 0) (post_attempts-le a 5 0)
      (λ j. post_attempts-live a 5 0 j (omega arith)) (post_attempts-TookIf a 5 0),
  refl,
)

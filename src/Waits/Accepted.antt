-- ===== src/Waits/Accepted.antt =====
-- Which callbacks `SessionCallback` of services/api/internal/api/handler/session_wait.go accepts.
use agent_nexus.Prelude.{
  ◌≡◌, ◌≢◌, ◌↔◌, ◌⊎◌, inl, inr, refl, ap, Bool, true, false, ◌||◌, [], Option, none, some,
  Bool-cases, arith,
}
use agent_nexus.Prelude.Text.{Text, codes, is_blank, text_eq}
use agent_nexus.Prelude.Text.Laws.{text_eq_refl, text_eq_sound, text_eq_iff}
use agent_nexus.Waits.Requests.{Answer}
use agent_nexus.Waits.Callback.{
  CallbackPayload, Verdict, is_terminal_status, remembered, check_payload, check_body,
  session_callback,
}

-- the three statuses in which a session ends
abbrev pub IsTerminal : Text → Type 0
IsTerminal s = (s ≡ codes "success") ⊎ ((s ≡ codes "budget-exceeded") ⊎ (s ≡ codes "crashed"))

or-true : (a b c : Bool) → ((a || b || c) ≡ true) ↔ ((a ≡ true) ⊎ ((b ≡ true) ⊎ (c ≡ true)))
or-true a b c = ground arith

is_terminal_status_iff : (s : Text) → (is_terminal_status s ≡ true) ↔ IsTerminal s
unfolding is_terminal_status
is_terminal_status_iff s =
    let r =
      or-true (text_eq s (codes "success")) (text_eq s (codes "budget-exceeded"))
        (text_eq s (codes "crashed")) in
    let a = text_eq_iff s (codes "success") in
    let b = text_eq_iff s (codes "budget-exceeded") in
    let c = text_eq_iff s (codes "crashed") in
    (
      λ h. elim (r.0 h) [
        | inl x ↦ inl (a.0 x)
        | inr (inl x) ↦ inr (inl (b.0 x))
        | inr (inr x) ↦ inr (inr (c.0 x))
      ],
      λ h. r.1 (elim h [
        | inl x ↦ inl (a.1 x)
        | inr (inl x) ↦ inr (inl (b.1 x))
        | inr (inr x) ↦ inr (inr (c.1 x))
      ]),
    )

not_blank : (s : Text) → (is_blank s ≡ false) ↔ (s ≢ [])
not_blank s = ground arith

terminal-filled : (s : Text) → IsTerminal s → is_blank s ≡ false
terminal-filled s (inl e) = rw e refl
terminal-filled s (inr (inl e)) = rw e refl
terminal-filled s (inr (inr e)) = rw e refl

abbrev pub Accepts : Verdict → CallbackPayload → Type 0
Accepts v p = v ≡ Verdict.accepted p (remembered p)

filled_payload :
    (q : CallbackPayload)
    → (is_blank q.run_id ≡ false)
      × (is_blank q.status ≡ false)
      × (is_terminal_status q.status ≡ true)
    → Accepts (check_payload q) q
unfolding check_payload
filled_payload q (run, status, terminal) = rw (run, status, terminal) refl

accepted_payload :
    (p q : CallbackPayload)
    → Accepts (check_payload p) q
    → (p ≡ q)
      × (is_blank q.run_id ≡ false)
      × (is_blank q.status ≡ false)
      × (is_terminal_status q.status ≡ true)
unfolding check_payload
accepted_payload p q h = ground arith

refused_verdict : {a : Answer} {p : CallbackPayload} → Accepts (Verdict.refused a) p → ⊥
refused_verdict h = ground arith

accepted_body :
    (body : Option CallbackPayload) (q : CallbackPayload)
    → Accepts (check_body body) q
    → (body ≡ some q) × (q.run_id ≢ []) × IsTerminal q.status
unfolding check_body
accepted_body none q h = absurd (refused_verdict h)
accepted_body (some p) q h =
    let (same, run, status, terminal) = accepted_payload p q h in
    (ap some same, (not_blank q.run_id).0 run, (is_terminal_status_iff q.status).0 terminal)

accepted_callback :
    (secret header : Text) (body : Option CallbackPayload) (q : CallbackPayload)
    → Accepts (session_callback secret header body) q
    → (secret ≢ []) × (header ≡ secret) × Accepts (check_body body) q
unfolding session_callback
accepted_callback secret header body q h = elim (Bool-cases (is_blank secret)) [
  | inl blank ↦ absurd (refused_verdict (rw (session_callback, blank) at h))
  | inr set ↦ elim (Bool-cases (text_eq header secret)) [
    | inl same ↦ (
      (not_blank secret).0 set,
      text_eq_sound header secret same,
      rw (session_callback, set, same) at h,
    )
    | inr other ↦ absurd (refused_verdict (rw (session_callback, set, other) at h))
  ]
]

-- A callback is accepted, as the payload that it has, exactly when a secret is configured, the header
-- equals it, the body is a payload, and the payload names a run and one of the three statuses in
-- which a session ends.
pub session_callback_iff :
    (secret header : Text) (body : Option CallbackPayload) (p : CallbackPayload)
    → Accepts (session_callback secret header body) p ↔ (
        (secret ≢ []) × (header ≡ secret) × (body ≡ some p) × (p.run_id ≢ []) × IsTerminal p.status)
unfolding session_callback check_body
session_callback_iff secret header body p = (
  λ h.
      let (set, same, accepts) = accepted_callback secret header body p h in
      let (given, run, terminal) = accepted_body body p accepts in
      (set, same, given, run, terminal),
  λ (set, same, given, run, terminal).
      rw (given, same, text_eq_refl secret, (not_blank secret).1 set)
        (filled_payload p (
          (not_blank p.run_id).1 run,
          terminal-filled p.status terminal,
          (is_terminal_status_iff p.status).1 terminal,
        )),
)

-- ===== src/Runner/Sound.antt =====
-- The steps of a runner with one session in flight keep its journal in step with the sessions
-- (services/runner/main.go).
use agent_nexus.Prelude.{
  ℕ, zero, suc, ◌≡◌, refl, ◌⊎◌, inl, inr, true, Option, none, some, List, [], ◌∷◌, arith, member,
  member-append,
}
use agent_nexus.Runner.{
  Runner, Write, finish, next_subscriber, attempt, without_done, remove_journal, journaled, restart,
  Action, step,
}

-- The journal against the sessions, when at most one session is in flight: it has the subscribers of the
-- active session, or those of the one that is done, each with its callback attempted or left.
abbrev pub Fits : Option (List ℕ) → List (List ℕ) → Option (List ℕ) → List ℕ → Type 0
Fits none [] none attempted = Unit
Fits (some subs) [] (some saved) attempted = subs ≡ saved
Fits none (left ∷ []) (some saved) attempted =
    (x : ℕ) → member x saved ≡ true → (member x attempted ≡ true) ⊎ (member x left ≡ true)
Fits _ _ _ attempted = ⊥

abbrev pub IsSound : Runner → Type 0
IsSound s = Fits s.active s.finishing s.journal s.attempted

-- its callback was attempted, or the journal has it
abbrev pub IsHeld : ℕ → Runner → Type 0
IsHeld x s = (member x s.attempted ≡ true) ⊎ (member x (journaled s.journal) ≡ true)

-- A launch whose journal is written and that starts no session while an earlier one is finishing.
abbrev pub IsApart : Action → Runner → Type 0
IsApart (Action.launches Write.written run) s = s.active ≡ none → s.finishing ≡ []
IsApart (Action.launches _ run) s = ⊥
IsApart _ s = Unit

abbrev pub AllApart : List Action → Runner → Type 0
AllApart [] s = Unit
AllApart (a ∷ rest) s = IsApart a s × AllApart rest (step a s)

-- a step keeps the runner sound and holds what was held
pub record Holds (s next : Runner) : Type 0 where
  pub sound : IsSound next
  pub held : (x : ℕ) → IsHeld x s → IsHeld x next

pub Holds-same : (s : Runner) → IsSound s → Holds s s
Holds-same s h = record { sound = h; held = λ x g. g }

pub restart-Holds : (s : Runner) → IsSound s → Holds s (restart s)
restart-Holds s h = record {
  sound = tt;
  held = λ x g. inl (ground (arith, member-append x (journaled s.journal) s.attempted));
}

abbrev pub state : Option (List ℕ) → List (List ℕ) → Option (List ℕ) → List ℕ → Runner
state active finishing journal attempted = record {
  active = active;
  finishing = finishing;
  journal = journal;
  attempted = attempted;
}

pub finish-Holds :
    (active : Option (List ℕ)) (finishing : List (List ℕ)) (journal : Option (List ℕ))
    (attempted : List ℕ)
    → Fits active finishing journal attempted
    → Holds
        (state active finishing journal attempted)
        (finish (state active finishing journal attempted))
finish-Holds none finishing journal attempted h = Holds-same _ h
finish-Holds (some subs) [] (some saved) attempted h = record {
  sound = λ x g. inr (rw h g);
  held = λ x g. g;
}
finish-Holds (some subs) [] none attempted h = absurd h
finish-Holds (some subs) (left ∷ rest) journal attempted h = absurd h

next_subscriber-none : (i : ℕ) → next_subscriber i [] ≡ none
next_subscriber-none zero = refl
next_subscriber-none (suc i) = refl

without_done-none : (i : ℕ) → without_done i [] ≡ none
without_done-none zero = refl
without_done-none (suc i) = refl

next_subscriber-suc-none : (i : ℕ) (left : List ℕ) → next_subscriber (suc i) (left ∷ []) ≡ none
next_subscriber-suc-none zero left = refl
next_subscriber-suc-none (suc i) left = refl

without_done-suc-none : (i : ℕ) (left : List ℕ) → without_done (suc i) (left ∷ []) ≡ none
without_done-suc-none zero left = refl
without_done-suc-none (suc i) left = refl

attempt-none-Holds :
    {o : Option (ℕ × List (List ℕ))} (s : Runner) → o ≡ none → IsSound s → Holds s (attempt o s)
attempt-none-Holds {o} s e h = rw e (Holds-same s h)

remove-none-Holds :
    {o : Option (List (List ℕ))} (s : Runner) → o ≡ none → IsSound s → Holds s (remove_journal o s)
remove-none-Holds {o} s e h = rw e (Holds-same s h)

pub attempt-Holds :
    (i : ℕ) (active : Option (List ℕ)) (finishing : List (List ℕ)) (journal : Option (List ℕ))
    (attempted : List ℕ)
    → Fits active finishing journal attempted
    → Holds
        (state active finishing journal attempted)
        (attempt (next_subscriber i finishing) (state active finishing journal attempted))
attempt-Holds i none [] journal attempted h = attempt-none-Holds _ (next_subscriber-none i) h
attempt-Holds i (some subs) [] journal attempted h = attempt-none-Holds _ (next_subscriber-none i) h
attempt-Holds zero none ([] ∷ []) journal attempted h = Holds-same _ h
attempt-Holds zero none ((run ∷ left) ∷ []) (some saved) attempted h = record {
  sound = λ x g. (let k = h x g in ground (arith));
  held = λ x g. ground (arith);
}
attempt-Holds (suc i) none (left ∷ []) journal attempted h =
    attempt-none-Holds _ (next_subscriber-suc-none i left) h
attempt-Holds zero none ([] ∷ (_ ∷ _)) journal attempted h = absurd h
attempt-Holds zero none ((run ∷ left) ∷ []) none attempted h = absurd h
attempt-Holds zero none ((run ∷ left) ∷ (_ ∷ _)) journal attempted h = absurd h
attempt-Holds (suc i) none (left ∷ (_ ∷ _)) journal attempted h = absurd h
attempt-Holds i (some subs) (left ∷ _) journal attempted h = absurd h

pub remove-Holds :
    (i : ℕ) (active : Option (List ℕ)) (finishing : List (List ℕ)) (journal : Option (List ℕ))
    (attempted : List ℕ)
    → Fits active finishing journal attempted
    → Holds
        (state active finishing journal attempted)
        (remove_journal (without_done i finishing) (state active finishing journal attempted))
remove-Holds i none [] journal attempted h = remove-none-Holds _ (without_done-none i) h
remove-Holds i (some subs) [] journal attempted h = remove-none-Holds _ (without_done-none i) h
remove-Holds zero none ([] ∷ []) (some saved) attempted h = record {
  sound = tt;
  held = λ x g.
      inl (elim g [ inl k ↦ k | inr k ↦ elim (h x k) [ inl j ↦ j | inr j ↦ ground (arith) ] ]);
}
remove-Holds zero none ((run ∷ left) ∷ []) journal attempted h = Holds-same _ h
remove-Holds (suc i) none (left ∷ []) journal attempted h =
    remove-none-Holds _ (without_done-suc-none i left) h
remove-Holds zero none ([] ∷ []) none attempted h = absurd h
remove-Holds zero none ([] ∷ (_ ∷ _)) journal attempted h = absurd h
remove-Holds zero none ((run ∷ left) ∷ (_ ∷ _)) journal attempted h = absurd h
remove-Holds (suc i) none (left ∷ (_ ∷ _)) journal attempted h = absurd h
remove-Holds i (some subs) (left ∷ _) journal attempted h = absurd h

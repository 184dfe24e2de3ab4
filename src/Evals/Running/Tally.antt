-- ===== src/Evals/Running/Tally.antt =====
-- The counts of a suite's run do not depend on the order of its goroutines
-- (services/api/internal/api/handler/evals.go).
use agent_nexus.Prelude.{
  ℕ, zero, suc, ◌+◌, ◌≡◌, refl, sym, ap, ◌∙◌, Bool, true, false, not, Option, none, some, List, [],
  ◌∷◌, ◌++◌, ltb, length, count, count-set, bit, get_elem?, set, map, arith, Bool-cases, inl, inr,
}
use mathlib.Core.List.{map-append, append_assoc}
use agent_nexus.Evals.{EvalRun}
use agent_nexus.Evals.Running.{
  Outcome, Phase, Suite, max_concurrency, holds_slot, tally, Action, start_case, count_case,
  store_case, step, run_suite, start_suite,
}

abbrev pub passes : Outcome → Bool
passes (Outcome.passing i) = true
passes _ = false

abbrev pub fails : Outcome → Bool
fails o = not (passes o)

abbrev pub errs : Outcome → Bool
errs (Outcome.errored i) = true
errs _ = false

-- counted, and of the kind
abbrev pub has : (Outcome → Bool) → Outcome × Phase → Bool
has q (o, Phase.working) = false
has q (o, _) = q o

abbrev pub outcomes_of : Suite → List Outcome
outcomes_of s = map (λ x. x.0) s.started ++ s.waiting

pub record IsTallied (outcomes : List Outcome) (run : EvalRun) (s : Suite) : Type 0 where
  pub all : outcomes_of s ≡ outcomes
  pub passed : s.run.passed ≡ run.passed + count (has passes) s.started
  pub failed : s.run.failed ≡ run.failed + count (has fails) s.started
  pub errors : s.run.error_count ≡ run.error_count + count (has errs) s.started
  pub listed : length s.failed_results ≡ count (has fails) s.started
  pub total : s.run.total_cases ≡ run.total_cases
  pub score : s.run.score ≡ run.score

pub count-append :
    {A : Type 0} (p : A → Bool) (l k : List A) → count p (l ++ k) ≡ count p l + count p k
count-append p [] k = omega arith
count-append p (x ∷ l) k = omega (arith, count-append p l k)

map-set :
    {A B : Type 0} (f : A → B) (l : List A) (i : ℕ) (x y : A)
    → get_elem? l i ≡ some x
    → f x ≡ f y
    → map f (set l i y) ≡ map f l
map-set f [] i x y e h = refl
map-set f (z ∷ l) zero x y e h = ap (λ b. b ∷ map f l) (sym h ∙ ap f (sym (cc)))
map-set f (z ∷ l) (suc i) x y e h = ap (λ r. f z ∷ r) (map-set f l i x y e h)

counted_more :
    (q : Outcome → Bool) (o : Outcome) (l : List (Outcome × Phase)) (i : ℕ)
    → get_elem? l i ≡ some (o, Phase.working)
    → count (has q) (set l i (o, Phase.counted)) ≡ count (has q) l + bit (q o)
counted_more q o l i e =
    omega (arith, count-set (has q) l i (o, Phase.working) (o, Phase.counted) e)

counted_same :
    (q : Outcome → Bool) (o : Outcome) (l : List (Outcome × Phase)) (i : ℕ)
    → get_elem? l i ≡ some (o, Phase.counted)
    → count (has q) (set l i (o, Phase.released)) ≡ count (has q) l
counted_same q o l i e =
    omega (arith, count-set (has q) l i (o, Phase.counted) (o, Phase.released) e)

module _ (outcomes : List Outcome) (run : EvalRun) where
  one_more :
      (o : Outcome) (waiting : List Outcome) (s : Suite)
      → s.waiting ≡ o ∷ waiting
      → IsTallied outcomes run s
      → IsTallied outcomes run
          (record s { started = s.started ++ ((o, Phase.working) ∷ []); waiting = waiting })
  one_more o waiting s e h = record {
    all =
        ap (λ l. l ++ waiting) (map-append (λ x. x.0) s.started ((o, Phase.working) ∷ []))
        ∙ (append_assoc (map (λ x. x.0) s.started) (o ∷ []) waiting
            ∙ (ap (λ l. map (λ x. x.0) s.started ++ l) (sym e) ∙ h.all));
    passed = omega (arith, h.passed, count-append (has passes) s.started ((o, Phase.working) ∷ []));
    failed = omega (arith, h.failed, count-append (has fails) s.started ((o, Phase.working) ∷ []));
    errors = omega (arith, h.errors, count-append (has errs) s.started ((o, Phase.working) ∷ []));
    listed = omega (arith, h.listed, count-append (has fails) s.started ((o, Phase.working) ∷ []));
    total = h.total;
    score = h.score;
  }

  kept_outcomes :
      (o : Outcome) (before after : Phase) (i : ℕ) (s : Suite)
      → get_elem? s.started i ≡ some (o, before)
      → outcomes_of s ≡ outcomes
      → map (λ x. x.0) (set s.started i (o, after)) ++ s.waiting ≡ outcomes
  kept_outcomes o before after i s e h =
      ap (λ l. l ++ s.waiting) (map-set (λ x. x.0) s.started i (o, before) (o, after) e refl) ∙ h

  start-IsTallied :
      (waiting : List Outcome) (s : Suite)
      → s.waiting ≡ waiting
      → IsTallied outcomes run s
      → IsTallied outcomes run (start_case waiting s)
  start-IsTallied [] s e h = h
  start-IsTallied (o ∷ waiting) s e h =
      elim (Bool-cases (ltb (count holds_slot s.started) max_concurrency)) [
        | inl free ↦ rw free (one_more o waiting s e h)
        | inr full ↦ rw full h
      ]

  count_set-IsTallied :
      (o : Outcome) (i : ℕ) (s : Suite)
      → get_elem? s.started i ≡ some (o, Phase.working)
      → IsTallied outcomes run s
      → IsTallied outcomes run (tally o (record s { started = set s.started i (o, Phase.counted) }))
  count_set-IsTallied (Outcome.passing n) i s e h = record {
    all = kept_outcomes (Outcome.passing n) Phase.working Phase.counted i s e h.all;
    passed = omega (arith, h.passed, counted_more passes (Outcome.passing n) s.started i e);
    failed = omega (arith, h.failed, counted_more fails (Outcome.passing n) s.started i e);
    errors = omega (arith, h.errors, counted_more errs (Outcome.passing n) s.started i e);
    listed = omega (arith, h.listed, counted_more fails (Outcome.passing n) s.started i e);
    total = h.total;
    score = h.score;
  }
  count_set-IsTallied (Outcome.failing n) i s e h = record {
    all = kept_outcomes (Outcome.failing n) Phase.working Phase.counted i s e h.all;
    passed = omega (arith, h.passed, counted_more passes (Outcome.failing n) s.started i e);
    failed = omega (arith, h.failed, counted_more fails (Outcome.failing n) s.started i e);
    errors = omega (arith, h.errors, counted_more errs (Outcome.failing n) s.started i e);
    listed = omega (arith, h.listed, counted_more fails (Outcome.failing n) s.started i e);
    total = h.total;
    score = h.score;
  }
  count_set-IsTallied (Outcome.errored n) i s e h = record {
    all = kept_outcomes (Outcome.errored n) Phase.working Phase.counted i s e h.all;
    passed = omega (arith, h.passed, counted_more passes (Outcome.errored n) s.started i e);
    failed = omega (arith, h.failed, counted_more fails (Outcome.errored n) s.started i e);
    errors = omega (arith, h.errors, counted_more errs (Outcome.errored n) s.started i e);
    listed = omega (arith, h.listed, counted_more fails (Outcome.errored n) s.started i e);
    total = h.total;
    score = h.score;
  }

  count_case-IsTallied :
      (x : Option (Outcome × Phase)) (i : ℕ) (s : Suite)
      → get_elem? s.started i ≡ x
      → IsTallied outcomes run s
      → IsTallied outcomes run (count_case x i s)
  count_case-IsTallied (some (o, Phase.working)) i s e h = count_set-IsTallied o i s e h
  count_case-IsTallied (some (o, Phase.counted)) i s e h = h
  count_case-IsTallied (some (o, Phase.released)) i s e h = h
  count_case-IsTallied none i s e h = h

  store_case-IsTallied :
      (x : Option (Outcome × Phase)) (ok : Bool) (i : ℕ) (s : Suite)
      → get_elem? s.started i ≡ x
      → IsTallied outcomes run s
      → IsTallied outcomes run (store_case x ok i s)
  store_case-IsTallied (some (o, Phase.counted)) ok i s e h = record {
    all = kept_outcomes o Phase.counted Phase.released i s e h.all;
    passed = omega (arith, h.passed, counted_same passes o s.started i e);
    failed = omega (arith, h.failed, counted_same fails o s.started i e);
    errors = omega (arith, h.errors, counted_same errs o s.started i e);
    listed = omega (arith, h.listed, counted_same fails o s.started i e);
    total = h.total;
    score = h.score;
  }
  store_case-IsTallied (some (o, Phase.working)) ok i s e h = h
  store_case-IsTallied (some (o, Phase.released)) ok i s e h = h
  store_case-IsTallied none ok i s e h = h

  pub run_suite-IsTallied :
      (s : Suite) (actions : List Action)
      → IsTallied outcomes run s
      → IsTallied outcomes run (run_suite s actions)
  unfolding run_suite step
  run_suite-IsTallied s [] h = h
  run_suite-IsTallied s (Action.starts ∷ rest) h =
      run_suite-IsTallied (step s Action.starts) rest (start-IsTallied s.waiting s refl h)
  run_suite-IsTallied s (Action.counts i ∷ rest) h =
      run_suite-IsTallied (step s (Action.counts i)) rest
        (count_case-IsTallied (get_elem? s.started i) i s refl h)
  run_suite-IsTallied s (Action.stores ok i ∷ rest) h =
      run_suite-IsTallied (step s (Action.stores ok i)) rest
        (store_case-IsTallied (get_elem? s.started i) ok i s refl h)

pub start_suite-IsTallied :
    (outcomes : List Outcome) (run : EvalRun) → IsTallied outcomes run (start_suite outcomes run)
start_suite-IsTallied outcomes run = record {
  all = refl;
  passed = omega arith;
  failed = omega arith;
  errors = omega arith;
  listed = refl;
  total = refl;
  score = refl;
}

-- all goroutines have counted when all slots are free
pub count-released :
    (q : Outcome → Bool) (l : List (Outcome × Phase))
    → count holds_slot l ≡ 0
    → count (has q) l ≡ count q (map (λ x. x.0) l)
count-released q [] h = refl
count-released q ((o, Phase.released) ∷ l) h = omega (arith, count-released q l (omega arith))
count-released q ((o, Phase.working) ∷ l) h = absurd (omega arith)
count-released q ((o, Phase.counted) ∷ l) h = absurd (omega arith)

pub count-fails : (l : List Outcome) → count passes l + count fails l ≡ length l
count-fails [] = refl
count-fails (Outcome.passing n ∷ l) = omega (arith, count-fails l)
count-fails (Outcome.failing n ∷ l) = omega (arith, count-fails l)
count-fails (Outcome.errored n ∷ l) = omega (arith, count-fails l)

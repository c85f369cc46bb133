-- ===== src/Tasks/Payment/Phases.antt =====
-- A task's payment as a machine of three phases, which the submissions, callbacks and time-outs
-- follow.
use kin_app_server.Common.{
  ℕ, ◌+◌, ◌≡◌, ◌≤◌, refl, ap, Bool, true, false, not, ◌&&◌, List, [], ◌∷◌, one_if, arith,
  Option-cases, inl, inr,
}
use kin_app_server.Common.Table.{count_rows, first_row}
use kin_app_server.Account.Captcha.{CaptchaConfig}
use kin_app_server.Tasks.Next.{elem}
use kin_app_server.Tasks.Results.{Surroundings}
use kin_app_server.Tasks.Payment.{
  Purse, Paid, Callback, record_paid, was_compensated, payment_service_callback, is_cached,
}
use kin_app_server.Tasks.Payment.Once.{
  for_task, requests_for, Event, submit, report, lock_times_out, cache_times_out, row_changes,
  other_is_paid, step, run, mishap, mishaps, submission_bound, step_bound,
}
use kin_app_server.Tasks.Payment.Final.{step-Kept}

pub data Phase : Type 0 where
  unpaid paying paid : Phase

-- The machine: a paid task stays paid.
abbrev pub may_move : Phase → Phase → Bool
may_move paid unpaid = false
may_move paid paying = false
may_move _ _ = true

-- How many requests a move may send, and whether it is one that only a mishap explains.
abbrev pub sends : Phase → Phase → ℕ
sends unpaid paying = 1
sends unpaid paid = 1
sends _ _ = 0

abbrev pub frees : Phase → Phase → ℕ
frees paying unpaid = 1
frees _ _ = 0

abbrev pub follows : Phase → List Phase → Bool
follows p [] = true
follows p (q ∷ qs) = may_move p q && follows q qs

abbrev pub sent : Phase → List Phase → ℕ
sent p [] = 0
sent p (q ∷ qs) = sends p q + sent q qs

abbrev pub freed : Phase → List Phase → ℕ
freed p [] = 0
freed p (q ∷ qs) = frees p q + freed q qs

-- The phase that a state shows.
abbrev pub phase_of : Bool → Bool → Phase
phase_of true locked = paid
phase_of false true = paying
phase_of false false = unpaid

unfoldable pub phase : ℕ → Purse → Phase
phase task_id s = phase_of (was_compensated task_id s) (elem task_id s.locks)

-- The move from one pair of flags to another, where `r` and `r'` are the requests before and after.
move-submit :
    (c l c' l' : Bool) (r r' : ℕ)
    → r' + one_if (not l' && not c') ≤ r + one_if (not l && not c)
    → r ≤ r'
    → (c ≡ true → (r' ≤ r) × (c' ≡ true))
    → (may_move (phase_of c l) (phase_of c' l') ≡ true)
      × (r' ≤ r + sends (phase_of c l) (phase_of c' l'))
      × (frees (phase_of c l) (phase_of c' l') ≤ 0)
move-submit true l c' l' r r' h m k =
    let (a, b) = k refl in rw b (refl, ground (arith, a), ground arith)
move-submit false true true l' r r' h m k = (refl, ground (arith, h), ground arith)
move-submit false true false true r r' h m k = (refl, ground (arith, h), ground arith)
move-submit false true false false r r' h m k = ground (arith, h, m)
move-submit false false true l' r r' h m k = (refl, ground (arith, h), ground arith)
move-submit false false false true r r' h m k = (refl, ground (arith, h), ground arith)
move-submit false false false false r r' h m k = (refl, ground (arith, h), ground arith)

move-other :
    (c l c' l' : Bool) (r r' m : ℕ)
    → r' ≡ r
    → r' + one_if (not l' && not c') ≤ r + one_if (not l && not c) + m
    → (c ≡ true → (r' ≤ r) × (c' ≡ true))
    → (may_move (phase_of c l) (phase_of c' l') ≡ true)
      × (r' ≤ r + sends (phase_of c l) (phase_of c' l'))
      × (frees (phase_of c l) (phase_of c' l') ≤ m)
move-other true l c' l' r r' m e h k =
    let (a, b) = k refl in rw b (refl, ground (arith, a), ground arith)
move-other false true true l' r r' m e h k = (refl, ground (arith, e, h), ground arith)
move-other false true false true r r' m e h k = (refl, ground (arith, e, h), ground arith)
move-other false true false false r r' m e h k = (refl, ground (arith, e, h), ground (arith, e, h))
move-other false false true l' r r' m e h k = (refl, ground (arith, e, h), ground arith)
move-other false false false true r r' m e h k = (refl, ground (arith, e, h), ground arith)
move-other false false false false r r' m e h k = (refl, ground (arith, e, h), ground arith)

record_paid-requests :
    (b : Callback) (t : Paid) (s : Purse) → (record_paid b t s).1.requests ≡ s.requests
record_paid-requests b t s = ground arith

callback-requests :
    (releases : Bool) (b : Callback) (s : Purse)
    → (payment_service_callback releases b s).1.requests ≡ s.requests
unfolding payment_service_callback
callback-requests releases b s = elim (Option-cases b.memo) [
  | inl e ↦ ground (arith, e)
  | inr (memo, e) ↦ elim (Option-cases b.tx_hash) [
    | inl e' ↦ ground (arith, e, e')
    | inr (h, e') ↦ elim (Option-cases (first_row (is_cached memo) s.cached)) [
      | inl e'' ↦ ground (arith, e, e', e'')
      | inr ((k, t, push), e'') ↦ ground (arith, e, e', e'')
    ]
  ]
]

module _ (u : Surroundings) (c : CaptchaConfig) (releases : Bool) where
  unfoldable pub phases : ℕ → List Event → Purse → List Phase
  unfolding step phase
  phases task_id [] s = []
  phases task_id (e ∷ es) s =
      let s' = step u c releases e s in phase task_id s' ∷ phases task_id es s'

  -- The facts about a step that makes no request.
  other :
      (task_id : ℕ) (e : Event) (s : Purse)
      → (step u c releases e s).requests ≡ s.requests
      → (may_move (phase task_id s) (phase task_id (step u c releases e s)) ≡ true)
        × (requests_for task_id (step u c releases e s)
            ≤ requests_for task_id s
              + sends (phase task_id s) (phase task_id (step u c releases e s)))
        × (frees (phase task_id s) (phase task_id (step u c releases e s))
            ≤ mishap u c releases task_id e s)
  unfolding phase
  other task_id e s h =
      let s' = step u c releases e s in
      move-other (was_compensated task_id s) (elem task_id s.locks) (was_compensated task_id s')
        (elem task_id s'.locks) (requests_for task_id s) (requests_for task_id s')
        (mishap u c releases task_id e s) (ap (count_rows (for_task task_id)) h)
        (step_bound u c releases task_id e s) (step-Kept u c releases task_id e s)

  step-phase :
      (task_id : ℕ) (e : Event) (s : Purse)
      → (may_move (phase task_id s) (phase task_id (step u c releases e s)) ≡ true)
        × (requests_for task_id (step u c releases e s)
            ≤ requests_for task_id s
              + sends (phase task_id s) (phase task_id (step u c releases e s)))
        × (frees (phase task_id s) (phase task_id (step u c releases e s))
            ≤ mishap u c releases task_id e s)
  unfolding phase step
  step-phase task_id (submit b) s =
      let s' = step u c releases (submit b) s in
      move-submit (was_compensated task_id s) (elem task_id s.locks) (was_compensated task_id s')
        (elem task_id s'.locks) (requests_for task_id s) (requests_for task_id s')
        ((submission_bound u c task_id b s).0) ((submission_bound u c task_id b s).1)
        (step-Kept u c releases task_id (submit b) s)
  step-phase task_id (report b) s = other task_id (report b) s (callback-requests releases b s)
  step-phase task_id (lock_times_out t) s = other task_id (lock_times_out t) s refl
  step-phase task_id (cache_times_out memo) s = other task_id (cache_times_out memo) s refl
  step-phase task_id (row_changes f) s = other task_id (row_changes f) s refl
  step-phase task_id (other_is_paid b t) s =
      other task_id (other_is_paid b t) s (record_paid-requests b t s)

  -- The states refine the machine of three phases: whatever events follow on each other, the phases
  -- that they show for a task are moves of the machine, the requests that they send for the task are
  -- at most those that its moves send, and it moves from paying back to unpaid at most once for each
  -- time-out of the task's lock and each callback whose hash is in the table already, that has no
  -- sender's address, or whose amount is not an integer.
  pub run-phases :
      (task_id : ℕ) (es : List Event) (s : Purse)
      → (follows (phase task_id s) (phases task_id es s) ≡ true)
        × (requests_for task_id (run u c releases es s)
            ≤ requests_for task_id s + sent (phase task_id s) (phases task_id es s))
        × (freed (phase task_id s) (phases task_id es s) ≤ mishaps u c releases task_id es s)
  unfolding run phases mishaps
  run-phases task_id [] s = (refl, omega arith, omega arith)
  run-phases task_id (e ∷ es) s =
      let a = step-phase task_id e s in
      let b = run-phases task_id es (step u c releases e s) in
      (ground (arith, a.0, b.0), omega (arith, a.1, b.1), omega (arith, a.2, b.2))

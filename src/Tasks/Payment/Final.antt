-- ===== src/Tasks/Payment/Final.antt =====
-- A task that a transaction pays for.
use kin_app_server.Common.{
  ℕ, not, ◌&&◌, ◌||◌, ◌≡◌, ◌≤◌, String, Bool, true, false, Option, some, List, [], ◌∷◌, ◌==◌, arith,
  Bool-cases, Option-cases, inl, inr,
}
use kin_app_server.Common.Table.{count_rows, first_row}
use kin_app_server.Common.Int.{ℤ}
use kin_app_server.Action.{ok, err, after, call-cases}
use kin_app_server.Account.Captcha.{CaptchaConfig, check_captcha}
use kin_app_server.Tasks.{Task2}
use kin_app_server.Tasks.Next.{has_task_id, elem}
use kin_app_server.Tasks.Reward.{delta}
use kin_app_server.Tasks.Results.{Surroundings}
use kin_app_server.Tasks.Payment.{
  Paid, Purse, Submission, Callback, was_compensated, lock_and_pay, settle_results,
  post_user_task_results, payment_service_callback, store, is_cached, has_hash, record_paid,
}
use kin_app_server.Tasks.Payment.Once.{
  requests_for, Event, submit, report, lock_times_out, cache_times_out, row_changes, other_is_paid,
  step, run, elem-delete_same, pay_bound, store_keeps, first_id,
}

-- No further request for the task, and a transaction pays for it still.
abbrev pub Kept : ℕ → Purse → Purse → Type 0
Kept task_id s s' =
    (requests_for task_id s' ≤ requests_for task_id s) × (was_compensated task_id s' ≡ true)

record_paid-Kept :
    (task_id : ℕ) (b : Callback) (t : Paid) (s : Purse)
    → was_compensated task_id s ≡ true
    → Kept task_id s (record_paid b t s).1
unfolding was_compensated
record_paid-Kept task_id b t s h = ground (arith, h)

module _ (u : Surroundings) (c : CaptchaConfig) where
  lock_keeps :
      (task_id : ℕ) (b : Submission) (t : Task2) (d : ℤ) (s : Purse)
      → t.task_id ≡ b.task_id
      → was_compensated b.task_id s ≡ false
      → was_compensated task_id s ≡ true
      → Kept task_id s (after (lock_and_pay u c b t d) s)
  unfolding lock_and_pay was_compensated
  lock_keeps task_id b t d s ht hw h = elim (Bool-cases (elem b.task_id s.locks)) [
    | inl e ↦ ground (arith, e, h)
    | inr e ↦ elim (Bool-cases (b.task_id == task_id)) [
      | inl q ↦ ground (arith, q, hw, h)
      | inr q ↦ ground (
        arith,
        e,
        h,
        ht,
        q,
        pay_bound u c task_id b t d (record s { locks = b.task_id ∷ s.locks }),
      )
    ]
  ]

  settle_keeps :
      (task_id : ℕ) (b : Submission) (s : Purse)
      → was_compensated task_id s ≡ true
      → Kept task_id s (after (settle_results u c b) s)
  unfolding settle_results was_compensated
  settle_keeps task_id b s h = elim (call-cases (store u c b s)) [
    | inr (x, s', e') ↦ ground (arith, e', h, store_keeps u c b s (err x) s' e')
    | inl (x, s', e') ↦ elim (Bool-cases (was_compensated b.task_id s)) [
      | inl e ↦ ground (arith, e, e', h, store_keeps u c b s (ok x) s' e')
      | inr e ↦ elim (Option-cases (first_row (has_task_id b.task_id) u.tasks)) [
        | inl e'' ↦ ground (arith, e, e'', h)
        | inr (t, e'') ↦ elim (Option-cases (delta t b.results)) [
          | inl e3 ↦ ground (arith, e, e'', e3, h)
          | inr (d, e3) ↦
              let k = store_keeps u c b s (ok x) s' e' in
              let w : was_compensated b.task_id s' ≡ false = rw (k.2) e in
              let h' : was_compensated task_id s' ≡ true = rw (k.2) h in
              ground (
                arith,
                e,
                e',
                e'',
                e3,
                k,
                lock_keeps task_id b t d s' (first_id u c b.task_id t e'') w h',
              )
        ]
      ]
    ]
  ]

  submission_keeps :
      (task_id : ℕ) (b : Submission) (s : Purse)
      → was_compensated task_id s ≡ true
      → Kept task_id s (after (post_user_task_results u c b) s)
  unfolding post_user_task_results was_compensated
  submission_keeps task_id b s h = elim (Option-cases s.desk.row) [
    | inl e ↦ ground (arith, e, h)
    | inr (row, e) ↦
        let row' = (check_captcha c u.older u.os_type b.now b.captcha_token row).1 in
        let s' : Purse = record s { desk = record s.desk { row = some row' } } in
        ground (arith, e, h, settle_keeps task_id b s' h)
  ]

callback_keeps :
    (releases : Bool) (task_id : ℕ) (b : Callback) (s : Purse)
    → was_compensated task_id s ≡ true
    → Kept task_id s (payment_service_callback releases b s).1
unfolding payment_service_callback was_compensated
callback_keeps releases task_id b s h = elim (Option-cases b.memo) [
  | inl e ↦ ground (arith, e, h)
  | inr (memo, e) ↦ elim (Option-cases b.tx_hash) [
    | inl e' ↦ ground (arith, e, e', h)
    | inr (x, e') ↦ elim (Option-cases (first_row (is_cached memo) s.cached)) [
      | inl e'' ↦ ground (arith, e, e', e'', h)
      | inr ((k, t, push), e'') ↦ ground (arith, e, e', e'', h)
    ]
  ]
]

module _ (u : Surroundings) (c : CaptchaConfig) (releases : Bool) where
  pub step-Kept :
      (task_id : ℕ) (e : Event) (s : Purse)
      → was_compensated task_id s ≡ true
      → Kept task_id s (step u c releases e s)
  unfolding step was_compensated
  step-Kept task_id (submit b) s h = submission_keeps u c task_id b s h
  step-Kept task_id (report b) s h = callback_keeps releases task_id b s h
  step-Kept task_id (lock_times_out t) s h = ground (arith, h)
  step-Kept task_id (cache_times_out memo) s h = ground (arith, h)
  step-Kept task_id (row_changes f) s h = ground (arith, h)
  step-Kept task_id (other_is_paid b t) s h = record_paid-Kept task_id b t s h

  -- Once a transaction pays for a task, no further request for the task is sent to the payment
  -- service, whatever follows, time-outs of the lock included, and a transaction pays for it still.
  pub requests_for-was_compensated :
      (task_id : ℕ) (es : List Event) (s : Purse)
      → was_compensated task_id s ≡ true
      → (requests_for task_id (run u c releases es s) ≤ requests_for task_id s)
        × (was_compensated task_id (run u c releases es s) ≡ true)
  unfolding run
  requests_for-was_compensated task_id [] s h = ground (arith, h)
  requests_for-was_compensated task_id (e ∷ es) s h =
      let k = step-Kept task_id e s h in
      ground (arith, h, k, requests_for-was_compensated task_id es (step u c releases e s) (k.1))

-- A callback that reports success, with a sender's address, an amount that is an integer, a memo
-- that the cache holds with a task, and the hash of no transaction in the table, leaves a
-- transaction that pays for that task, also where the push then raises. It is answered with an
-- error exactly where a push was asked for and raises; the lock then stays as it was, and otherwise,
-- where it can be released, it is free. It sends no request.
pub payment_service_callback-was_compensated :
    (releases push raises : Bool) (memo : String) (h task_id address : ℕ) (k : Option String)
    (s : Purse)
    → first_row (is_cached memo) s.cached ≡ some (k, task_id, push)
    → count_rows (has_hash h) s.txs ≡ 0
    → let b : Callback = record {
      is_success = true;
      memo = some memo;
      tx_hash = some h;
      has_amount = true;
      is_int_amount = true;
      sender_address = some address;
      push_raises = raises;
    } in
      (was_compensated task_id (payment_service_callback releases b s).1 ≡ true)
      × ((payment_service_callback releases b s).0 ≡ not (push && raises))
      × (elem task_id (payment_service_callback releases b s).1.locks
          ≡ (elem task_id s.locks && (not releases || (push && raises))))
      × ((payment_service_callback releases b s).1.requests ≡ s.requests)
unfolding payment_service_callback was_compensated
payment_service_callback-was_compensated releases push raises memo h task_id address k s hc hh = (
  ground (arith, hc, hh),
  ground (arith, hc, hh),
  ground (arith, hc, hh, elem-delete_same task_id s.locks),
  ground (arith, hc, hh),
)

-- ===== src/Tasks/Payment/Once.antt =====
-- How often a task is paid for.
use kin_app_server.Common.{
  ℕ, ◌+◌, ◌≡◌, ◌≤◌, refl, ap, sym, String, Bool, false, not, ◌&&◌, Option, none, some, is_none,
  ◌||◌, List, [], ◌∷◌, ◌==◌, one_if, arith, Bool-cases, Option-cases, inl, inr,
}
use kin_app_server.Common.Table.{elem-delete, count_rows, first_row, first_row-holds, delete_rows}
use kin_app_server.Common.Int.{ℤ}
use kin_app_server.Action.{Result, ok, after, call-cases}
use kin_app_server.Account.{UserAppData}
use kin_app_server.Account.Captcha.{CaptchaConfig, check_captcha, do_captcha_stuff}
use kin_app_server.Tasks.{Task2}
use kin_app_server.Tasks.Next.{has_task_id, elem}
use kin_app_server.Tasks.Reward.{delta, amount}
use kin_app_server.Tasks.Results.{Surroundings}
use kin_app_server.Tasks.Payment.{
  Request, Paid, Purse, Submission, Callback, row_of, was_compensated,
  send_kin_with_payment_service, reward_address, pay, lock_and_pay, settle_results,
  post_user_task_results, payment_service_callback, get_and_replace_next_task_memo, store,
  is_cached, has_hash, record_paid,
}

abbrev pub for_task : ℕ → Request → Bool
for_task task_id r = r.task_id == task_id

-- How many requests for the task were sent to the payment service.
abbrev pub requests_for : ℕ → Purse → ℕ
requests_for task_id s = count_rows (for_task task_id) s.requests

-- The lock is free, and no transaction pays for the task.
abbrev pub is_open : ℕ → Purse → Bool
is_open task_id s = not (elem task_id s.locks) && not (was_compensated task_id s)

abbrev pub due : ℕ → Purse → ℕ
due task_id s = requests_for task_id s + one_if (is_open task_id s)

-- What happens to the purse: a submission, a callback, the timing out of a lock or of an entry of
-- the cache, any other change to the user's row, and a callback's payment to another user of the
-- phone number.
pub data Event : Type 0 where
  submit : Submission → Event
  report : Callback → Event
  lock_times_out : ℕ → Event
  cache_times_out : String → Event
  row_changes : (UserAppData → UserAppData) → Event
  other_is_paid : Callback → Paid → Event

abbrev pub is_unrecorded : Callback → ℕ → Purse → Bool
is_unrecorded b h s =
    not b.is_int_amount || is_none b.sender_address || not (count_rows (has_hash h) s.txs == 0)

module _ (u : Surroundings) (c : CaptchaConfig) (releases : Bool) where
  unfoldable pub step : Event → Purse → Purse
  unfolding post_user_task_results payment_service_callback
  step (submit b) s = after (post_user_task_results u c b) s
  step (report b) s = (payment_service_callback releases b s).1
  step (lock_times_out t) s = record s { locks = delete_rows (λ t'. t' == t) s.locks }
  step (cache_times_out memo) s = record s { cached = delete_rows (is_cached memo) s.cached }
  step (row_changes f) s = row_of f s
  step (other_is_paid b t) s = (record_paid b t s).1

  unfoldable pub run : List Event → Purse → Purse
  unfolding step
  run [] s = s
  run (e ∷ es) s = run es (step e s)

  -- A payment lock that times out, or a callback whose transaction is not recorded: the hash is that
  -- of an earlier transaction, the sender's address is missing, or the amount is not an integer.
  abbrev pub mishap : ℕ → Event → Purse → ℕ
  mishap task_id (lock_times_out t) s = one_if (t == task_id)
  mishap task_id (report b) s = elim b.tx_hash [ none ↦ 0 | some h ↦ one_if (is_unrecorded b h s) ]
  mishap task_id e s = 0

  unfoldable pub mishaps : ℕ → List Event → Purse → ℕ
  unfolding step
  mishaps task_id [] s = 0
  mishaps task_id (e ∷ es) s = mishap task_id e s + mishaps task_id es (step e s)

pub elem-delete_same : (x : ℕ) (xs : List ℕ) → elem x (delete_rows (λ y. y == x) xs) ≡ false
elem-delete_same x [] = refl
elem-delete_same x (y ∷ ys) = ground (arith, elem-delete_same x ys)

-- What is due never grows by what the server does.
record Settled (task_id : ℕ) (s s' : Purse) : Type 0 where
  requests : s'.requests ≡ s.requests
  locks : s'.locks ≡ s.locks
  txs : s'.txs ≡ s.txs

due-Settled :
    (task_id : ℕ) (s s' : Purse)
    → Settled task_id s s'
    → (due task_id s' ≡ due task_id s) × (requests_for task_id s' ≡ requests_for task_id s)
unfolding was_compensated
due-Settled task_id s s' h = (rw (h.requests, h.locks, h.txs) refl, rw (h.requests) refl)

send_bound :
    (task_id : ℕ) (r : Request) (s : Purse)
    → requests_for task_id (send_kin_with_payment_service r s)
        ≤ requests_for task_id s + one_if (r.task_id == task_id)
      × ((send_kin_with_payment_service r s).locks ≡ s.locks)
      × ((send_kin_with_payment_service r s).txs ≡ s.txs)
      × (requests_for task_id s ≤ requests_for task_id (send_kin_with_payment_service r s))
unfolding send_kin_with_payment_service
send_bound task_id r s = ground arith

reward_bound :
    (task_id : ℕ) (t : Task2) (memo : Option String) (push : Bool) (d : ℤ) (s : Purse)
    → requests_for task_id (reward_address push t memo d s)
        ≤ requests_for task_id s + one_if (t.task_id == task_id)
      × ((reward_address push t memo d s).locks ≡ s.locks)
      × ((reward_address push t memo d s).txs ≡ s.txs)
      × (requests_for task_id s ≤ requests_for task_id (reward_address push t memo d s))
unfolding reward_address
reward_bound task_id t memo push d s = elim (Option-cases (amount t d)) [
  | inl e ↦ ground (arith, e)
  | inr (kin, e) ↦ ground (
    arith,
    e,
    send_bound task_id (record { memo = memo; task_id = t.task_id; kin = kin })
        (record s { cached = (memo, t.task_id, push) ∷ s.cached }),
  )
]

module _ (u : Surroundings) (c : CaptchaConfig) where
  store-Settled :
      (task_id : ℕ) (b : Submission) (s : Purse) → Settled task_id s (after (store u c b) s)
  store-Settled task_id b s = record { requests = refl; locks = refl; txs = refl }

  pub pay_bound :
      (task_id : ℕ) (b : Submission) (t : Task2) (d : ℤ) (s : Purse)
      → requests_for task_id (pay u c b t d s).1
          ≤ requests_for task_id s + one_if (t.task_id == task_id)
        × ((pay u c b t d s).1.locks ≡ s.locks)
        × ((pay u c b t d s).1.txs ≡ s.txs)
        × (requests_for task_id s ≤ requests_for task_id (pay u c b t d s).1)
  unfolding pay
  pay_bound task_id b t d s = elim (Option-cases s.desk.row) [
    | inl e ↦ ground (arith, e)
    | inr (row, e) ↦
        elim (call-cases (get_and_replace_next_task_memo t.category_id b.fresh_memo row)) [
          | inr (x, row', e') ↦ ground (arith, e, e')
          | inl (memo, row', e') ↦ elim (call-cases (do_captcha_stuff c u.os_type b.now row')) [
            | inr (x, row'', e'') ↦ ground (arith, e, e', e'')
            | inl (x, row'', e'') ↦ ground (
              arith,
              e,
              e',
              e'',
              reward_bound task_id t memo b.send_push d
                  (record s { desk = record s.desk { row = some row'' } }),
            )
          ]
        ]
  ]

  lock_bound :
      (task_id : ℕ) (b : Submission) (t : Task2) (d : ℤ) (s : Purse)
      → t.task_id ≡ b.task_id
      → was_compensated b.task_id s ≡ false
      → (due task_id (after (lock_and_pay u c b t d) s) ≤ due task_id s)
        × (requests_for task_id s ≤ requests_for task_id (after (lock_and_pay u c b t d) s))
  unfolding lock_and_pay was_compensated
  lock_bound task_id b t d s ht hw = elim (Bool-cases (elem b.task_id s.locks)) [
    | inl e ↦ ground (arith, e)
    | inr e ↦
        ground
          (arith, e, ht, hw, pay_bound task_id b t d (record s { locks = b.task_id ∷ s.locks }))
  ]

  pub store_keeps :
      (b : Submission) (s : Purse) (r : Result Bool) (s' : Purse)
      → store u c b s ≡ (r, s')
      → (s'.requests ≡ s.requests) × (s'.locks ≡ s.locks) × (s'.txs ≡ s.txs)
  store_keeps b s r s' e = (
    ap (λ (x : Result Bool × Purse). x.1.requests) (sym e),
    ap (λ (x : Result Bool × Purse). x.1.locks) (sym e),
    ap (λ (x : Result Bool × Purse). x.1.txs) (sym e),
  )

  pub first_id :
      (task_id : ℕ) (t : Task2)
      → first_row (has_task_id task_id) u.tasks ≡ some t
      → t.task_id ≡ task_id
  first_id task_id t e = ground (arith, first_row-holds (has_task_id task_id) u.tasks t e)

  settle_bound :
      (task_id : ℕ) (b : Submission) (s : Purse)
      → (due task_id (after (settle_results u c b) s) ≤ due task_id s)
        × (requests_for task_id s ≤ requests_for task_id (after (settle_results u c b) s))
  unfolding settle_results was_compensated
  settle_bound task_id b s = elim (Bool-cases (was_compensated b.task_id s)) [
    | inl e ↦ elim (call-cases (store u c b s)) [
      | inl (x, s', e') ↦
          ground (
            arith,
            e,
            e',
            due-Settled task_id s (after (store u c b) s) (store-Settled task_id b s),
          )
      | inr (x, s', e') ↦
          ground (
            arith,
            e,
            e',
            due-Settled task_id s (after (store u c b) s) (store-Settled task_id b s),
          )
    ]
    | inr e ↦ elim (Option-cases (first_row (has_task_id b.task_id) u.tasks)) [
      | inl e' ↦ ground (arith, e, e')
      | inr (t, e') ↦ elim (Option-cases (delta t b.results)) [
        | inl e'' ↦ ground (arith, e, e', e'')
        | inr (d, e'') ↦ elim (call-cases (store u c b s)) [
          | inr (x, s', e3) ↦ ground (
            arith,
            e,
            e',
            e'',
            e3,
            due-Settled task_id s (after (store u c b) s) (store-Settled task_id b s),
          )
          | inl (x, s', e3) ↦
              let k = store_keeps b s (ok x) s' e3 in
              let w : was_compensated b.task_id s' ≡ false = rw (k.2) e in
              ground
                (arith, e, e', e'', e3, k, lock_bound task_id b t d s' (first_id b.task_id t e') w)
        ]
      ]
    ]
  ]

  pub submission_bound :
      (task_id : ℕ) (b : Submission) (s : Purse)
      → (due task_id (after (post_user_task_results u c b) s) ≤ due task_id s)
        × (requests_for task_id s ≤ requests_for task_id (after (post_user_task_results u c b) s))
  unfolding post_user_task_results
  submission_bound task_id b s = elim (Option-cases s.desk.row) [
    | inl e ↦ ground (arith, e)
    | inr (row, e) ↦
        let row' = (check_captcha c u.older u.os_type b.now b.captcha_token row).1 in
        let s' : Purse = record s { desk = record s.desk { row = some row' } } in
        ground (
          arith,
          e,
          settle_bound task_id b s',
          due-Settled task_id s s' (record { requests = refl; locks = refl; txs = refl }),
        )
  ]

pub callback_bound :
    (releases : Bool) (task_id : ℕ) (b : Callback) (s : Purse)
    → due task_id (payment_service_callback releases b s).1
      ≤ due task_id s + elim b.tx_hash [ none ↦ 0 | some h ↦ one_if (is_unrecorded b h s) ]
unfolding payment_service_callback was_compensated
callback_bound releases task_id b s = elim (Option-cases b.memo) [
  | inl e ↦ ground (arith, e)
  | inr (memo, e) ↦ elim (Option-cases b.tx_hash) [
    | inl e' ↦ ground (arith, e, e')
    | inr (h, e') ↦ elim (Option-cases (first_row (is_cached memo) s.cached)) [
      | inl e'' ↦ ground (arith, e, e', e'')
      | inr ((k, t, push), e'') ↦ elim (Bool-cases (t == task_id)) [
        | inl q ↦ ground (arith, e, e', e'', q, elem-delete_same t s.locks)
        | inr q ↦ ground (arith, e, e', e'', q, elem-delete task_id t s.locks)
      ]
    ]
  ]
]

pub record_paid_bound :
    (task_id : ℕ) (b : Callback) (t : Paid) (s : Purse)
    → due task_id (record_paid b t s).1 ≤ due task_id s + 0
unfolding was_compensated
record_paid_bound task_id b t s = ground arith

pub lock_bound_out :
    (task_id t : ℕ) (s : Purse)
    → due task_id (record s { locks = delete_rows (λ t'. t' == t) s.locks })
      ≤ due task_id s + one_if (t == task_id)
unfolding was_compensated
lock_bound_out task_id t s = elim (Bool-cases (t == task_id)) [
  | inl q ↦ ground (arith, q)
  | inr q ↦ ground (arith, q, elem-delete task_id t s.locks)
]

module _ (u : Surroundings) (c : CaptchaConfig) (releases : Bool) where
  pub step_bound :
      (task_id : ℕ) (e : Event) (s : Purse)
      → due task_id (step u c releases e s) ≤ due task_id s + mishap u c releases task_id e s
  unfolding step
  step_bound task_id (submit b) s = omega (arith, (submission_bound u c task_id b s).0)
  step_bound task_id (report b) s = callback_bound releases task_id b s
  step_bound task_id (lock_times_out t) s = lock_bound_out task_id t s
  step_bound task_id (cache_times_out memo) s = ground arith
  step_bound task_id (row_changes f) s = ground arith
  step_bound task_id (other_is_paid b t) s = record_paid_bound task_id b t s

  run_bound :
      (task_id : ℕ) (es : List Event) (s : Purse)
      → due task_id (run u c releases es s) ≤ due task_id s + mishaps u c releases task_id es s
  unfolding run mishaps
  run_bound task_id [] s = ground arith
  run_bound task_id (e ∷ es) s =
      omega (arith, step_bound task_id e s, run_bound task_id es (step u c releases e s))

  -- However submissions, callbacks, time-outs, other changes to the user's row and payments to other
  -- users of the phone number follow on each other, the requests that they send to the payment
  -- service for a task are at most one, plus one for each time-out of that task's payment lock and
  -- for each callback whose hash a transaction in the table has already, that has no sender's
  -- address, or whose amount is not an integer. Where the lock was taken or a transaction pays for the task at the start, they are at most that
  -- without the one.
  pub requests_for-run :
      (task_id : ℕ) (es : List Event) (s : Purse)
      → requests_for task_id (run u c releases es s)
        ≤ requests_for task_id s + one_if (is_open task_id s) + mishaps u c releases task_id es s
  requests_for-run task_id es s = omega (arith, run_bound task_id es s)

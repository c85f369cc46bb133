-- ===== src/Tasks/Payment.antt =====
-- The submission of a task's results and its payment: `post_user_task_results_endpoint` and
-- `payment_service_callback_endpoint` of kinappserver/views_public.py, with
-- `send_kin_with_payment_service` of kinappserver/stellar.py, the memos of
-- kinappserver/models/user.py and `get_memo_for_user_ids` of kinappserver/models/transaction.py.
-- The state is what the server keeps of one user and of the transactions of everyone with the
-- user's phone number. The payment service and Redis are outside: a request that is sent to the
-- service, the service's callback, and the timing out of a lock or of an entry of the cache are
-- steps of their own. A submission is one step: in the source the look for an earlier payment comes
-- well before the lock is taken, and what another request does between the two is not modelled.
pub mod Once
pub mod Final
pub mod Phases
pub mod Paying
mod Tests
use kin_app_server.Common.{
  ℕ, ◌+◌, String, Bool, true, false, not, ◌&&◌, ◌||◌, Option, none, some, List, [], ◌∷◌, ◌++◌, ltb,
  ◌==◌, str_eq, if◌then◌else◌, is_none, is_some, starts_with,
}
use kin_app_server.Common.Int.{ℤ, pos, ltb_ℤ}
use kin_app_server.Common.Table.{count_rows, first_row, delete_rows}
use kin_app_server.Action.{
  Action, Result, ok, err, uncaught, invalid_usage, internal_error, ◌>>=◌, ◌>>◌, pure, raise, gets,
  modify, after,
}
use kin_app_server.Account.{UserAppData, get, put}
use kin_app_server.Account.Captcha.{
  CaptchaConfig, do_captcha_stuff, check_captcha, CaptchaReply, captcha_ok, captcha_missing,
  captcha_failed, CaptchaStatus,
}
use kin_app_server.Shop.Orders.{drop_chars}
use kin_app_server.Users.Access.{AuthStatus, authorized}
use kin_app_server.Tasks.{Task2, Submitted}
use kin_app_server.Tasks.Next.{has_task_id, elem}
use kin_app_server.Tasks.Reward.{delta, amount}
use kin_app_server.Tasks.Results.{
  Desk, Surroundings, get_cat_id_for_task_id, store_task_results, reject_premature_results,
}

-- A request to the payment service; its id is the memo.
pub record Request : Type 0 where
  pub memo : Option String
  pub task_id : ℕ
  pub kin : ℤ

-- A transaction that pays for a task.
pub record Paid : Type 0 where
  pub tx_hash : ℕ
  pub memo : Option String
  pub task_id : ℕ

-- `locks` holds the tasks whose payment lock is taken, `cached` what is remembered for a callback
-- (the memo, the task and `send_push`), and `requests` all that was sent to the payment service, the last one first.
pub record Purse : Type 0 where
  pub desk : Desk
  pub locks : List ℕ
  pub cached : List (Option String × ℕ × Bool)
  pub requests : List Request
  pub txs : List Paid

-- A memo that still has the app's prefix loses it. An empty one counts as none.
abbrev pub without_app : String → Option String
without_app memo =
    if str_eq memo ""
    then none
    else if starts_with memo "1-kit-"
    then some (drop_chars 6 memo)
    else some memo

-- The memo that the user was shown for the category, and `fresh` in its place. A category without
-- a memo raises.
unfoldable pub get_and_replace_next_task_memo :
    ℕ → String → UserAppData → Result (Option String) × UserAppData
get_and_replace_next_task_memo cat_id fresh row = elim (get cat_id row.next_task_memo_dict) [
  | none ↦ (err (invalid_usage "cant set next memo"), row)
  | some memo ↦ (
    ok (without_app memo),
    record row { next_task_memo_dict = put cat_id fresh row.next_task_memo_dict },
  )
]

abbrev pub pays_task : ℕ → Paid → Bool
pays_task task_id t = t.task_id == task_id

-- `get_memo_for_user_ids`, and `handle_task_results_resubmission`
unfoldable pub was_compensated : ℕ → Purse → Bool
was_compensated task_id s = is_some (first_row (pays_task task_id) s.txs)

abbrev pub row_of : (UserAppData → UserAppData) → Purse → Purse
row_of f s = record s {
  desk = record s.desk { row = elim s.desk.row [ none ↦ none | some r ↦ some (f r) ] };
}

-- What is asked of the payment service; less than one kin is not sent.
unfoldable pub send_kin_with_payment_service : Request → Purse → Purse
send_kin_with_payment_service r s =
    if ltb_ℤ r.kin (pos 1) then s else record s { requests = r ∷ s.requests }

-- `reward_address_for_task_internal_payment_service`; a task without a price raises.
unfoldable pub reward_address : Bool → Task2 → Option String → ℤ → Purse → Purse
unfolding send_kin_with_payment_service amount
reward_address send_push t memo d s = elim (amount t d) [
  | none ↦ s
  | some kin ↦
      send_kin_with_payment_service (record { memo = memo; task_id = t.task_id; kin = kin })
        (record s { cached = (memo, t.task_id, send_push) ∷ s.cached })
]

pub data Answer : Type 0 where
  not_authorized : AuthStatus → Answer
  captcha_needed : CaptchaStatus → Answer
  cooldown_enforced already_compensated already_compensating : Answer
  done : Option String → Answer

-- What comes with a request, whose address has been written to the row before: the time, what
-- `authorize` and Google answer, and the two memos that `generate_order_id` would return.
pub record Submission : Type 0 where
  pub now : ℕ
  pub auth_status : AuthStatus
  pub captcha_token : Option (Option CaptchaReply)
  pub task_id : ℕ
  pub results : List Submitted
  pub send_push : Bool
  pub fresh_next : String
  pub fresh_memo : String

module _ (u : Surroundings) (c : CaptchaConfig) where
  abbrev pub on_desk : {A : Type 0} → Action Desk A → Action Purse A
  on_desk m s = let (r, d) = m s.desk in (r, record s { desk = d })

  abbrev pub store : Submission → Action Purse Bool
  store b = on_desk (store_task_results u b.now b.fresh_next b.task_id b.results)

  -- The part under the payment lock: an exception is logged, and the lock stays.
  unfoldable pub pay : Submission → Task2 → ℤ → Purse → Option String × Purse
  unfolding get_and_replace_next_task_memo reward_address do_captcha_stuff
  pay b t d s = elim s.desk.row [
    | none ↦ (none, s)
    | some row ↦
        let (m, row') = get_and_replace_next_task_memo t.category_id b.fresh_memo row in
        elim m [
          | err e ↦ (none, s)
          | ok memo ↦
              let (r, row'') = do_captcha_stuff c u.os_type b.now row' in
              let s' : Purse = record s { desk = record s.desk { row = some row'' } } in
              elim r [ err e ↦ (memo, s') | ok _ ↦ (memo, reward_address b.send_push t memo d s') ]
        ]
  ]

  -- `acquire(blocking=False)`
  unfoldable pub lock_and_pay : Submission → Task2 → ℤ → Action Purse Answer
  unfolding pay
  lock_and_pay b t d s =
      if elem b.task_id s.locks
      then (ok already_compensating, s)
      else let (memo, s') = pay b t d (record s { locks = b.task_id ∷ s.locks }) in
        (ok (done memo), s')

  -- From the look for an earlier payment on.
  unfoldable pub settle_results : Submission → Action Purse Answer
  unfolding was_compensated lock_and_pay
  settle_results b s =
      if was_compensated b.task_id s
      then (store b >> pure already_compensated) s
      else elim (first_row (has_task_id b.task_id) u.tasks) [
        | none ↦ (err uncaught, s)
        | some t ↦ elim (delta t b.results) [
          | none ↦ (err uncaught, s)
          | some d ↦ (store b >> lock_and_pay b t d) s
        ]
      ]

  unfoldable pub post_user_task_results : Submission → Action Purse Answer
  unfolding settle_results
  post_user_task_results b s = elim b.auth_status [
    | authorized ↦ elim s.desk.row [
      | none ↦ (err uncaught, s)
      | some row ↦
          let (status, row') = check_captcha c u.older u.os_type b.now b.captcha_token row in
          let s' : Purse = record s { desk = record s.desk { row = some row' } } in
          elim status [
            | captcha_ok ↦ elim (reject_premature_results u.tasks b.now b.task_id s'.desk) [
              | none ↦ (err uncaught, s')
              | some true ↦ (ok cooldown_enforced, s')
              | some false ↦ settle_results b s'
            ]
            | refused ↦ (ok (captcha_needed refused), s')
          ]
    ]
    | refused ↦ (ok (not_authorized refused), s)
  ]

-- What the payment service reports. `is_int_amount` says whether `int(amount)` returns, and
-- `push_raises` whether the push that tells the user raises, though the session can be used.
pub record Callback : Type 0 where
  pub is_success : Bool
  pub memo : Option String
  pub tx_hash : Option ℕ
  pub has_amount : Bool
  pub is_int_amount : Bool
  pub sender_address : Option ℕ
  pub push_raises : Bool

abbrev pub is_cached : String → Option String × ℕ × Bool → Bool
is_cached memo (k, _, _) = elim k [ none ↦ false | some m ↦ str_eq m memo ]

abbrev pub has_hash : ℕ → Paid → Bool
has_hash h t = t.tx_hash == h

-- `create_tx`, which swallows what is raised: by `int`, before the session is touched, or by the
-- commit, where the address is missing or the hash is in the table already. The answer says whether
-- the session can still be used; after a failed commit it refuses every query.
abbrev pub record_paid : Callback → Paid → Purse → Bool × Purse
record_paid b t s =
    if not b.is_int_amount
    then (true, s)
    else if is_none b.sender_address || not (count_rows (has_hash t.tx_hash) s.txs == 0)
    then (false, s)
    else (true, record s { txs = t ∷ s.txs })

-- `releases` says whether a Redis lock is released through another lock object than took it.
abbrev pub release_lock : Bool → ℕ → Purse → Purse
release_lock releases task_id s =
    if releases then record s { locks = delete_rows (λ t. t == task_id) s.locks } else s

-- False where the answer is an error: something is missing, nothing is remembered of the memo, or
-- the push raises, as it does on a session that refuses its query; the lock then stays.
unfoldable pub payment_service_callback : Bool → Callback → Purse → Bool × Purse
payment_service_callback releases b s = if not b.is_success then (true, s) else elim b.memo [
  | none ↦ (false, s)
  | some memo ↦ elim b.tx_hash [
    | none ↦ (false, s)
    | some h ↦ if not b.has_amount then (false, s) else elim (first_row (is_cached memo) s.cached) [
      | none ↦ (false, s)
      | some (k, task_id, send_push) ↦
          let (usable, s') =
            record_paid b (record { tx_hash = h; memo = some memo; task_id = task_id }) s in
          if send_push && (not usable || b.push_raises)
          then (false, s')
          else (true, release_lock releases task_id s')
    ]
  ]
]

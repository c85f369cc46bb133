-- ===== src/Tasks/Payment/Tests.antt =====
-- A user who submits a task's results twice, before and after the payment is reported.
use kin_app_server.Common.{◌≡◌, ◌≤◌, ◌+◌, refl, true, false, none, some, List, [], ◌∷◌, one_if}
use kin_app_server.Common.Int.{pos, negsuc, ◌+ℤ◌, ◌-ℤ◌}
use kin_app_server.Account.{android, Older, UserAppData}
use kin_app_server.Action.{after}
use kin_app_server.Account.Captcha.{CaptchaConfig, check_captcha}
use kin_app_server.Users.Access.{authorized}
use kin_app_server.Tasks.{questionnaire, text, Task2}
use kin_app_server.Tasks.Next.{elem}
use kin_app_server.Tasks.Reward.{delta}
use kin_app_server.Tasks.Results.{Surroundings, reject_premature_results, store_task_results}
use kin_app_server.Tasks.Payment.{
  Purse, Submission, Callback, Request, lock_and_pay, was_compensated, payment_service_callback,
}
use kin_app_server.Tasks.Payment.Once.{
  requests_for, is_open, Event, submit, report, lock_times_out, run, mishaps, requests_for-run,
}
use kin_app_server.Tasks.Payment.Phases.{
  Phase, paying, phase, phases, follows, sent, freed, run-phases,
}
use kin_app_server.Tasks.Payment.Final.{
  requests_for-was_compensated, payment_service_callback-was_compensated,
}

abbrev task : Task2
task = record {
  task_id = 1;
  category_id = 3;
  position = pos 1;
  task_type = questionnaire;
  price = 4;
  items = record { id = 5; type = text; quiz_data = none; results = [] } ∷ [];
  excluded_country_codes = some [];
  task_start_date = none;
  task_expiration_date = none;
  delay_days = 0;
  min_client_version_android = "1";
  min_client_version_ios = "1";
}

abbrev never_older : Older
never_older a b = false

abbrev around : Surroundings
around = record {
  tasks = task ∷ [];
  truex_blacklisted_taskids = [];
  older = never_older;
  country_code = none;
  os_type = android;
  time_zone = pos 0;
  of_none = 0;
}

abbrev config : CaptchaConfig
config = record {
  debug = false;
  apk_package_name = "org.kin";
  captcha_stale_threshold_secs = 10;
  captcha_min_client_version_android = "1";
  captcha_safety_cooldown_secs = 10;
  captcha_task_modulo = 5;
  captcha_auto_raise = false;
}

abbrev row : UserAppData
row = record {
  user_id = 7;
  app_ver = "1.4.0";
  completed_tasks_dict = [];
  next_task_ts_dict = [];
  next_task_memo_dict = (3, "shown") ∷ [];
  country_iso_code = none;
  captcha_history = none;
  should_solve_captcha_ternary = negsuc 0;
}

abbrev purse : Purse
purse = record {
  desk = record { row = some row; results = [] };
  locks = [];
  cached = [];
  requests = [];
  txs = [];
}

abbrev submission : Submission
submission = record {
  now = 907200000000;
  auth_status = authorized;
  captcha_token = none;
  task_id = 1;
  results = [];
  send_push = true;
  fresh_next = "next";
  fresh_memo = "fresh";
}

abbrev callback : Callback
callback = record {
  is_success = true;
  memo = some "shown";
  tx_hash = some 9;
  has_amount = true;
  is_int_amount = true;
  sender_address = some 70;
  push_raises = false;
}

-- The user is paid, and asks again before and after the callback.
abbrev twice : List Event
twice = submit submission ∷ submit submission ∷ report callback ∷ submit submission ∷ []

requests_for-run_example :
    requests_for 1 (run around config true twice purse)
    ≤ requests_for 1 purse + one_if (is_open 1 purse) + mishaps around config true 1 twice purse
requests_for-run_example = requests_for-run around config true 1 twice purse

abbrev paid : Purse
paid = run around config true (submit submission ∷ report callback ∷ []) purse

requests-twice : requests_for 1 (run around config true twice purse) ≡ 1
unfolding run check_captcha reject_premature_results delta store_task_results ◌+ℤ◌ ◌-ℤ◌
requests-twice = refl

-- The lock is held for a minute, and the callback may take longer: the user is paid twice.
requests-late :
    requests_for 1
      (run around config true (submit submission ∷ lock_times_out 1 ∷ submit submission ∷ []) purse)
    ≡ 2
unfolding run check_captcha reject_premature_results delta store_task_results ◌+ℤ◌ ◌-ℤ◌
requests-late = refl

was_compensated-paid : was_compensated 1 paid ≡ true
unfolding run was_compensated check_captcha reject_premature_results delta store_task_results ◌+ℤ◌
    ◌-ℤ◌
was_compensated-paid = refl

requests_for-was_compensated_example :
    (requests_for 1 (run around config true (lock_times_out 1 ∷ twice) paid) ≤ requests_for 1 paid)
    × (was_compensated 1 (run around config true (lock_times_out 1 ∷ twice) paid) ≡ true)
requests_for-was_compensated_example =
    requests_for-was_compensated around config true 1 (lock_times_out 1 ∷ twice) paid
      was_compensated-paid

abbrev waiting : Purse
waiting = record purse { locks = 1 ∷ []; cached = (some "shown", 1, true) ∷ [] }

payment_service_callback-was_compensated_example :
    (was_compensated 1 (payment_service_callback false callback waiting).1 ≡ true)
    × ((payment_service_callback false callback waiting).0 ≡ true)
    × (elem 1 (payment_service_callback false callback waiting).1.locks ≡ true)
    × ((payment_service_callback false callback waiting).1.requests ≡ [])
payment_service_callback-was_compensated_example =
    payment_service_callback-was_compensated false true false "shown" 9 1 70 (some "shown") waiting
      refl refl

run-phases_example :
    (follows (phase 1 purse) (phases around config true 1 twice purse) ≡ true)
    × (requests_for 1 (run around config true twice purse)
        ≤ requests_for 1 purse + sent (phase 1 purse) (phases around config true 1 twice purse))
    × (freed (phase 1 purse) (phases around config true 1 twice purse)
        ≤ mishaps around config true 1 twice purse)
run-phases_example = run-phases around config true 1 twice purse

phases-twice :
    phases around config true 1 twice purse ≡ paying ∷ paying ∷ Phase.paid ∷ Phase.paid ∷ []
unfolding phases check_captcha reject_premature_results delta store_task_results ◌+ℤ◌ ◌-ℤ◌
phases-twice = refl

-- Without an address nothing is recorded, and the push raises.
unaddressed :
    payment_service_callback true (record callback { sender_address = none }) waiting
    ≡ (false, waiting)
unfolding payment_service_callback
unaddressed = refl

abbrev request : Request
request = record { memo = some "shown"; task_id = 1; kin = pos 4 }

abbrev paying_purse : Purse
paying_purse = after (lock_and_pay around config submission task (pos 0)) purse

abbrev reported : Purse
reported = (payment_service_callback true callback paying_purse).1

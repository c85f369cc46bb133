-- ===== src/Tasks/Serving/Tests.antt =====
-- A user whose country is excluded from the only task.
use kin_app_server.Common.{ℕ, String, ◌≡◌, refl, true, false, none, some, [], ◌∷◌}
use kin_app_server.Common.Int.{pos, negsuc}
use kin_app_server.Action.{ok, after}
use kin_app_server.Account.{android, Older, get}
use kin_app_server.Tasks.{questionnaire, Task2}
use kin_app_server.Tasks.Next.{is_before}
use kin_app_server.Tasks.Results.{Surroundings}
use kin_app_server.Tasks.Payment.{without_app, get_and_replace_next_task_memo}
use kin_app_server.Tasks.Serving.{
  Board, serve, serve_category, get_next_tasks_for_user, count_immediate_tasks,
}
use kin_app_server.Tasks.Serving.Cached.{count_immediate_tasks-get_next_tasks_for_user}
use kin_app_server.Tasks.Serving.Memos.{serve_category-get_and_replace_next_task_memo}

abbrev task : Task2
task = record {
  task_id = 1;
  category_id = 3;
  position = pos 1;
  task_type = questionnaire;
  price = 4;
  items = [];
  excluded_country_codes = some ("US" ∷ []);
  task_start_date = none;
  task_expiration_date = none;
  delay_days = 0;
  min_client_version_android = "1";
  min_client_version_ios = "1";
}

abbrev never_older : Older
never_older a b = false

abbrev around : Surroundings
around = record {
  tasks = task ∷ [];
  truex_blacklisted_taskids = [];
  older = never_older;
  country_code = none;
  os_type = android;
  time_zone = pos 0;
  of_none = 0;
}

abbrev board : Board
board = record {
  row = record {
    user_id = 7;
    app_ver = "1.4.0";
    completed_tasks_dict = [];
    next_task_ts_dict = [];
    next_task_memo_dict = [];
    country_iso_code = none;
    captcha_history = none;
    should_solve_captcha_ternary = negsuc 0;
  };
  pushes = [];
  cache = [];
}

abbrev noon : ℕ
noon = 907200000000

abbrev fresh : ℕ → String
fresh cat_id = "memo"

-- Asked for the tasks first, the server excludes the country.
excluded_first :
    (get_next_tasks_for_user around noon (3 ∷ []) fresh (some "US") [] true true board).0
    ≡ ok ((3, []) ∷ [])
unfolding get_next_tasks_for_user is_before
excluded_first = refl

abbrev counted : Board
counted = after (count_immediate_tasks around noon (3 ∷ []) fresh none true) board

counted_one :
    count_immediate_tasks around noon (3 ∷ []) fresh none true board ≡ (ok ((3, 1) ∷ []), counted)
unfolding count_immediate_tasks is_before
counted_one = refl

count_example :
    (get_next_tasks_for_user around noon (3 ∷ []) fresh (some "US") [] true true counted).0
    ≡ (serve around noon (3 ∷ []) fresh none true (3 ∷ []) board).0
count_example =
    count_immediate_tasks-get_next_tasks_for_user around noon noon (3 ∷ []) fresh fresh (some "US")
      true true board counted ((3, 1) ∷ []) refl counted_one

-- That is the task from which the country is excluded.
count_served :
    (serve around noon (3 ∷ []) fresh none true (3 ∷ []) board).0
    ≡ ok ((3, record { task_id = 1; memo = "memo"; start_date = 0 } ∷ []) ∷ [])
unfolding serve is_before
count_served = refl

abbrev served : Board
served = after (serve_category around noon (3 ∷ []) fresh none true 3) board

served_lem :
    serve_category around noon (3 ∷ []) fresh none true 3 board
    ≡ (ok (record { task_id = 1; memo = "memo"; start_date = 0 } ∷ []), served)
unfolding serve_category is_before
served_lem = refl

memo_example :
    ((get_and_replace_next_task_memo 3 "other" served.row).0 ≡ ok (without_app "memo"))
    × (get 3 (get_and_replace_next_task_memo 3 "other" served.row).1.next_task_memo_dict
        ≡ some "other")
memo_example =
    serve_category-get_and_replace_next_task_memo around noon (3 ∷ []) fresh none true 3 "other"
      board served (record { task_id = 1; memo = "memo"; start_date = 0 }) [] served_lem

-- ===== src/Tasks/Results/Tests.antt =====
-- A user in a category of two tasks, the second with a delay of a day.
use kin_app_server.Common.{
  ℕ, ◌≡◌, ◌≢◌, ◌≤◌, ◌<◌, ◌+◌, ◌*◌, refl, arith, Bool, true, false, none, some, List, [], ◌∷◌, ltb,
}
use kin_app_server.Common.Int.{pos, negsuc}
use kin_app_server.Action.{ok, after}
use kin_app_server.Account.{android, Older, UserAppData, get}
use kin_app_server.Tasks.{questionnaire, Task2}
use kin_app_server.Tasks.Next.{Clock, Client, Pushes, next_task_id_for_category, is_before}
use kin_app_server.Tasks.Results.{
  second, local_time, Desk, Surroundings, get_cat_id_for_task_id, get_next_task_delay_days, next_ts,
  store_task_results, reject_premature_results,
}
use kin_app_server.Tasks.Results.Cooldown.{
  midnight, completed_row, next_ts-midnight, store_task_results-premature,
}
use kin_app_server.Tasks.Results.Completed.{store_task_results-done}

abbrev task : Task2
task = record {
  task_id = 1;
  category_id = 3;
  position = pos 1;
  task_type = questionnaire;
  price = 4;
  items = [];
  excluded_country_codes = some [];
  task_start_date = none;
  task_expiration_date = none;
  delay_days = 0;
  min_client_version_android = "1";
  min_client_version_ios = "1";
}

abbrev never_older : Older
never_older a b = false

abbrev around : Surroundings
around = record {
  tasks = task ∷ record task { task_id = 2; position = pos 2; delay_days = 1 } ∷ [];
  truex_blacklisted_taskids = [];
  older = never_older;
  country_code = none;
  os_type = android;
  time_zone = negsuc 3;
  of_none = 0;
}

abbrev row : UserAppData
row = record {
  user_id = 7;
  app_ver = "1.4.0";
  completed_tasks_dict = [];
  next_task_ts_dict = [];
  next_task_memo_dict = [];
  country_iso_code = none;
  captcha_history = none;
  should_solve_captcha_ternary = negsuc 0;
}

abbrev desk : Desk
desk = record { row = some row; results = [] }

-- ten days after the epoch, at noon
abbrev noon : ℕ
noon = 907200000000

-- In the time zone -4 it is eight in the morning, sixteen hours before midnight.
ts-next_day : next_ts noon (negsuc 3) (some 1) ≡ 964805
unfolding next_ts
ts-next_day = refl

next_ts_example :
    (next_ts noon (negsuc 3) (some 1) * second + local_time noon (negsuc 3)
      ≤ midnight (local_time noon (negsuc 3)) 1 + 5 * second + noon)
    × (midnight (local_time noon (negsuc 3)) 1 + 3 * second + noon
        < next_ts noon (negsuc 3) (some 1) * second + local_time noon (negsuc 3))
next_ts_example = next_ts-midnight noon (negsuc 3) 1 (omega arith)

abbrev stored : Desk
stored = after (store_task_results around noon "memo" 1 []) desk

store_task_results-premature_example :
    ((store_task_results around noon "memo" 1 [] desk).0 ≡ ok true)
    × ((later : ℕ)
        → reject_premature_results around.tasks later 2 stored
          ≡ some (
              ltb later (
                next_ts noon
                  (negsuc 3)
                  (get_next_task_delay_days around noon 3 "memo" (completed_row 3 1 row)).0
                * second)))
    × (next_ts noon (negsuc 3) none * second ≤ noon)
    × (next_ts noon (negsuc 3) (some 0) * second ≤ noon)
unfolding get_cat_id_for_task_id
store_task_results-premature_example =
    store_task_results-premature around noon "memo" 1 2 3 [] row desk refl refl refl

store_task_results-done_example :
    (later : UserAppData) × (stored.row ≡ some later)
    × ((clock : Clock) (blacklisted : List ℕ) (older : Older) (c : Client) (send_push : Bool)
          (tasks : List Task2) (p : Pushes)
        → (next_task_id_for_category clock blacklisted older c send_push tasks
            later.completed_tasks_dict 3 p).0
          ≢ ok (1 ∷ []))
    × ((other : ℕ) → 3 ≢ other → get other later.completed_tasks_dict ≡ get other [])
unfolding get_cat_id_for_task_id
store_task_results-done_example =
    store_task_results-done around noon "memo" 1 3 [] row desk refl refl

-- The results of the second task are refused until the next morning.
second-refused : reject_premature_results around.tasks 964804000000 2 stored ≡ some true
unfolding store_task_results reject_premature_results is_before
second-refused = refl

-- ===== src/Tasks/Results.antt =====
-- Storing the results of a task: `store_task_results`, `reject_premature_results` and the edits of
-- the completed tasks in kinappserver/models/task2.py, the memos and times of
-- kinappserver/models/user.py, and `seconds_to_local_nth_midnight` of kinappserver/utils.py.
-- The state is what the server keeps of one user. The clock is in microseconds, and the stored
-- times are in seconds.
pub mod Cooldown
pub mod Completed
mod Tests
use kin_app_server.Common.{
  ℕ, suc, ◌+◌, ◌-◌, ◌*◌, ◌/◌, String, Bool, true, false, not, ◌&&◌, ◌||◌, Option, none, some, List,
  [], ◌∷◌, ◌++◌, ltb, leb, ◌==◌, if◌then◌else◌, is_none,
}
use kin_app_server.Common.Int.{ℤ, pos, negsuc, pos_part, sub_ℕ}
use kin_app_server.Common.Table.{first_row}
use kin_app_server.Action.{
  Action, Result, ok, err, uncaught, invalid_usage, ◌>>=◌, ◌>>◌, pure, raise, gets, modify,
}
use kin_app_server.Account.{OsType, Older, UserAppData, get, put}
use kin_app_server.Tasks.{Task2, Submitted}
use kin_app_server.Tasks.Next.{Clock, Client, has_task_id, elem, next_task_id_for_category}

abbrev pub second : ℕ
second = 1000000

abbrev pub hour : ℕ
hour = 3600000000

abbrev pub day : ℕ
day = 86400000000

-- The local time; the clock is later than the shift of any time zone.
abbrev pub local_time : ℕ → ℤ → ℕ
local_time now (pos h) = now + h * hour
local_time now (negsuc h) = now - suc h * hour

-- `int` of a difference of times
abbrev pub to_seconds : ℤ → ℤ
to_seconds (pos n) = pos (n / second)
to_seconds (negsuc n) = sub_ℕ 0 (suc n / second)

-- The midnight of the day after `delay_days` days, and five seconds.
unfoldable pub seconds_to_local_nth_midnight : ℕ → ℤ → ℕ → ℤ
seconds_to_local_nth_midnight now tz delay_days =
    let local = local_time now tz in
    to_seconds (sub_ℕ ((local + delay_days * day) / day * day + 5 * second) local)

pub record Stored : Type 0 where
  pub task_id : ℕ
  pub results : List Submitted

pub record Desk : Type 0 where
  pub row : Option UserAppData
  pub results : List Stored

-- What the functions read and do not write: the tasks, the configured ids, the comparison of
-- versions, the country of the user's address, and the user's platform and time zone.
pub record Surroundings : Type 0 where
  pub tasks : List Task2
  pub truex_blacklisted_taskids : List ℕ
  pub older : Older
  pub country_code : Option String
  pub os_type : OsType
  pub time_zone : ℤ
  pub of_none : ℕ

-- `get_cat_id_for_task_id`; of an unknown task it raises.
unfoldable pub get_cat_id_for_task_id : ℕ → List Task2 → Option ℕ
get_cat_id_for_task_id task_id tasks = elim (first_row (has_task_id task_id) tasks) [
  | none ↦ none
  | some t ↦ some t.category_id
]

-- An insert, or an overwrite where the user already has results for the task.
unfoldable pub save_results : ℕ → List Submitted → List Stored → List Stored
save_results task_id results [] = record { task_id = task_id; results = results } ∷ []
save_results task_id results (r ∷ rs) =
    if r.task_id == task_id
    then record r { results = results } ∷ rs
    else r ∷ save_results task_id results rs

unfoldable pub add_completed : ℕ → ℕ → List (ℕ × List ℕ) → List (ℕ × List ℕ)
add_completed cat_id task_id completed = elim (get cat_id completed) [
  | none ↦ put cat_id (task_id ∷ []) completed
  | some ids ↦ if elem task_id ids then completed else put cat_id (ids ++ task_id ∷ []) completed
]

-- `list.remove`
abbrev pub remove : ℕ → List ℕ → List ℕ
remove x [] = []
remove x (y ∷ ys) = if y == x then ys else y ∷ remove x ys

-- None for a task that is not known.
unfoldable pub remove_task_from_completed_tasks : List Task2 → ℕ → UserAppData → Option UserAppData
unfolding get_cat_id_for_task_id
remove_task_from_completed_tasks tasks task_id row = elim (get_cat_id_for_task_id task_id tasks) [
  | none ↦ none
  | some cat_id ↦ elim (get cat_id row.completed_tasks_dict) [
    | none ↦ some row
    | some ids ↦
        if elem task_id ids
        then some (record row {
          completed_tasks_dict = put cat_id (remove task_id ids) row.completed_tasks_dict;
        })
        else some row
  ]
]

-- The memo of the next task, which is made up where there is none; `fresh` is what
-- `generate_order_id` returns.
unfoldable pub get_next_task_memo : ℕ → String → UserAppData → String × UserAppData
get_next_task_memo cat_id fresh row = elim (get cat_id row.next_task_memo_dict) [
  | some memo ↦ (memo, row)
  | none ↦ (fresh, record row { next_task_memo_dict = put cat_id fresh row.next_task_memo_dict })
]

abbrev pub client_of : Surroundings → UserAppData → Client
client_of u row = record {
  user_id = row.user_id;
  os_type = u.os_type;
  app_ver = row.app_ver;
  country_code = u.country_code;
}

-- `get_next_task_delay_days`, where an exception counts as no delay. It passes no address, so that
-- no task is left out because of the country that the address is of. Finding the next task plants
-- a memo for it.
unfoldable pub get_next_task_delay_days :
    Surroundings → ℕ → ℕ → String → UserAppData → Option ℕ × UserAppData
unfolding next_task_id_for_category get_next_task_memo
get_next_task_delay_days u now cat_id fresh row =
    elim (next_task_id_for_category (record { now = now; of_none = u.of_none })
      u.truex_blacklisted_taskids u.older (client_of (record u { country_code = none }) row) false
      u.tasks row.completed_tasks_dict cat_id []).0 [
        | err e ↦ (none, row)
        | ok [] ↦ (none, row)
        | ok (task_id ∷ _) ↦ (
          elim (first_row (has_task_id task_id) u.tasks) [
            | none ↦ none
            | some t ↦ some t.delay_days
          ],
          (get_next_task_memo cat_id fresh row).1,
        )
      ]

-- `arrow.utcnow().shift(seconds=...).timestamp`
abbrev pub shifted : ℕ → ℤ → ℕ
shifted now (pos k) = (now + k * second) / second
shifted now (negsuc k) = (now - suc k * second) / second

-- When the next task's results may come.
unfoldable pub next_ts : ℕ → ℤ → Option ℕ → ℕ
unfolding seconds_to_local_nth_midnight
next_ts now tz none = now / second
next_ts now tz (some delay_days) =
    if delay_days == 0
    then now / second
    else shifted now (seconds_to_local_nth_midnight now tz delay_days)

unfoldable pub store_task_results :
    Surroundings → ℕ → String → ℕ → List Submitted → Action Desk Bool
unfolding save_results get_cat_id_for_task_id add_completed get_next_task_delay_days next_ts
store_task_results u now fresh task_id results s =
    let saved : Desk = record s { results = save_results task_id results s.results } in
    elim s.row [
      | none ↦ (err (invalid_usage "cant store_task_results"), saved)
      | some row ↦ elim (get_cat_id_for_task_id task_id u.tasks) [
        | none ↦ (err (invalid_usage "cant store_task_results"), saved)
        | some cat_id ↦
            let done : UserAppData = record row {
              completed_tasks_dict = add_completed cat_id task_id row.completed_tasks_dict;
            } in
            let (delay_days, planted) = get_next_task_delay_days u now cat_id fresh done in
            (
              ok true,
              record saved {
                row = some (record planted {
                  next_task_ts_dict =
                      put cat_id (next_ts now u.time_zone delay_days) planted.next_task_ts_dict;
                });
              },
            )
      ]
    ]

-- A time that was never set counts as 0. Of an unknown task it raises.
unfoldable pub reject_premature_results : List Task2 → ℕ → ℕ → Desk → Option Bool
unfolding get_cat_id_for_task_id
reject_premature_results tasks now task_id s = elim (get_cat_id_for_task_id task_id tasks) [
  | none ↦ none
  | some cat_id ↦ elim s.row [
    | none ↦ some (ltb now 0)
    | some row ↦ elim (get cat_id row.next_task_ts_dict) [
      | none ↦ some (ltb now 0)
      | some ts ↦ some (ltb now (ts * second))
    ]
  ]
]

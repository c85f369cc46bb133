-- ===== src/Tasks/Results/Cooldown.antt =====
-- When the results of the next task are accepted.
use kin_app_server.Common.{
  ℕ, ◌+◌, ◌-◌, ◌*◌, ◌/◌, ◌≡◌, ◌≤◌, ◌<◌, ap, String, true, none, some, List, [], ◌∷◌, ltb, arith,
}
use kin_app_server.Common.Int.{ℤ, pos}
use kin_app_server.Action.{ok, after}
use kin_app_server.Account.{UserAppData, get, put}
use kin_app_server.Tasks.{Task2, Submitted}
use kin_app_server.Tasks.Results.{
  second, day, local_time, seconds_to_local_nth_midnight, Desk, Surroundings,
  get_cat_id_for_task_id, add_completed, save_results, get_next_task_delay_days, next_ts,
  store_task_results, reject_premature_results,
}

pub get-put : (k v : ℕ) (d : List (ℕ × ℕ)) → get k (put k v d) ≡ some v
get-put k v [] = ground arith
get-put k v ((j, w) ∷ d) = ground (arith, get-put k v d)

-- The start of the local day that is `days` days after the one of the local time.
abbrev pub midnight : ℕ → ℕ → ℕ
midnight local days = (local + days * day) / day * day

midnight-after : (local days : ℕ) → 1 ≤ days → local < midnight local days
midnight-after local days h = omega arith

seconds_to_local_nth_midnight_lem :
    (now : ℕ) (tz : ℤ) (days : ℕ)
    → 1 ≤ days
    → (k : ℕ) × (seconds_to_local_nth_midnight now tz days ≡ pos k)
      × (local_time now tz + k * second ≤ midnight (local_time now tz) days + 5 * second)
      × (midnight (local_time now tz) days + 4 * second < local_time now tz + k * second)
unfolding seconds_to_local_nth_midnight
seconds_to_local_nth_midnight_lem now tz days h =
    let local : ℕ = local_time now tz in
    let k : ℕ = (midnight local days + 5 * second - local) / second in
    let late = midnight-after local days h in
    (k, ground (arith, late), omega (arith, late), omega (arith, late))

-- A delay of some days is over at the local midnight that begins the last of them, between three
-- and five seconds after it.
pub next_ts-midnight :
    (now : ℕ) (tz : ℤ) (days : ℕ)
    → 1 ≤ days
    → (next_ts now tz (some days) * second + local_time now tz
        ≤ midnight (local_time now tz) days + 5 * second + now)
      × (midnight (local_time now tz) days + 3 * second + now
          < next_ts now tz (some days) * second + local_time now tz)
unfolding next_ts
next_ts-midnight now tz days h =
    let (k, e, low, high) = seconds_to_local_nth_midnight_lem now tz days h in
    ground (arith, h, e, low, high)

abbrev pub completed_row : ℕ → ℕ → UserAppData → UserAppData
completed_row cat_id task_id row = record row {
  completed_tasks_dict = add_completed cat_id task_id row.completed_tasks_dict;
}

-- The row as the results leave it.
abbrev pub stored_row : Surroundings → ℕ → String → ℕ → ℕ → UserAppData → UserAppData
stored_row u now fresh task_id cat_id row =
    let (delay_days, planted) =
      get_next_task_delay_days u now cat_id fresh (completed_row cat_id task_id row) in
    record planted {
      next_task_ts_dict = put cat_id (next_ts now u.time_zone delay_days) planted.next_task_ts_dict;
    }

pub store_task_results-stored :
    (u : Surroundings) (now : ℕ) (fresh : String) (task_id cat_id : ℕ) (results : List Submitted)
    (row : UserAppData) (s : Desk)
    → s.row ≡ some row
    → get_cat_id_for_task_id task_id u.tasks ≡ some cat_id
    → store_task_results u now fresh task_id results s ≡ (
      ok true,
      record {
        row = some (stored_row u now fresh task_id cat_id row);
        results = save_results task_id results s.results;
      },
    )
unfolding store_task_results
store_task_results-stored u now fresh task_id cat_id results row s h e = ground (arith, h, e)

reject_until :
    (tasks : List Task2) (later task_id cat_id ts : ℕ) (row : UserAppData) (s : Desk)
    → get_cat_id_for_task_id task_id tasks ≡ some cat_id
    → s.row ≡ some row
    → get cat_id row.next_task_ts_dict ≡ some ts
    → reject_premature_results tasks later task_id s ≡ some (ltb later (ts * second))
unfolding reject_premature_results
reject_until tasks later task_id cat_id ts row s e h g = ground (arith, e, h, g)

-- Results that are stored for a known task are accepted, and right after that the results of every
-- task of the same category, the same task or another, are premature exactly until the time that
-- the delay of the next task gives, which for a next task without a delay has come already.
pub store_task_results-premature :
    (u : Surroundings) (now : ℕ) (fresh : String) (task_id other cat_id : ℕ)
    (results : List Submitted) (row : UserAppData) (s : Desk)
    → s.row ≡ some row
    → get_cat_id_for_task_id task_id u.tasks ≡ some cat_id
    → get_cat_id_for_task_id other u.tasks ≡ some cat_id
    → ((store_task_results u now fresh task_id results s).0 ≡ ok true)
      × ((later : ℕ)
          → reject_premature_results u.tasks later other
              (after (store_task_results u now fresh task_id results) s)
            ≡ some (
                ltb later (
                  next_ts now u.time_zone
                    (get_next_task_delay_days u now cat_id fresh
                      (completed_row cat_id task_id row)).0
                  * second)))
      × (next_ts now u.time_zone none * second ≤ now)
      × (next_ts now u.time_zone (some 0) * second ≤ now)
unfolding store_task_results reject_premature_results next_ts
store_task_results-premature u now fresh task_id other cat_id results row s h e eo =
    let stored = store_task_results-stored u now fresh task_id cat_id results row s h e in
    let next = get_next_task_delay_days u now cat_id fresh (completed_row cat_id task_id row) in
    let ts : ℕ = next_ts now u.time_zone next.0 in
    (
      ap (λ r. r.0) stored,
      λ later.
          reject_until u.tasks later other cat_id ts (stored_row u now fresh task_id cat_id row)
            (after (store_task_results u now fresh task_id results) s) eo (ap (λ r. r.1.row) stored)
            (get-put cat_id ts next.1.next_task_ts_dict),
      omega arith,
      omega arith,
    )

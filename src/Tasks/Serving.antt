-- ===== src/Tasks/Serving.antt =====
-- The tasks that a user is served and how many are counted as available: `get_next_tasks_for_user`,
-- `count_immediate_tasks`, `get_all_unsolved_tasks_delay_days_for_category` and
-- `calculate_immediate_tasks` of kinappserver/models/task2.py, with `get_next_task_results_ts` of
-- kinappserver/models/user.py. The state is the user's row, the pushes, and the cached answers of
-- this user, which Redis may forget at any time.
pub mod Cached
pub mod Memos
mod Tests
use kin_app_server.Common.{
  ℕ, suc, ◌+◌, ◌/◌, String, Bool, true, false, not, ◌&&◌, ◌||◌, Option, none, some, List, [], ◌∷◌,
  map, ltb, ◌==◌, str_eq, if◌then◌else◌, is_none,
}
use kin_app_server.Common.Table.{first_row, select_rows}
use kin_app_server.Action.{
  Action, Result, ok, err, uncaught, ◌>>=◌, ◌>>◌, pure, raise, gets, modify,
}
use kin_app_server.Account.{android, ios, other_os, Older, UserAppData, get}
use kin_app_server.Tasks.{Task2}
use kin_app_server.Tasks.Next.{
  Clock, Client, Pushes, has_task_id, elem_str, is_unsolved, is_passed_over,
  can_client_support_task, ordered, next_task_id_for_category,
}
use kin_app_server.Tasks.Results.{second, Surroundings, client_of, get_next_task_memo}

-- A task with the two fields that are planted in it.
pub record Served : Type 0 where
  pub task_id : ℕ
  pub memo : String
  pub start_date : ℕ

abbrev pub ByCategory : Type 0
ByCategory = List (ℕ × List Served)

pub record Board : Type 0 where
  pub row : UserAppData
  pub pushes : Pushes
  pub cache : List (List ℕ × ByCategory)

unfoldable pub get_next_task_results_ts : ℕ → UserAppData → ℕ
get_next_task_results_ts cat_id row = elim (get cat_id row.next_task_ts_dict) [
  | none ↦ 0
  | some ts ↦ ts
]

abbrev pub plant : ℕ → String → ℕ → Board → List Served × Board
plant cat_id fresh task_id s =
    let (memo, row') = get_next_task_memo cat_id fresh s.row in
    (
      record { task_id = task_id; memo = memo; start_date = get_next_task_results_ts cat_id row' }
          ∷ [],
      record s { row = row' },
    )

abbrev pub same : List ℕ → List ℕ → Bool
same [] [] = true
same (x ∷ xs) (y ∷ ys) = (x == y) && same xs ys
same _ _ = false

abbrev pub is_key : List ℕ → List ℕ × ByCategory → Bool
is_key cat_ids (k, a) = same k cat_ids

abbrev pub or_all : List ℕ → List ℕ → List ℕ
or_all all_cat_ids [] = all_cat_ids
or_all all_cat_ids (c ∷ cs) = c ∷ cs

-- `all_cat_ids` are the categories of the table, and `fresh` gives the memo that
-- `generate_order_id` would return for a category.
module _ (u : Surroundings) (now : ℕ) (all_cat_ids : List ℕ) (fresh : ℕ → String) where
  -- The next task of one category, for a user whose address is in `country`.
  unfoldable pub serve_category : Option String → Bool → ℕ → Action Board (List Served)
  unfolding next_task_id_for_category get_next_task_memo get_next_task_results_ts
  serve_category country send_push cat_id s =
      let (r, pushes) =
        next_task_id_for_category (record { now = now; of_none = u.of_none })
          u.truex_blacklisted_taskids u.older
          (client_of (record u { country_code = country }) s.row) send_push u.tasks
          s.row.completed_tasks_dict cat_id s.pushes in
      let s' : Board = record s { pushes = pushes } in
      elim r [
        | err e ↦ (err e, s')
        | ok [] ↦ (ok [], s')
        | ok (task_id ∷ _) ↦
            (let (tasks, t) = plant cat_id (fresh cat_id) task_id s' in (ok tasks, t))
      ]

  unfoldable pub serve : Option String → Bool → List ℕ → Action Board ByCategory
  unfolding serve_category
  serve country send_push [] s = (ok [], s)
  serve country send_push (c ∷ cs) s =
      (serve_category country send_push c >>= λ tasks.
      serve country send_push cs >>= λ rest. pure ((c, tasks) ∷ rest))
        s

  unfoldable pub get_next_tasks_for_user :
      Option String → List ℕ → Bool → Bool → Action Board ByCategory
  unfolding serve
  get_next_tasks_for_user country cat_ids send_push use_cache s =
      elim (if use_cache then first_row (is_key cat_ids) s.cache else none) [
        | some (k, answer) ↦ (ok answer, s)
        | none ↦
            (serve country send_push (or_all all_cat_ids cat_ids) >>= λ answer s'. (
              ok answer,
              if use_cache then record s' { cache = (cat_ids, answer) ∷ s'.cache } else s',
            ))
              s
      ]

  -- Is the first of the tasks there, and its time come?
  abbrev pub count_of : List Served → ℕ
  count_of [] = 0
  count_of (t ∷ ts) = if ltb (now / second) t.start_date then 0 else 1

  unfoldable pub counts : ByCategory → List (ℕ × ℕ)
  counts [] = []
  counts ((c, tasks) ∷ rest) = (c, count_of tasks) ∷ counts rest

  -- Of one category, where it is given; one that is not there raises.
  unfoldable pub count_immediate_tasks : Option ℕ → Bool → Action Board (List (ℕ × ℕ))
  unfolding get_next_tasks_for_user counts
  count_immediate_tasks only_cat_id send_push =
      get_next_tasks_for_user none [] send_push true >>= λ answer. elim only_cat_id [
        | none ↦ pure (counts answer)
        | some c ↦ elim (get c answer) [
          | none ↦ raise uncaught
          | some tasks ↦ pure ((c, count_of tasks) ∷ [])
        ]
      ]

abbrev pub is_excluded : Option String → Option (List String) → Bool
is_excluded none codes = false
is_excluded (some code) none = false
is_excluded (some code) (some codes) = not (str_eq code "") && elem_str code codes

-- The tasks that the user has not solved and may be served, in their order.
unfoldable pub get_all_unsolved_tasks_delay_days_for_category :
    Clock → List ℕ → Older → Client → List Task2 → ℕ → List ℕ → List Task2
unfolding ordered can_client_support_task
get_all_unsolved_tasks_delay_days_for_category clock blacklisted older c tasks cat_id completed =
    select_rows
      (λ t.
        not (is_passed_over clock blacklisted t)
        && can_client_support_task older c t
        && not (is_excluded c.country_code t.excluded_country_codes))
      (ordered (select_rows (is_unsolved cat_id completed) tasks))

-- How many tasks follow on each other without a delay.
abbrev pub undelayed : List Task2 → ℕ
undelayed [] = 0
undelayed (t ∷ ts) = let rest = undelayed ts in if t.delay_days == 0 then 1 + rest else 0

unfoldable pub calculate_immediate_tasks : List Task2 → ℕ
calculate_immediate_tasks [] = 0
calculate_immediate_tasks (t ∷ ts) = 1 + undelayed ts

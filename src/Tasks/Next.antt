-- ===== src/Tasks/Next.antt =====
-- Which task of a category is next for a user: `next_task_id_for_category` of
-- kinappserver/models/task2.py, and the tests that it makes of a task. `LooseVersion` comparisons
-- are a parameter, and so is the country of the user's address. The state is the list of the users
-- who were sent a push to upgrade.
pub mod Order
pub mod Least
mod Tests
pub use kin_app_server.Common.Table.{elem}
use kin_app_server.Common.{
  ℕ, ◌+◌, String, Bool, true, false, not, ◌&&◌, ◌||◌, Option, none, some, List, [], ◌∷◌, ltb, ◌==◌,
  str_eq, if◌then◌else◌,
}
use kin_app_server.Common.Int.{ℤ, negsuc, ltb_ℤ, eqb_ℤ}
use kin_app_server.Common.Table.{first_row, select_rows}
use kin_app_server.Action.{Action, Result, ok, err, uncaught, ◌>>=◌, ◌>>◌, pure, raise, modify}
use kin_app_server.Account.{OsType, android, ios, other_os, Older, get}
use kin_app_server.Tasks.{TaskType, truex, Task2}

-- The clock, and what `arrow.get` makes of None.
pub record Clock : Type 0 where
  pub now : ℕ
  pub of_none : ℕ

-- What of the user decides on a task.
pub record Client : Type 0 where
  pub user_id : ℕ
  pub os_type : OsType
  pub app_ver : String
  pub country_code : Option String

abbrev pub has_task_id : ℕ → Task2 → Bool
has_task_id task_id t = t.task_id == task_id

abbrev pub date_of : Clock → Option ℕ → ℕ
date_of clock none = clock.of_none
date_of clock (some d) = d

-- Static tasks always are; an ad-hoc one is between its two dates.
unfoldable pub is_task_active : Clock → Task2 → Bool
is_task_active clock t =
    not (eqb_ℤ t.position (negsuc 0))
    || (ltb (date_of clock t.task_start_date) clock.now
        && ltb clock.now (date_of clock t.task_expiration_date))

abbrev pub is_truex : TaskType → Bool
is_truex truex = true
is_truex t = false

-- All truex tasks, and those that only make sense after one.
unfoldable pub should_skip_task : List ℕ → Task2 → Bool
should_skip_task truex_blacklisted_taskids t =
    is_truex t.task_type || elem t.task_id truex_blacklisted_taskids

unfoldable pub can_client_support_task : Older → Client → Task2 → Bool
can_client_support_task older c t = elim c.os_type [
  | android ↦ not (older c.app_ver t.min_client_version_android)
  | _ ↦ not (older c.app_ver t.min_client_version_ios)
]

abbrev pub elem_str : String → List String → Bool
elem_str x [] = false
elem_str x (y ∷ ys) = str_eq y x || elem_str x ys

-- `user_country_code in task['excluded_country_codes']`; in None that raises.
unfoldable pub is_country_excluded : Option String → Option (List String) → Option Bool
is_country_excluded code none = none
is_country_excluded none (some codes) = some false
is_country_excluded (some code) (some codes) = some (elem_str code codes)

-- `order by position, task_start_date`: NULL is last.
abbrev pub is_earlier : Option ℕ → Option ℕ → Bool
is_earlier none d = false
is_earlier (some a) none = true
is_earlier (some a) (some b) = ltb a b

unfoldable pub is_before : Task2 → Task2 → Bool
is_before a b =
    ltb_ℤ a.position b.position
    || (eqb_ℤ a.position b.position && is_earlier a.task_start_date b.task_start_date)

unfoldable pub insert : Task2 → List Task2 → List Task2
insert t [] = t ∷ []
insert t (u ∷ us) = let rest = insert t us in if is_before u t then u ∷ rest else t ∷ u ∷ us

unfoldable pub ordered : List Task2 → List Task2
unfolding insert
ordered [] = []
ordered (t ∷ ts) = insert t (ordered ts)

-- `completed_tasks.get(cat_id)`, and `not in (...)`
abbrev pub completed_in : ℕ → List (ℕ × List ℕ) → List ℕ
completed_in cat_id completed = elim (get cat_id completed) [ none ↦ [] | some ids ↦ ids ]

abbrev pub is_unsolved : ℕ → List ℕ → Task2 → Bool
is_unsolved cat_id completed t = (t.category_id == cat_id) && not (elem t.task_id completed)

abbrev pub Pushes : Type 0
Pushes = List ℕ

abbrev pub is_passed_over : Clock → List ℕ → Task2 → Bool
is_passed_over clock blacklisted t = not (is_task_active clock t) || should_skip_task blacklisted t

-- The loop over the unsolved tasks.
unfoldable pub first_valid :
    Clock → List ℕ → Older → Client → Bool → List Task2 → Action Pushes (List ℕ)
unfolding is_task_active should_skip_task can_client_support_task is_country_excluded
first_valid clock blacklisted older c send_push [] s = (ok [], s)
first_valid clock blacklisted older c send_push (t ∷ ts) s =
    let rest = first_valid clock blacklisted older c send_push ts s in
    if is_passed_over clock blacklisted t
    then rest
    else elim (is_country_excluded c.country_code t.excluded_country_codes) [
      | none ↦ (err uncaught, s)
      | some excluded ↦
          if excluded
          then rest
          else if can_client_support_task older c t
          then (ok (t.task_id ∷ []), s)
          else (ok [], if send_push then c.user_id ∷ s else s)
    ]

unfoldable pub next_task_id_for_category :
    Clock
    → List ℕ
    → Older
    → Client
    → Bool
    → List Task2
    → List (ℕ × List ℕ)
    → ℕ
    → Action Pushes (List ℕ)
unfolding first_valid ordered
next_task_id_for_category clock blacklisted older c send_push tasks completed cat_id =
    first_valid clock blacklisted older c send_push
      (ordered (select_rows (is_unsolved cat_id (completed_in cat_id completed)) tasks))

-- ===== src/Users/Engagement.antt =====
-- Whom an engagement push is sent to: `get_users_for_engagement_push` of
-- kinappserver/models/user.py. The rows are what the query and the calls for each user give: the
-- version, the blacklist, the country, the day of the last activity, and the number of available
-- tasks per category id (none where a call raises). Days are counted from a fixed one.
pub mod Chosen
mod Tests
use kin_app_server.Common.{
  ℕ, ◌+◌, String, Bool, true, false, not, ◌&&◌, ◌||◌, Option, none, some, List, [], ◌∷◌, map, ltb,
  leb, ◌==◌, if◌then◌else◌,
}
use kin_app_server.Common.Table.{select_rows}
use kin_app_server.Account.{OsType, android, ios, other_os, Older}

pub data Scheme : Type 0 where
  engage_recent engage_old : Scheme

pub record Pushable : Type 0 where
  pub user_id : ℕ
  pub os_type : OsType
  pub app_ver : String
  pub is_blacklisted : Bool
  pub is_country_blocked : Bool
  pub last_active_day : ℕ
  pub immediate_tasks : Option (List (ℕ × ℕ))

-- Why a user is skipped, or that the push is sent.
pub data Decision : Type 0 where
  old_version blacklist country active_today not_active_recently active_in_last_two_weeks : Decision
  no_active_task failed sent : Decision

-- `LooseVersion(user.app_ver) <= LooseVersion(...)` per platform
unfoldable pub has_old_version : Older → Pushable → Bool
has_old_version older u = elim u.os_type [
  | android ↦ not (older "1.4.0" u.app_ver)
  | ios ↦ not (older "1.2.1" u.app_ver)
  | other_os ↦ false
]

-- `four_days_ago > last_active_date != seven_days_ago`
abbrev pub is_inactive_recently : ℕ → ℕ → Bool
is_inactive_recently today last = ltb (last + 4) today && not (last + 7 == today)

unfoldable pub is_of_scheme : Scheme → ℕ → ℕ → Option Decision
is_of_scheme engage_recent today last =
    if is_inactive_recently today last then some not_active_recently else none
is_of_scheme engage_old today last =
    if leb (last + 14) today then some active_in_last_two_weeks else none

-- `sum(int(item) for item in immediate_tasks.keys())`
abbrev pub sum_keys : List (ℕ × ℕ) → ℕ
sum_keys [] = 0
sum_keys ((cat_id, n) ∷ d) = cat_id + sum_keys d

unfoldable pub decide : Older → Scheme → ℕ → Pushable → Decision
unfolding has_old_version is_of_scheme
decide older scheme today u =
    if has_old_version older u
    then old_version
    else if u.is_blacklisted
    then blacklist
    else if u.is_country_blocked
    then country
    else if today == u.last_active_day
    then active_today
    else elim (is_of_scheme scheme today u.last_active_day) [
      | some skipped ↦ skipped
      | none ↦ elim u.immediate_tasks [
        | none ↦ failed
        | some d ↦ if sum_keys d == 0 then no_active_task else sent
      ]
    ]

abbrev pub is_sent : Decision → Bool
is_sent sent = true
is_sent d = false

abbrev pub is_ios : OsType → Bool
is_ios ios = true
is_ios o = false

-- The ids for iOS and those for every other platform.
unfoldable pub get_users_for_engagement_push : Older → Scheme → ℕ → List Pushable → List ℕ × List ℕ
unfolding decide
get_users_for_engagement_push older scheme today users = (
  map (λ u. u.user_id)
      (select_rows (λ u. is_ios u.os_type && is_sent (decide older scheme today u)) users),
  map (λ u. u.user_id)
      (select_rows (λ u. not (is_ios u.os_type) && is_sent (decide older scheme today u)) users),
)

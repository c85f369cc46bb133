-- ===== src/Users/Engagement/Tests.antt =====
-- A user who was last active twenty days ago, and has no task left.
use kin_app_server.Common.{List, ◌+◌, ◌≡◌, ◌≢◌, ◌≤◌, ◌↔◌, ◌⊎◌, refl, true, false, some, [], ◌∷◌}
use kin_app_server.Common.Table.{select_rows}
use kin_app_server.Account.{ios, Older}
use kin_app_server.Users.Engagement.{
  Pushable, engage_recent, engage_old, sum_keys, decide, sent, get_users_for_engagement_push,
}
use kin_app_server.Users.Engagement.Chosen.{
  IsReachable, decide-recent, get_users_for_engagement_push-old, is_recent, no_counts,
  decide-no_counts,
}

abbrev newer : Older
newer a b = true

abbrev user : Pushable
user = record {
  user_id = 7;
  os_type = ios;
  app_ver = "1.4.0";
  is_blacklisted = false;
  is_country_blocked = false;
  last_active_day = 80;
  immediate_tasks = some ((1, 0) ∷ []);
}

decide-recent_example :
    (decide newer engage_recent 87 user ≡ sent)
    ↔ IsReachable newer user
      × (user.last_active_day ≢ 87)
      × ((87 ≤ user.last_active_day + 4) ⊎ (user.last_active_day + 7 ≡ 87))
      × (sum_keys ((1, 0) ∷ []) ≢ 0)
decide-recent_example = decide-recent newer 87 ((1, 0) ∷ []) user refl

-- The first user was last active twenty days ago, the second a week ago.
abbrev users : List Pushable
users = user ∷ record user { user_id = 8; last_active_day = 93 } ∷ []

old_example :
    get_users_for_engagement_push newer engage_old 100 users
    ≡ get_users_for_engagement_push newer engage_old 100 (select_rows (is_recent 100) users)
old_example = get_users_for_engagement_push-old newer 100 users

decide-no_counts_example :
    decide newer engage_old 90 (record user { immediate_tasks = some (no_counts ((1, 5) ∷ [])) })
    ≡ decide newer engage_old 90 (record user { immediate_tasks = some ((1, 5) ∷ []) })
decide-no_counts_example =
    decide-no_counts newer engage_old 90 (record user { immediate_tasks = some ((1, 5) ∷ []) })
      ((1, 5) ∷ []) refl

-- Without a task left, the user is sent a push a week after the last activity.
user-sent : decide newer engage_recent 87 user ≡ sent
unfolding decide
user-sent = refl

-- ===== src/Users/Engagement/Chosen.antt =====
-- Which users the two schemes choose.
use kin_app_server.Common.{
  ℕ, ◌+◌, ◌≡◌, ◌≢◌, ◌≤◌, refl, ap, ◌↔◌, ◌⊎◌, Bool, false, not, ◌&&◌, some, List, [], ◌∷◌, arith,
  ltb, inl, inr, Bool-cases,
}
use kin_app_server.Common.Table.{select_rows}
use kin_app_server.Account.{Older}
use kin_app_server.Users.Engagement.{
  Scheme, engage_recent, engage_old, Pushable, has_old_version, is_of_scheme, sum_keys, decide,
  sent, is_sent, is_ios, get_users_for_engagement_push,
}

-- What both schemes ask of a user, besides the time of the last activity.
abbrev pub IsReachable : Older → Pushable → Type 0
IsReachable older u =
    (has_old_version older u ≡ false) × (u.is_blacklisted ≡ false) × (u.is_country_blocked ≡ false)

-- The scheme engage-recent chooses a user for whom no call fails exactly when the user can be
-- reached, was not active today, was active in the last four days or just a week ago, and has a
-- category whose id is not 0.
pub decide-recent :
    (older : Older) (today : ℕ) (d : List (ℕ × ℕ)) (u : Pushable)
    → u.immediate_tasks ≡ some d
    → (decide older engage_recent today u ≡ sent)
      ↔ IsReachable older u
        × (u.last_active_day ≢ today)
        × ((today ≤ u.last_active_day + 4) ⊎ (u.last_active_day + 7 ≡ today))
        × (sum_keys d ≢ 0)
unfolding decide is_of_scheme
decide-recent older today d u h = ground (arith, h)

-- The user was active in the last two weeks.
abbrev pub is_recent : ℕ → Pushable → Bool
is_recent today u = ltb today (u.last_active_day + 14)

-- A selection that takes only rows with the test `q` is the same among those rows.
select-within :
    (p q : Pushable → Bool) (users : List Pushable)
    → ((u : Pushable) → q u ≡ false → p u ≡ false)
    → select_rows p users ≡ select_rows p (select_rows q users)
select-within p q [] h = refl
select-within p q (u ∷ us) h = elim (Bool-cases (q u)) [
  | inl e ↦ ground (arith, e, select-within p q us h)
  | inr e ↦ ground (arith, e, h u e, select-within p q us h)
]

decide-old :
    (older : Older) (today : ℕ) (u : Pushable)
    → u.last_active_day + 14 ≤ today
    → is_sent (decide older engage_old today u) ≡ false
unfolding decide is_of_scheme
decide-old older today u h = ground (arith, h)

-- The scheme engage-old, which is meant for users who have not logged in for two weeks, never
-- chooses a user who has not been active for two weeks: for every table of users, its two lists are
-- the ones it makes of the table without those users.
pub get_users_for_engagement_push-old :
    (older : Older) (today : ℕ) (users : List Pushable)
    → get_users_for_engagement_push older engage_old today users
      ≡ get_users_for_engagement_push older engage_old today (select_rows (is_recent today) users)
unfolding get_users_for_engagement_push
get_users_for_engagement_push-old older today users = ground (
  arith,
  select-within (λ u. is_ios u.os_type && is_sent (decide older engage_old today u))
      (is_recent today) users
      (λ u k. ground (arith, k, decide-old older today u (ground (arith, k)))),
  select-within (λ u. not (is_ios u.os_type) && is_sent (decide older engage_old today u))
      (is_recent today) users
      (λ u k. ground (arith, k, decide-old older today u (ground (arith, k)))),
)

-- The user with every number of available tasks set to 0.
abbrev pub no_counts : List (ℕ × ℕ) → List (ℕ × ℕ)
no_counts [] = []
no_counts ((cat_id, n) ∷ d) = (cat_id, 0) ∷ no_counts d

sum-no_counts : (d : List (ℕ × ℕ)) → sum_keys (no_counts d) ≡ sum_keys d
sum-no_counts [] = refl
sum-no_counts ((cat_id, n) ∷ d) = ap (λ k. cat_id + k) (sum-no_counts d)

-- How many tasks are available has no part in the choice: a user for whom none is left in any
-- category is treated as before, under both schemes.
pub decide-no_counts :
    (older : Older) (scheme : Scheme) (today : ℕ) (u : Pushable) (d : List (ℕ × ℕ))
    → u.immediate_tasks ≡ some d
    → decide older scheme today (record u { immediate_tasks = some (no_counts d) })
      ≡ decide older scheme today u
unfolding decide has_old_version
decide-no_counts older scheme today u d h = ground (arith, h, sum-no_counts d)

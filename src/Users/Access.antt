-- ===== src/Users/Access.antt =====
-- Who is let in: the blacklist of kinappserver/models/blacklisted_phone_numbers.py, the blocking
-- by phone prefix, country and client version of kinappserver/models/user.py, and `authorize` and
-- the tests of the endpoints for tasks, offers and bookings in kinappserver/views_public.py.
-- `decrypt` stands for the cipher of kinappserver/encrypt.py: None where it raises.
pub mod Doors
mod Tests
use kin_app_server.Common.{
  ℕ, String, Bool, true, false, not, ◌&&◌, ◌||◌, Option, none, some, List, [], ◌∷◌, ◌==◌, str_eq,
  if◌then◌else◌, is_none, is_some, starts_with,
}
use kin_app_server.Common.Table.{count_rows, first_row}
use kin_app_server.Action.{
  Action, Result, ok, err, uncaught, ◌>>=◌, ◌>>◌, pure, gets, modify, after,
}
use kin_app_server.Account.{OsType, android, ios, other_os, Older}
use kin_app_server.Auth.{is_user_authenticated}
use kin_app_server.Users.{UserDb, is_user, of_user, on_tokens, user_deactivated, elem}
use kin_app_server.Users.Phones.{get_enc_phone_number_by_user_id}

pub record AccessConfig : Type 0 where
  pub auth_token_enforced : Bool
  pub phone_verification_required : Bool
  pub blocked_phone_prefixes : List String
  pub allowed_phone_prefixes : List String
  pub blocked_country_codes : List String
  pub block_onboarding_android_version : String
  pub block_onboarding_ios_version : String

-- The tables, the blacklisted numbers, and the users who were told that their country is not
-- supported, the last one first.
pub record Gate : Type 0 where
  pub db : UserDb
  pub blacklisted : List ℕ
  pub told : List ℕ

abbrev pub Decrypt : Type 0
Decrypt = ℕ → Option String

-- A call on the users' tables.
abbrev pub on_db : {A : Type 0} → Action UserDb A → Action Gate A
on_db m s = let (r, d) = m s.db in (r, record s { db = d })

unfoldable pub is_user_phone_verified : ℕ → UserDb → Bool
unfolding get_enc_phone_number_by_user_id
is_user_phone_verified uid db = is_some (get_enc_phone_number_by_user_id uid db)

-- None where there is no number, or where it cannot be read.
unfoldable pub get_unenc_phone_number_by_user_id : Decrypt → ℕ → UserDb → Option String
unfolding get_enc_phone_number_by_user_id
get_unenc_phone_number_by_user_id decrypt uid db = elim (get_enc_phone_number_by_user_id uid db) [
  | none ↦ none
  | some phone ↦ decrypt phone
]

-- `any(phone.find(prefix) == 0 for prefix in prefixes)`
abbrev pub has_prefix : List String → String → Bool
has_prefix [] number = false
has_prefix (p ∷ ps) number = starts_with number p || has_prefix ps number

-- Without a number the search for a prefix raises, which counts as no.
unfoldable pub should_block_user_by_phone_prefix : AccessConfig → Decrypt → ℕ → UserDb → Bool
unfolding get_unenc_phone_number_by_user_id
should_block_user_by_phone_prefix c decrypt uid db =
    elim (get_unenc_phone_number_by_user_id decrypt uid db) [
      | none ↦ false
      | some number ↦ has_prefix c.blocked_phone_prefixes number
    ]

-- A user without a number is allowed, and so is one with the empty number.
unfoldable pub should_allow_user_by_phone_prefix : AccessConfig → Decrypt → ℕ → UserDb → Bool
unfolding get_unenc_phone_number_by_user_id
should_allow_user_by_phone_prefix c decrypt uid db =
    elim (get_unenc_phone_number_by_user_id decrypt uid db) [
      | none ↦ true
      | some number ↦ str_eq number "" || has_prefix c.allowed_phone_prefixes number
    ]

abbrev pub elem_str : String → List String → Bool
elem_str x [] = false
elem_str x (y ∷ ys) = str_eq y x || elem_str x ys

-- A user without a row, or without a country, is not blocked.
unfoldable pub should_block_user_by_country_code : AccessConfig → ℕ → UserDb → Bool
should_block_user_by_country_code c uid db = elim (first_row (of_user uid) db.app_data) [
  | none ↦ false
  | some d ↦ elim d.country_iso_code [
    | none ↦ false
    | some code ↦ elem_str code c.blocked_country_codes
  ]
]

-- `LooseVersion(client_version) <= LooseVersion(...)`; every user without 'android' counts as iOS.
unfoldable pub should_block_user_by_client_version : AccessConfig → Older → ℕ → UserDb → Bool
should_block_user_by_client_version c older uid db = elim (first_row (is_user uid) db.users) [
  | none ↦ false
  | some u ↦ elim (first_row (of_user uid) db.app_data) [
    | none ↦ false
    | some d ↦ elim u.os_type [
      | android ↦ not (older c.block_onboarding_android_version d.app_ver)
      | _ ↦ not (older c.block_onboarding_ios_version d.app_ver)
    ]
  ]
]

-- The join of the users with the blacklist.
unfoldable pub is_userid_blacklisted : ℕ → Gate → Bool
unfolding get_enc_phone_number_by_user_id
is_userid_blacklisted uid s = elim (get_enc_phone_number_by_user_id uid s.db) [
  | none ↦ false
  | some phone ↦ elem phone s.blacklisted
]

-- False for no number, and where the number is in the table already and the insert fails.
unfoldable pub blacklist_enc_phone_number : Option ℕ → Gate → Bool × Gate
blacklist_enc_phone_number none s = (false, s)
blacklist_enc_phone_number (some phone) s =
    if elem phone s.blacklisted
    then (false, s)
    else (true, record s { blacklisted = phone ∷ s.blacklisted })

unfoldable pub blacklist_phone_by_user_id : ℕ → Gate → Bool × Gate
unfolding blacklist_enc_phone_number
blacklist_phone_by_user_id uid s =
    blacklist_enc_phone_number (get_enc_phone_number_by_user_id uid s.db) s

-- A number that is blacklisted already is fine.
unfoldable pub blacklist_phone_number : (String → ℕ) → String → Gate → Bool × Gate
unfolding blacklist_enc_phone_number
blacklist_phone_number encrypt number s =
    if elem (encrypt number) s.blacklisted
    then (true, s)
    else blacklist_enc_phone_number (some (encrypt number)) s

pub data AuthStatus : Type 0 where
  authorized auth_failed user_phone_not_verified denied : AuthStatus

-- `send_country_not_supported`, and the answer 'denied'
abbrev pub turn_away : ℕ → Action Gate AuthStatus
turn_away uid s = (ok denied, record s { told = uid ∷ s.told })

-- Where authentication is enforced, the user is asked for first.
unfoldable pub with_authentication :
    Bool → Action Gate Bool → AuthStatus → Action Gate AuthStatus → Action Gate AuthStatus
with_authentication false is_authenticated refused go s = go s
with_authentication true is_authenticated refused go s =
    let (r, t) = is_authenticated s in
    elim r [ err e ↦ (err e, t) | ok true ↦ go t | ok false ↦ (ok refused, t) ]

-- `is_user_authenticated`; `uuid` is what `uuid4()` returns where the token's row is missing.
abbrev pub ask : ℕ → ℕ → Action Gate Bool
ask uid uuid = on_db (on_tokens (is_user_authenticated uid uuid))

module _ (c : AccessConfig) (decrypt : Decrypt) where
  abbrev pub lacks_phone : ℕ → Gate → Bool
  lacks_phone uid s = c.phone_verification_required && not (is_user_phone_verified uid s.db)

  abbrev pub in_blocked_prefix : ℕ → Gate → Bool
  in_blocked_prefix uid s = should_block_user_by_phone_prefix c decrypt uid s.db

  abbrev pub in_blocked_country : ℕ → Gate → Bool
  in_blocked_country uid s = should_block_user_by_country_code c uid s.db

  -- The tests on the users' tables, in their order, for the submission of results.
  unfoldable pub authorize_tests : ℕ → Action Gate AuthStatus
  unfolding is_user_phone_verified should_block_user_by_phone_prefix
      should_block_user_by_country_code is_userid_blacklisted
  authorize_tests uid s =
      if lacks_phone uid s
      then (ok user_phone_not_verified, s)
      else if user_deactivated uid s.db
      then (ok denied, s)
      else if in_blocked_prefix uid s
      then turn_away uid s
      else if in_blocked_country uid s
      then turn_away uid s
      else if is_userid_blacklisted uid s
      then (ok denied, s)
      else (ok authorized, s)

  unfoldable pub authorize : ℕ → ℕ → Action Gate AuthStatus
  unfolding with_authentication authorize_tests
  authorize uid uuid =
      with_authentication c.auth_token_enforced (ask uid uuid) auth_failed (authorize_tests uid)

  -- The tests of `get_next_task_internal`.
  unfoldable pub may_get_tasks : ℕ → Action Gate AuthStatus
  unfolding is_user_phone_verified should_block_user_by_phone_prefix
      should_block_user_by_country_code
  may_get_tasks uid s =
      if lacks_phone uid s
      then (ok denied, s)
      else if in_blocked_prefix uid s
      then turn_away uid s
      else if in_blocked_country uid s
      then turn_away uid s
      else if user_deactivated uid s.db
      then (ok denied, s)
      else (ok authorized, s)

  -- The tests of `get_offers_api`.
  unfoldable pub may_get_offers : ℕ → Action Gate AuthStatus
  unfolding is_user_phone_verified should_block_user_by_phone_prefix
      should_allow_user_by_phone_prefix should_block_user_by_country_code
  may_get_offers uid s =
      if lacks_phone uid s
      then (ok user_phone_not_verified, s)
      else if in_blocked_prefix uid s
      then turn_away uid s
      else if not (should_allow_user_by_phone_prefix c decrypt uid s.db)
      then (ok denied, s)
      else if in_blocked_country uid s
      then turn_away uid s
      else (ok authorized, s)

  unfoldable pub booking_tests : ℕ → Action Gate AuthStatus
  unfolding is_user_phone_verified should_block_user_by_phone_prefix
      should_block_user_by_country_code is_userid_blacklisted
  booking_tests uid s =
      if lacks_phone uid s
      then (ok denied, s)
      else if in_blocked_prefix uid s
      then turn_away uid s
      else if in_blocked_country uid s
      then turn_away uid s
      else if is_userid_blacklisted uid s
      then (ok denied, s)
      else (ok authorized, s)

  -- The tests of `book_offer_api` on the user.
  unfoldable pub may_book : ℕ → ℕ → Action Gate AuthStatus
  unfolding with_authentication booking_tests
  may_book uid uuid =
      with_authentication c.auth_token_enforced (ask uid uuid) denied (booking_tests uid)

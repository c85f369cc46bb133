-- ===== src/Users.antt =====
-- kinappserver/models/user.py: the users, their phone numbers and what moves with a number.
-- A user id, an address, a phone number as it is stored (encrypted) and a UUID are opaque numbers.
-- The state holds the tables `user`, `user_app_data`, `user_task_results`, `phone_backup_hints`
-- and `push_auth_token`, which these functions read and write.
pub mod Phones
pub mod Engagement
pub mod Access
pub mod Backup
pub mod Registration
pub use kin_app_server.Common.Table.{elem}
use kin_app_server.Common.{
  ℕ, ◌≡◌, ◌≤◌, ◌+◌, String, Bool, true, false, not, ◌&&◌, ◌||◌, Option, none, some, List, [], ◌∷◌,
  map, ◌==◌, if◌then◌else◌, is_none, is_some,
}
use kin_app_server.Common.Int.{ℤ, pos, negsuc}
use kin_app_server.Common.Table.{
  count_rows, first_row, select_rows, update_first, update_rows, delete_rows,
}
use kin_app_server.Action.{
  Action, Result, ok, err, uncaught, invalid_usage, ◌>>=◌, ◌>>◌, pure, raise, raise_if, gets,
  modify, or_raise, after,
}
use kin_app_server.Account.{OsType, UserAppData}
use kin_app_server.Auth.{Tokens, get_token_obj_by_user_id}

pub record User : Type 0 where
  pub user_id : ℕ
  pub os_type : OsType
  pub device_model : String
  pub push_token : Option String
  pub time_zone : ℤ
  pub device_id : Option String
  pub onboarded : Bool
  pub public_address : Option ℕ
  pub enc_phone_number : Option ℕ
  pub deactivated : Bool
  pub auth_token : Option ℕ
  pub package_id : Option String
  pub screen : String
  pub user_agent : Option String
  pub truex_user_id : Option ℕ

-- What a client says of its device: the model cut to the column's 40 characters, the parsed
-- time zone, and the three sizes of its screen as one text.
pub record Device : Type 0 where
  pub os_type : OsType
  pub device_model : String
  pub push_token : Option String
  pub time_zone : ℤ
  pub device_id : Option String
  pub app_ver : String
  pub package_id : Option String
  pub screen : String

pub record TaskResult : Type 0 where
  pub user_id : ℕ
  pub task_id : ℕ

pub record PhoneBackupHints : Type 0 where
  pub enc_phone_number : ℕ
  pub hints : List ℕ
  pub updated_at : ℕ
  pub previous_hints : List (ℕ × List ℕ)

pub record UserDb : Type 0 where
  pub users : List User
  pub app_data : List UserAppData
  pub task_results : List TaskResult
  pub phone_backup_hints : List PhoneBackupHints
  pub tokens : Tokens

abbrev pub is_user : ℕ → User → Bool
is_user uid u = u.user_id == uid

abbrev pub of_user : ℕ → UserAppData → Bool
of_user uid d = d.user_id == uid

abbrev pub of_result : ℕ → TaskResult → Bool
of_result uid r = r.user_id == uid

abbrev pub has_phone : ℕ → User → Bool
has_phone phone u = elim u.enc_phone_number [ none ↦ false | some p ↦ p == phone ]

-- `.filter_by(enc_phone_number=phone).filter_by(deactivated=False)`
abbrev pub is_active : ℕ → User → Bool
is_active phone u = has_phone phone u && not u.deactivated

abbrev pub has_address : ℕ → User → Bool
has_address address u = elim u.public_address [ none ↦ false | some a ↦ a == address ]

abbrev pub user_id_of : Option User → Option ℕ
user_id_of none = none
user_id_of (some u) = some u.user_id

-- Writes the user's row back as `f` leaves it.
abbrev pub save : ℕ → (User → User) → UserDb → UserDb
save uid f s = record s { users = update_first (is_user uid) f s.users }

unfoldable pub get_user : ℕ → Action UserDb User
get_user uid s = or_raise (first_row (is_user uid) s.users) (invalid_usage "no such user_id") s

unfoldable pub deactivate_user : ℕ → Action UserDb (Unit {0})
unfolding get_user
deactivate_user uid = do get_user uid; modify (save uid (λ u. record u { deactivated = true }))

-- An unknown user is not deactivated.
unfoldable pub user_deactivated : ℕ → UserDb → Bool
user_deactivated uid s = elim (first_row (is_user uid) s.users) [
  | none ↦ false
  | some u ↦ u.deactivated
]

-- `public_address` is unique: a second user with the address makes the commit raise.
unfoldable pub set_onboarded : ℕ → Bool → ℕ → Action UserDb (Unit {0})
unfolding get_user
set_onboarded uid onboarded address = do
  get_user uid
  others ← gets (λ s. count_rows (λ u. has_address address u && not (is_user uid u)) s.users)
  raise_if (not (others == 0)) uncaught
  modify (save uid (λ u. record u { onboarded = onboarded; public_address = some address }))

abbrev first_of : {A : Type 0} → Option A → Option A → Option A
first_of none b = b
first_of (some a) b = some a

-- `uuid1` and `uuid2` are what `uuid4()` returns, should it be called.
abbrev pub new_user : ℕ → Device → ℕ → ℕ → User
new_user uid d uuid1 uuid2 = record {
  user_id = uid;
  os_type = d.os_type;
  device_model = d.device_model;
  push_token = d.push_token;
  time_zone = d.time_zone;
  device_id = d.device_id;
  onboarded = false;
  public_address = none;
  enc_phone_number = none;
  deactivated = false;
  auth_token = some uuid1;
  package_id = d.package_id;
  screen = d.screen;
  user_agent = none;
  truex_user_id = some uuid2;
}

abbrev pub reregister : Device → ℕ → ℕ → User → User
reregister d uuid1 uuid2 u = record u {
  os_type = d.os_type;
  device_model = d.device_model;
  push_token = first_of d.push_token u.push_token;
  time_zone = d.time_zone;
  device_id = d.device_id;
  auth_token = first_of u.auth_token (some uuid1);
  package_id = d.package_id;
  screen = d.screen;
  truex_user_id = first_of u.truex_user_id (some uuid2);
}

abbrev pub new_app_data : ℕ → String → UserAppData
new_app_data uid app_ver = record {
  user_id = uid;
  app_ver = app_ver;
  completed_tasks_dict = [];
  next_task_ts_dict = [];
  next_task_memo_dict = [];
  country_iso_code = none;
  captcha_history = none;
  should_solve_captcha_ternary = pos 0;
}

-- A call on the table of tokens, whose users are those of the table `user`.
abbrev pub on_tokens : {A : Type 0} → Action Tokens A → Action UserDb A
on_tokens m s =
    let (r, t) = m (record s.tokens { users = map (λ u. u.user_id) s.users }) in
    (r, record s { tokens = t })

abbrev pub add_app_data : ℕ → String → Action UserDb (Unit {0})
add_app_data uid app_ver s =
    if count_rows (of_user uid) s.app_data == 0
    then (ok tt, record s { app_data = new_app_data uid app_ver ∷ s.app_data })
    else (err uncaught, s)

-- The rows that go with a new user, in their own transactions.
unfoldable pub add_rows : ℕ → String → ℕ → Action UserDb Bool
unfolding get_token_obj_by_user_id
add_rows uid app_ver uuid3 = do
  add_app_data uid app_ver
  on_tokens (get_token_obj_by_user_id uid uuid3)
  pure true

-- True for a new user. `uuid3` is a new user's push token.
unfoldable pub create_user : ℕ → Device → ℕ → ℕ → ℕ → Action UserDb Bool
unfolding add_rows
create_user uid d uuid1 uuid2 uuid3 s = elim (first_row (is_user uid) s.users) [
  | some u ↦ (ok false, save uid (reregister d uuid1 uuid2) s)
  | none ↦ add_rows uid d.app_ver uuid3 (record s { users = new_user uid d uuid1 uuid2 ∷ s.users })
]

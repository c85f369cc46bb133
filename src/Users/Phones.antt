-- ===== src/Users/Phones.antt =====
-- The phone number of a user in kinappserver/models/user.py: setting it, what becomes of the
-- earlier users of the number, and the restoring of a user from a backup.
-- `encrypt` stands for the cipher of kinappserver/encrypt.py.
pub mod Takeover
pub mod Unique
pub mod Owner
pub mod Steps
pub mod Restoring
mod Tests
use kin_app_server.Common.{
  ℕ, ◌≡◌, ◌≤◌, ◌+◌, String, Bool, true, false, not, ◌&&◌, ◌||◌, Option, none, some, List, [], ◌∷◌,
  map, ◌==◌, if◌then◌else◌, is_none, is_some,
}
use kin_app_server.Common.Table.{
  count_rows, first_row, select_rows, update_first, update_rows, delete_rows,
}
use kin_app_server.Action.{
  Action, Result, ok, err, uncaught, invalid_usage, ◌>>=◌, ◌>>◌, pure, raise, raise_if, gets,
  modify, or_raise, after,
}
use kin_app_server.Account.{UserAppData}
use kin_app_server.Users.{
  User, TaskResult, PhoneBackupHints, UserDb, is_user, of_user, of_result, has_phone, is_active,
  has_address, user_id_of, save, get_user,
}

-- `update user_app_data ... from (select ... where user_id=old) where user_id=new`
abbrev pub copy_history : ℕ → ℕ → List UserAppData → List UserAppData
copy_history old new ds = elim (first_row (of_user old) ds) [
  | none ↦ ds
  | some d ↦
      update_rows (of_user new)
        (λ r. record r {
          completed_tasks_dict = d.completed_tasks_dict;
          next_task_ts_dict = d.next_task_ts_dict;
        })
        ds
]

abbrev pub move_results : ℕ → ℕ → List TaskResult → List TaskResult
move_results old new rs =
    update_rows (of_result old) (λ r. record r { user_id = new }) (delete_rows (of_result new) rs)

-- One turn of the loop of `deactivate_by_enc_phone_number`.
unfoldable pub take_over : ℕ → ℕ → ℕ → UserDb → UserDb
take_over phone new old s = record s {
  users =
      update_rows (λ u. has_phone phone u && is_user old u) (λ u. record u { deactivated = true })
        s.users;
  app_data = copy_history old new s.app_data;
  task_results = move_results old new s.task_results;
}

unfoldable pub take_over_all : ℕ → ℕ → List ℕ → UserDb → UserDb
unfolding take_over
take_over_all phone new [] s = s
take_over_all phone new (old ∷ olds) s = take_over_all phone new olds (take_over phone new old s)

-- The active users with the number, save the one.
abbrev pub is_rival : ℕ → ℕ → User → Bool
is_rival phone new u = is_active phone u && not (is_user new u)

abbrev pub activate : Bool → ℕ → UserDb → UserDb
activate false new s = s
activate true new s = record s {
  users = update_rows (is_user new) (λ u. record u { deactivated = false }) s.users;
}

unfoldable pub deactivate_by_enc_phone_number : ℕ → ℕ → Bool → UserDb → UserDb
unfolding take_over_all
deactivate_by_enc_phone_number phone new activate_user s =
    let s' = activate activate_user new s in
    take_over_all phone new (map (λ u. u.user_id) (select_rows (is_rival phone new) s'.users)) s'

-- A number that the user has is accepted again, and nothing happens.
unfoldable pub set_user_phone_number : (String → ℕ) → ℕ → String → Action UserDb (Unit {0})
unfolding get_user deactivate_by_enc_phone_number
set_user_phone_number encrypt uid number = do
  user ← get_user uid
  elim user.enc_phone_number [
    | some phone ↦
        raise_if (not (phone == encrypt number))
          (invalid_usage "trying to overwrite an existing phone number with a different one")
    | none ↦ do
      modify (save uid (λ u. record u { enc_phone_number = some (encrypt number) }))
      modify (deactivate_by_enc_phone_number (encrypt number) uid false)
  ]

unfoldable pub get_active_user_id_by_phone : (String → ℕ) → String → UserDb → Option ℕ
get_active_user_id_by_phone encrypt number s =
    user_id_of (first_row (is_active (encrypt number)) s.users)

unfoldable pub get_enc_phone_number_by_user_id : ℕ → UserDb → Option ℕ
get_enc_phone_number_by_user_id uid s = elim (first_row (is_user uid) s.users) [
  | none ↦ none
  | some u ↦ u.enc_phone_number
]

unfoldable pub get_userid_by_address : ℕ → UserDb → Option ℕ
get_userid_by_address address s = user_id_of (first_row (has_address address) s.users)

unfoldable pub get_address_by_enc_phone_number : ℕ → UserDb → Option ℕ
get_address_by_enc_phone_number phone s = elim (first_row (is_active phone) s.users) [
  | none ↦ none
  | some u ↦ u.public_address
]

-- The user's own id where there is no number, or else everyone with the number.
unfoldable pub get_associated_user_ids : ℕ → Action UserDb (List ℕ)
unfolding get_user
get_associated_user_ids uid s =
    (get_user uid >>= λ user. elim user.enc_phone_number [
      | none ↦ pure (uid ∷ [])
      | some phone ↦ gets (λ t. map (λ u. u.user_id) (select_rows (has_phone phone) t.users))
    ])
      s

abbrev pub migrate_user : User → User → User
migrate_user temp u = record u {
  os_type = temp.os_type;
  device_model = temp.device_model;
  push_token = temp.push_token;
  time_zone = temp.time_zone;
  device_id = temp.device_id;
  auth_token = temp.auth_token;
  package_id = temp.package_id;
  screen = temp.screen;
  user_agent = temp.user_agent;
}

abbrev migrate_app_data : UserAppData → UserAppData → UserAppData
migrate_app_data temp d = record d {
  app_ver = temp.app_ver;
  country_iso_code = temp.country_iso_code;
}

abbrev pub lacks_row : ℕ → UserDb → Bool
lacks_row uid s =
    is_none (first_row (is_user uid) s.users) || is_none (first_row (of_user uid) s.app_data)

-- Nothing is copied unless both users have both rows.
unfoldable pub migrate_restored_user_data : ℕ → ℕ → UserDb → Bool × UserDb
migrate_restored_user_data temp restored s = elim (first_row (is_user temp) s.users) [
  | none ↦ (false, s)
  | some u ↦ elim (first_row (of_user temp) s.app_data) [
    | none ↦ (false, s)
    | some d ↦ if lacks_row restored s then (false, s) else (
      true,
      record s {
        users = update_first (is_user restored) (migrate_user u) s.users;
        app_data = update_first (of_user restored) (migrate_app_data d) s.app_data;
      },
    )
  ]
]

abbrev pub has_hints : ℕ → PhoneBackupHints → Bool
has_hints phone h = h.enc_phone_number == phone

-- None where the restoring is refused.
unfoldable pub restore_user_by_address : ℕ → ℕ → UserDb → Option ℕ × UserDb
unfolding deactivate_by_enc_phone_number migrate_restored_user_data get_enc_phone_number_by_user_id
    get_userid_by_address
restore_user_by_address current address s = elim (get_enc_phone_number_by_user_id current s) [
  | none ↦ (none, s)
  | some phone ↦
      if is_none (first_row (has_hints phone) s.phone_backup_hints)
      then (none, s)
      else elim (get_userid_by_address address s) [
        | none ↦ (none, s)
        | some original ↦ elim (get_enc_phone_number_by_user_id original s) [
          | none ↦ (none, s)
          | some p ↦ if not (p == phone) then (none, s) else (
            some original,
            (migrate_restored_user_data current original
                (deactivate_by_enc_phone_number phone original true s)).1,
          )
        ]
      ]
]

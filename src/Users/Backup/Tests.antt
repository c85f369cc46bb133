-- ===== src/Users/Backup/Tests.antt =====
-- A user whose number has hints from an earlier user.
use kin_app_server.Common.{◌≡◌, refl, arith, true, false, none, some, [], ◌∷◌}
use kin_app_server.Common.Int.{pos}
use kin_app_server.Account.{android}
use kin_app_server.Users.{User, UserDb}
use kin_app_server.Users.Phones.{get_enc_phone_number_by_user_id}
use kin_app_server.Users.Backup.{
  renewed, store_backup_hints, get_backup_hints, get_user_backup_hints_by_enc_phone,
  store_backup_hints-get_backup_hints,
}

abbrev user : User
user = record {
  user_id = 1;
  os_type = android;
  device_model = "one";
  push_token = none;
  time_zone = pos 2;
  device_id = none;
  onboarded = true;
  public_address = some 100;
  enc_phone_number = some 555;
  deactivated = false;
  auth_token = some 11;
  package_id = none;
  screen = "";
  user_agent = none;
  truex_user_id = some 12;
}

abbrev tables : UserDb
tables = record {
  users = user ∷ record user { user_id = 2 } ∷ [];
  app_data = [];
  task_results = [];
  phone_backup_hints =
      record { enc_phone_number = 555; hints = 1 ∷ 2 ∷ []; updated_at = 7; previous_hints = [] }
      ∷ [];
  tokens = record { rows = []; users = [] };
}

abbrev stored : UserDb
stored = (store_backup_hints (1 ∷ 2 ∷ 3 ∷ []) 9 1 (3 ∷ 1 ∷ []) tables).1

is_555_1 : get_enc_phone_number_by_user_id 1 tables ≡ some 555
unfolding get_enc_phone_number_by_user_id
is_555_1 = refl

is_555_2 : get_enc_phone_number_by_user_id 2 tables ≡ some 555
unfolding get_enc_phone_number_by_user_id
is_555_2 = refl

store_backup_hints_example :
    ((store_backup_hints (1 ∷ 2 ∷ 3 ∷ []) 9 1 (3 ∷ 1 ∷ []) tables).0 ≡ true)
    × (get_backup_hints 2 stored ≡ 3 ∷ 1 ∷ [])
    × (get_user_backup_hints_by_enc_phone 555 stored
        ≡ some (renewed 555 9 (3 ∷ 1 ∷ []) (get_user_backup_hints_by_enc_phone 555 tables)))
    × (get_user_backup_hints_by_enc_phone 556 stored
        ≡ get_user_backup_hints_by_enc_phone 556 tables)
    × (stored.users ≡ tables.users)
store_backup_hints_example =
    store_backup_hints-get_backup_hints (1 ∷ 2 ∷ 3 ∷ []) 9 1 2 555 556 (3 ∷ 1 ∷ []) tables
      (omega arith) refl is_555_1 is_555_2 refl

-- One hint is not enough, and a hint that is no question is refused.
refused_one : (store_backup_hints (1 ∷ 2 ∷ 3 ∷ []) 9 1 (3 ∷ []) tables).0 ≡ false
unfolding store_backup_hints
refused_one = refl

refused_unknown : (store_backup_hints (1 ∷ 2 ∷ 3 ∷ []) 9 1 (3 ∷ 4 ∷ []) tables).0 ≡ false
unfolding store_backup_hints
refused_unknown = refl

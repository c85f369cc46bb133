-- ===== src/Users/Phones/Tests.antt =====
-- A user who changes phones.
use kin_app_server.Common.{ℕ, ◌≡◌, refl, arith, String, true, false, none, some, [], ◌∷◌}
use kin_app_server.Common.Int.{pos}
use kin_app_server.Action.{ok, after}
use kin_app_server.Account.{android}
use kin_app_server.Users.{User, UserDb}
use kin_app_server.Users.Phones.{
  set_user_phone_number, restore_user_by_address, get_active_user_id_by_phone,
}
use kin_app_server.Users.Phones.Unique.{IsSound}
use kin_app_server.Users.Phones.Owner.{set_user_phone_number-owner}
use kin_app_server.Users.Phones.Restoring.{here, next, verify, restore, Reach-IsSound}

abbrev old_user : User
old_user = record {
  user_id = 1;
  os_type = android;
  device_model = "one";
  push_token = none;
  time_zone = pos 2;
  device_id = none;
  onboarded = true;
  public_address = some 100;
  enc_phone_number = some 555;
  deactivated = false;
  auth_token = some 11;
  package_id = none;
  screen = "";
  user_agent = none;
  truex_user_id = some 12;
}

abbrev new_user : User
new_user = record old_user { user_id = 2; public_address = none; enc_phone_number = none }

abbrev tables : UserDb
tables = record {
  users = new_user ∷ old_user ∷ [];
  app_data = [];
  task_results = [];
  phone_backup_hints =
      record { enc_phone_number = 555; hints = 1 ∷ 2 ∷ []; updated_at = 7; previous_hints = [] }
      ∷ [];
  tokens = record { rows = []; users = [] };
}

abbrev encrypt : String → ℕ
encrypt number = 555

tables-IsSound : IsSound tables.users
tables-IsSound = record { ids = λ uid. ground arith; phones = λ p. ground arith }

abbrev verified : UserDb
verified = after (set_user_phone_number encrypt 2 "+1") tables

abbrev restored : UserDb
restored = (restore_user_by_address 2 100 verified).1

Reach-IsSound_example : IsSound restored.users
Reach-IsSound_example =
    Reach-IsSound tables restored
      (next (next here (verify encrypt 2 "+1" tables)) (restore 2 100 verified)) tables-IsSound

set_user_phone_number_example :
    ((set_user_phone_number encrypt 2 "+1" tables).0 ≡ ok tt)
    × (get_active_user_id_by_phone encrypt "+1" verified ≡ some 2)
set_user_phone_number_example =
    set_user_phone_number-owner encrypt 2 "+1" new_user tables refl refl refl

-- Restoring gives the number back.
restored-1 : get_active_user_id_by_phone encrypt "+1" restored ≡ some 1
unfolding get_active_user_id_by_phone restore_user_by_address set_user_phone_number
restored-1 = refl

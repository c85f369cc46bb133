-- ===== src/Versions/Tests.antt =====
-- A config in which Android is told to update below "2".
use kin_app_server.Common.{◌≡◌, refl, true, some, str_eq, if◌then◌else◌}
use kin_app_server.Action.{ok}
use kin_app_server.Account.{android, Older}
use kin_app_server.Versions.{
  SystemConfig, should_force_update, is_update_available, set_force_update_below, Settings,
  config_on_register,
}
use kin_app_server.Versions.Flags.{is_same_os, set_force_update_below-should_force_update}

abbrev older : Older
older a b = str_eq a "1"

abbrev settings : Settings
settings = record {
  phone_verification_enabled = true;
  auth_token_enabled = true;
  p2p_transfers_enabled = true;
  p2p_min_tasks = 2;
  block_onboarding_android_version = "1.0";
  block_onboarding_ios_version = "1.0";
}

abbrev system : SystemConfig
system = record {
  block_clients_below_version_android = "2";
  block_clients_below_version_ios = "2";
  update_available_below_version_android = "3";
  update_available_below_version_ios = "3";
}

force_example :
    ((set_force_update_below android "4" (some system)).0 ≡ ok tt)
    × (should_force_update older android "1" (set_force_update_below android "4" (some system)).1
        ≡ (if is_same_os android android
            then older "1" "4"
            else should_force_update older android "1" (some system)))
    × ((config_on_register settings older
          (set_force_update_below android "4" (some system)).1
          android
          "1").force_update
        ≡ should_force_update older android "1"
            (set_force_update_below android "4" (some system)).1)
    × (is_update_available older android "1" (set_force_update_below android "4" (some system)).1
        ≡ is_update_available older android "1" (some system))
force_example =
    set_force_update_below-should_force_update settings older android android "4" "1" system refl
      refl refl

-- ===== src/Versions/Flags.antt =====
-- What setting a version does.
use kin_app_server.Common.{◌≡◌, String, Bool, true, false, some, str_eq, arith, if◌then◌else◌}
use kin_app_server.Action.{ok}
use kin_app_server.Account.{OsType, android, ios, other_os, Older}
use kin_app_server.Versions.{
  SystemConfig, should_force_update, is_update_available, set_force_update_below, Settings,
  config_on_register,
}

abbrev pub is_same_os : OsType → OsType → Bool
is_same_os android android = true
is_same_os ios ios = true
is_same_os other_os other_os = true
is_same_os _ _ = false

-- Once a version is set for a platform, exactly the clients of that platform that are older are
-- told to update, also at registration; those of another platform are told as before, and which
-- updates are available does not change.
pub set_force_update_below-should_force_update :
    (s : Settings) (older : Older) (os other : OsType) (v app_ver : String) (c : SystemConfig)
    → is_same_os other other_os ≡ false
    → is_same_os os other_os ≡ false
    → str_eq v "" ≡ false
    → let c' = (set_force_update_below os v (some c)).1 in
      ((set_force_update_below os v (some c)).0 ≡ ok tt)
      × (should_force_update older other app_ver c' ≡ (
          if is_same_os os other
          then older app_ver v
          else should_force_update older other app_ver (some c)))
      × ((config_on_register s older c' other app_ver).force_update
          ≡ should_force_update older other app_ver c')
      × (is_update_available older other app_ver c'
          ≡ is_update_available older other app_ver (some c))
unfolding set_force_update_below should_force_update is_update_available config_on_register
set_force_update_below-should_force_update s older android android v a c _ _ h =
    (ground (arith, h), ground (arith, h), ground (arith, h), ground (arith, h))
set_force_update_below-should_force_update s older android ios v a c _ _ h =
    (ground (arith, h), ground (arith, h), ground (arith, h), ground (arith, h))
set_force_update_below-should_force_update s older ios android v a c _ _ h =
    (ground (arith, h), ground (arith, h), ground (arith, h), ground (arith, h))
set_force_update_below-should_force_update s older ios ios v a c _ _ h =
    (ground (arith, h), ground (arith, h), ground (arith, h), ground (arith, h))
set_force_update_below-should_force_update s older other_os other v a c _ k h = cc
set_force_update_below-should_force_update s older android other_os v a c k _ h = cc
set_force_update_below-should_force_update s older ios other_os v a c k _ h = cc

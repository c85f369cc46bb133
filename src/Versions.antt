-- ===== src/Versions.antt =====
-- Which clients must or may update, and what the server tells a client of its configuration:
-- kinappserver/models/system_config.py, `get_global_config` of kinappserver/utils.py,
-- `get_user_config` of kinappserver/models/user.py and what `register_api` of
-- kinappserver/views_public.py makes of them. `LooseVersion` comparisons are a parameter. Amounts
-- and urls are left out.
pub mod Flags
mod Tests
use kin_app_server.Common.{
  ℕ, String, Bool, true, false, not, ◌&&◌, ◌||◌, Option, none, some, List, [], ◌∷◌, length, ltb,
  str_eq, if◌then◌else◌,
}
use kin_app_server.Action.{Action, Result, ok, err, uncaught, invalid_usage}
use kin_app_server.Account.{OsType, android, ios, other_os, Older, UserAppData}

pub record SystemConfig : Type 0 where
  pub block_clients_below_version_android : String
  pub block_clients_below_version_ios : String
  pub update_available_below_version_android : String
  pub update_available_below_version_ios : String

-- "0" without a row in the table; None for another platform, which raises.
unfoldable pub get_block_clients_below_version : OsType → Option SystemConfig → Option String
get_block_clients_below_version os none = some "0"
get_block_clients_below_version android (some c) = some c.block_clients_below_version_android
get_block_clients_below_version ios (some c) = some c.block_clients_below_version_ios
get_block_clients_below_version other_os (some c) = none

unfoldable pub update_available_below_version : OsType → Option SystemConfig → Option String
update_available_below_version os none = some "0"
update_available_below_version android (some c) = some c.update_available_below_version_android
update_available_below_version ios (some c) = some c.update_available_below_version_ios
update_available_below_version other_os (some c) = none

abbrev pub is_below : Older → String → Option String → Bool
is_below older app_ver none = false
is_below older app_ver (some v) = older app_ver v

-- The platform is tested first, so another one never raises.
unfoldable pub should_force_update : Older → OsType → String → Option SystemConfig → Bool
unfolding get_block_clients_below_version
should_force_update older android app_ver c =
    is_below older app_ver (get_block_clients_below_version android c)
should_force_update older ios app_ver c =
    is_below older app_ver (get_block_clients_below_version ios c)
should_force_update older other_os app_ver c = false

unfoldable pub is_update_available : Older → OsType → String → Option SystemConfig → Bool
unfolding update_available_below_version
is_update_available older android app_ver c =
    is_below older app_ver (update_available_below_version android c)
is_update_available older ios app_ver c =
    is_below older app_ver (update_available_below_version ios c)
is_update_available older other_os app_ver c = false

-- Another platform and an empty version are refused; without a row `one()` raises.
unfoldable pub set_force_update_below : OsType → String → Action (Option SystemConfig) (Unit {0})
set_force_update_below other_os v c = (err (invalid_usage "invalid os type"), c)
set_force_update_below android v none =
    (if str_eq v "" then err (invalid_usage "invalid app_ver") else err uncaught, none)
set_force_update_below ios v none =
    (if str_eq v "" then err (invalid_usage "invalid app_ver") else err uncaught, none)
set_force_update_below android v (some c) =
    if str_eq v ""
    then (err (invalid_usage "invalid app_ver"), some c)
    else (ok tt, some (record c { block_clients_below_version_android = v }))
set_force_update_below ios v (some c) =
    if str_eq v ""
    then (err (invalid_usage "invalid app_ver"), some c)
    else (ok tt, some (record c { block_clients_below_version_ios = v }))

unfoldable pub set_update_available_below :
    OsType → String → Action (Option SystemConfig) (Unit {0})
set_update_available_below other_os v c = (err (invalid_usage "invalid os type"), c)
set_update_available_below android v none =
    (if str_eq v "" then err (invalid_usage "invalid app_ver") else err uncaught, none)
set_update_available_below ios v none =
    (if str_eq v "" then err (invalid_usage "invalid app_ver") else err uncaught, none)
set_update_available_below android v (some c) =
    if str_eq v ""
    then (err (invalid_usage "invalid app_ver"), some c)
    else (ok tt, some (record c { update_available_below_version_android = v }))
set_update_available_below ios v (some c) =
    if str_eq v ""
    then (err (invalid_usage "invalid app_ver"), some c)
    else (ok tt, some (record c { update_available_below_version_ios = v }))

-- The values of kinappserver/config.py that are read here.
pub record Settings : Type 0 where
  pub phone_verification_enabled : Bool
  pub auth_token_enabled : Bool
  pub p2p_transfers_enabled : Bool
  pub p2p_min_tasks : ℕ
  pub block_onboarding_android_version : String
  pub block_onboarding_ios_version : String

pub record GlobalConfig : Type 0 where
  pub phone_verification_enabled : Bool
  pub auth_token_enabled : Bool
  pub p2p_enabled : Bool
  pub backup_nag : Bool
  pub is_update_available : Bool
  pub force_update : Bool

unfoldable pub get_global_config : Settings → GlobalConfig
get_global_config c = record {
  phone_verification_enabled = c.phone_verification_enabled;
  auth_token_enabled = c.auth_token_enabled;
  p2p_enabled = c.p2p_transfers_enabled;
  backup_nag = true;
  is_update_available = false;
  force_update = false;
}

-- `LooseVersion(app_ver) <= LooseVersion(...)`
abbrev pub is_old_client : Settings → Older → OsType → String → Bool
is_old_client c older android app_ver = not (older c.block_onboarding_android_version app_ver)
is_old_client c older ios app_ver = not (older c.block_onboarding_ios_version app_ver)
is_old_client c older other_os app_ver = false

-- The flags that both callers set by the client's version.
unfoldable pub with_flags :
    Settings → Older → Option SystemConfig → OsType → String → GlobalConfig → GlobalConfig
unfolding should_force_update is_update_available
with_flags c older sys os app_ver g = record g {
  phone_verification_enabled =
      not (is_old_client c older os app_ver) && g.phone_verification_enabled;
  backup_nag = not (is_old_client c older os app_ver) && g.backup_nag;
  force_update = should_force_update older os app_ver sys || g.force_update;
  is_update_available = is_update_available older os app_ver sys || g.is_update_available;
}

-- The config in the answer of `register_api`.
unfoldable pub config_on_register :
    Settings → Older → Option SystemConfig → OsType → String → GlobalConfig
unfolding get_global_config with_flags
config_on_register c older sys os app_ver = with_flags c older sys os app_ver (get_global_config c)

-- How many categories the user has completed a task of; a user without a row may not transfer.
abbrev pub may_transfer : Settings → Option UserAppData → Bool
may_transfer c none = false
may_transfer c (some d) = not (ltb (length d.completed_tasks_dict) c.p2p_min_tasks)

-- Without a row the version of the user's client raises.
unfoldable pub get_user_config :
    Settings → Older → Option SystemConfig → OsType → Option UserAppData → Option GlobalConfig
unfolding get_global_config with_flags
get_user_config c older sys os row =
    let g = get_global_config c in
    let g' : GlobalConfig = record g { p2p_enabled = g.p2p_enabled && may_transfer c row } in
    elim row [ none ↦ none | some d ↦ some (with_flags c older sys os d.app_ver g') ]

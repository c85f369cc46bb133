-- ===== src/Users/Access/Tests.antt =====
-- A user with a number, and an authenticated token.
use kin_app_server.Common.{◌≡◌, refl, true, false, none, some, [], ◌∷◌}
use kin_app_server.Common.Int.{pos, negsuc}
use kin_app_server.Action.{ok, after}
use kin_app_server.Account.{android, UserAppData}
use kin_app_server.Auth.{PushAuthToken, is_user_authenticated}
use kin_app_server.Users.{User, user_deactivated}
use kin_app_server.Users.Access.{
  AccessConfig, Gate, Decrypt, authorized, authorize, may_get_offers, is_userid_blacklisted,
  blacklist_phone_by_user_id, denied,
}
use kin_app_server.Users.Access.Doors.{Opens, authorize-Opens}

abbrev user : User
user = record {
  user_id = 1;
  os_type = android;
  device_model = "one";
  push_token = none;
  time_zone = pos 2;
  device_id = none;
  onboarded = true;
  public_address = some 100;
  enc_phone_number = some 555;
  deactivated = false;
  auth_token = some 11;
  package_id = none;
  screen = "";
  user_agent = none;
  truex_user_id = some 12;
}

abbrev row : UserAppData
row = record {
  user_id = 1;
  app_ver = "1.4.0";
  completed_tasks_dict = [];
  next_task_ts_dict = [];
  next_task_memo_dict = [];
  country_iso_code = some "US";
  captcha_history = none;
  should_solve_captcha_ternary = negsuc 0;
}

abbrev token : PushAuthToken
token = record {
  user_id = 1;
  authenticated = true;
  send_date = some 1;
  ack_date = some 2;
  auth_token = 41;
}

abbrev gate : Gate
gate = record {
  db = record {
    users = user ∷ [];
    app_data = row ∷ [];
    task_results = [];
    phone_backup_hints = [];
    tokens = record { rows = token ∷ []; users = [] };
  };
  blacklisted = [];
  told = [];
}

abbrev config : AccessConfig
config = record {
  auth_token_enforced = true;
  phone_verification_required = true;
  blocked_phone_prefixes = "+44" ∷ [];
  allowed_phone_prefixes = "+1" ∷ [];
  blocked_country_codes = "GB" ∷ [];
  block_onboarding_android_version = "1.2.1";
  block_onboarding_ios_version = "1.0.0";
}

abbrev decrypt : Decrypt
decrypt phone = some "+1555"

authorize-Opens_example : Opens config decrypt 1 gate (after (authorize config decrypt 1 9) gate)
unfolding authorize is_user_authenticated user_deactivated is_userid_blacklisted
authorize-Opens_example = authorize-Opens config decrypt 1 9 gate refl

-- Once the number is blacklisted the user is turned down.
blacklisted-denied :
    (authorize config decrypt 1 9 (blacklist_phone_by_user_id 1 gate).1).0 ≡ ok denied
unfolding authorize is_user_authenticated user_deactivated is_userid_blacklisted
    blacklist_phone_by_user_id
blacklisted-denied = refl

-- The offers are open to the number's prefix.
offers-open : (may_get_offers config decrypt 1 gate).0 ≡ ok authorized
unfolding may_get_offers
offers-open = refl

-- ===== src/Tasks/Truex/Tests.antt =====
-- A user whose activity is completed.
use kin_app_server.Common.{ℕ, String, ◌≡◌, refl, true, false, none, some, [], ◌∷◌}
use kin_app_server.Common.Int.{pos, negsuc}
use kin_app_server.Account.{android, Older}
use kin_app_server.Account.Captcha.{CaptchaConfig}
use kin_app_server.Users.{User, user_deactivated}
use kin_app_server.Users.Access.{is_user_phone_verified}
use kin_app_server.Tasks.Results.{Surroundings}
use kin_app_server.Tasks.Truex.{
  Callbacks, Engagement, recoverable_error, dup_engagement_id, user_exists, truex_callback,
}
use kin_app_server.Tasks.Truex.Lost.{truex_callback-lost}

abbrev user : User
user = record {
  user_id = 7;
  os_type = android;
  device_model = "one";
  push_token = none;
  time_zone = pos 2;
  device_id = none;
  onboarded = true;
  public_address = some 100;
  enc_phone_number = some 555;
  deactivated = false;
  auth_token = some 11;
  package_id = none;
  screen = "";
  user_agent = none;
  truex_user_id = some 12;
}

abbrev never_older : Older
never_older a b = false

abbrev around : Surroundings
around = record {
  tasks = [];
  truex_blacklisted_taskids = [];
  older = never_older;
  country_code = none;
  os_type = android;
  time_zone = pos 0;
  of_none = 0;
}

abbrev config : CaptchaConfig
config = record {
  debug = false;
  apk_package_name = "org.kin";
  captcha_stale_threshold_secs = 10;
  captcha_min_client_version_android = "1";
  captcha_safety_cooldown_secs = 10;
  captcha_task_modulo = 5;
  captcha_auto_raise = false;
}

abbrev callbacks : Callbacks
callbacks = record {
  db = record {
    users = user ∷ [];
    app_data = [];
    task_results = [];
    phone_backup_hints = [];
    tokens = record { rows = []; users = [] };
  };
  board = record {
    row = record {
      user_id = 7;
      app_ver = "1.4.0";
      completed_tasks_dict = [];
      next_task_ts_dict = [];
      next_task_memo_dict = [];
      country_iso_code = none;
      captcha_history = none;
      should_solve_captcha_ternary = negsuc 0;
    };
    pushes = [];
    cache = [];
  };
  engagements = [];
  blacklisted = [];
}

abbrev engagement : Engagement
engagement = record { eng_id = 5; user_id = 7; is_from_truex = true; has_good_sig = true }

abbrev fresh : ℕ → String
fresh cat_id = "memo"

does_exist : user_exists 7 callbacks.db ≡ true
unfolding user_exists
does_exist = refl

is_verified : is_user_phone_verified 7 callbacks.db ≡ true
unfolding is_user_phone_verified
is_verified = refl

is_active : user_deactivated 7 callbacks.db ≡ false
unfolding user_deactivated
is_active = refl

truex_lost_example :
    ((truex_callback around config true 1 (2 ∷ []) fresh engagement callbacks).0
      ≡ recoverable_error)
    × ((truex_callback around config true 9
          (2 ∷ [])
          fresh
          engagement
          (truex_callback around config true 1 (2 ∷ []) fresh engagement callbacks).1).0
        ≡ dup_engagement_id)
truex_lost_example =
    truex_callback-lost around config true 1 9 (2 ∷ []) fresh engagement callbacks refl refl refl
      does_exist is_verified is_active refl

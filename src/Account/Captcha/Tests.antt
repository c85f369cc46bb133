-- ===== src/Account/Captcha/Tests.antt =====
-- An Android user with a raised flag.
use kin_app_server.Common.{◌≡◌, ◌≢◌, ◌↔◌, ◌⊎◌, inr, refl, arith, true, false, none, some, []}
use kin_app_server.Common.Int.{pos, negsuc}
use kin_app_server.Action.{after}
use kin_app_server.Account.{UserAppData, android, Older}
use kin_app_server.Account.Captcha.{
  CaptchaConfig, CaptchaReply, do_captcha_stuff, captcha_solved, captcha_ok, check_captcha,
  should_pass_captcha, passed_captcha,
}
use kin_app_server.Account.Captcha.Flag.{
  FlagStep, do_captcha_stuff-FlagStep, captcha_solved-cooldown, check_captcha_lem,
}
use kin_app_server.Account.Captcha.Reply.{
  IsTimely, genuine, passed_captcha_iff, passed_captcha-ageless,
}

abbrev config : CaptchaConfig
config = record {
  debug = false;
  apk_package_name = "org.kinecosystem.kinit";
  captcha_stale_threshold_secs = 120;
  captcha_min_client_version_android = "1.2.1";
  captcha_safety_cooldown_secs = 86400;
  captcha_task_modulo = 10;
  captcha_auto_raise = true;
}

abbrev never_older : Older
never_older a b = false

abbrev row : UserAppData
row = record {
  user_id = 7;
  app_ver = "1.4.0";
  completed_tasks_dict = [];
  next_task_ts_dict = [];
  next_task_memo_dict = [];
  country_iso_code = none;
  captcha_history = none;
  should_solve_captcha_ternary = pos 1;
}

do_captcha_stuff_example :
    FlagStep
      (pos 1)
      (after (do_captcha_stuff config android 90000000000) row).should_solve_captcha_ternary
do_captcha_stuff_example = do_captcha_stuff-FlagStep config 90000000000 android row (inr (inr refl))

captcha_solved_example :
    ((captcha_solved 80000000000 row).should_solve_captcha_ternary ≡ negsuc 0)
    × (after (do_captcha_stuff config android 90000000000) (captcha_solved 80000000000 row)
        ≡ captcha_solved 80000000000 row)
captcha_solved_example =
    captcha_solved-cooldown config android 80000000000 90000000000 row refl (omega arith)

check_captcha_example :
    let r = check_captcha config never_older android 80000000000 none row in
    (r.0 ≡ captcha_ok) × (should_pass_captcha config never_older android r.1 ≡ false)
    ⊎ (r.0 ≢ captcha_ok) × (r.1 ≡ row)
check_captcha_example = check_captcha_lem config never_older android 80000000000 none row

abbrev reply : CaptchaReply
reply = record {
  apk_package_name = some "org.kinecosystem.kinit";
  challenge_ts = some 5;
  success = some true;
}

passed_captcha_iff_example :
    (passed_captcha config 9 (some reply) ≡ true)
    ↔ (reply.apk_package_name ≡ some config.apk_package_name)
      × (reply.success ≡ some true)
      × IsTimely config 9 reply.challenge_ts
passed_captcha_iff_example = passed_captcha_iff config 9 reply refl

passed_captcha-ageless_example : passed_captcha config 999999999999 (genuine config 0) ≡ true
passed_captcha-ageless_example = passed_captcha-ageless config 0 999999999999 refl

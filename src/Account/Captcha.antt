-- ===== src/Account/Captcha.antt =====
-- The captcha flag of kinappserver/models/user.py, `check_captcha` of views_public.py and
-- `passed_captcha` of utils.py. The functions work on the user's row, which has been looked up.
-- The flag is -1 (no captcha), 0 (a captcha from the next task on) or 1 (a captcha is required).
-- The dates in the history are in seconds, as the server stores them; the clock is in microseconds.
pub mod Flag
pub mod Reply
mod Tests
use kin_app_server.Common.{
  ℕ, ◌+◌, ◌*◌, ◌/◌, ◌%◌, String, Bool, true, false, not, ◌&&◌, ◌||◌, Option, none, some, List, [],
  ◌∷◌, ◌++◌, ltb, leb, ◌==◌, str_eq, if◌then◌else◌, is_none,
}
use kin_app_server.Common.Int.{ℤ, pos, negsuc, ltb_ℤ, eqb_ℤ}
use kin_app_server.Action.{
  Action, Result, ok, err, uncaught, ◌>>=◌, ◌>>◌, pure, raise, gets, modify,
}
use kin_app_server.Account.{
  OsType, android, ios, other_os, Older, CaptchaEntry, UserAppData, count_completed_tasks,
}

pub record CaptchaConfig : Type 0 where
  pub debug : Bool
  pub apk_package_name : String
  pub captcha_stale_threshold_secs : ℕ
  pub captcha_min_client_version_android : String
  pub captcha_safety_cooldown_secs : ℕ
  pub captcha_task_modulo : ℕ
  pub captcha_auto_raise : Bool

abbrev pub second : ℕ
second = 1000000

abbrev pub set_flag : ℤ → UserAppData → UserAppData
set_flag v row = record row { should_solve_captcha_ternary = v }

-- Only Android clients from a certain version on, and clients of an unknown kind, can be asked.
unfoldable pub should_pass_captcha : CaptchaConfig → Older → OsType → UserAppData → Bool
should_pass_captcha c older android row =
    if older row.app_ver c.captcha_min_client_version_android
    then false
    else ltb_ℤ (pos 0) row.should_solve_captcha_ternary
should_pass_captcha c older ios row = false
should_pass_captcha c older other_os row = ltb_ℤ (pos 0) row.should_solve_captcha_ternary

-- `captcha_history` with one more entry
abbrev pub add_entry : CaptchaEntry → Option (List CaptchaEntry) → Option (List CaptchaEntry)
add_entry e none = some (e ∷ [])
add_entry e (some history) = some (history ++ e ∷ [])

unfoldable pub captcha_solved : ℕ → UserAppData → UserAppData
captcha_solved now row =
    if ltb_ℤ row.should_solve_captcha_ternary (pos 1) then row else record row {
      should_solve_captcha_ternary = negsuc 0;
      captcha_history =
          add_entry (record { date = now / second; app_ver = row.app_ver }) row.captcha_history;
    }

unfoldable pub autoswitch_captcha : UserAppData → UserAppData
autoswitch_captcha row =
    if eqb_ℤ row.should_solve_captcha_ternary (pos 0) then set_flag (pos 1) row else row

-- `max` of the dates; of no dates it raises.
unfoldable pub last_date : List CaptchaEntry → Option ℕ
last_date [] = none
last_date (e ∷ es) = elim (last_date es) [
  | none ↦ some e.date
  | some d ↦ some (if ltb d e.date then e.date else d)
]

abbrev pub recent_captcha : Option (List CaptchaEntry) → Option ℕ
recent_captcha none = some 0
recent_captcha (some history) = last_date history

-- the last captcha is more than the cooldown ago
abbrev pub has_cooled : CaptchaConfig → ℕ → ℕ → Bool
has_cooled c now recent = ltb ((recent + c.captcha_safety_cooldown_secs) * second) now

-- A modulus of 0 and an empty history raise.
unfoldable pub automatically_raise_captcha_flag :
    CaptchaConfig → OsType → ℕ → Action UserAppData (Unit {0})
automatically_raise_captcha_flag c ios now row = (ok tt, row)
automatically_raise_captcha_flag c os_type now row =
    if not c.captcha_auto_raise || not (eqb_ℤ row.should_solve_captcha_ternary (negsuc 0))
    then (ok tt, row)
    else if c.captcha_task_modulo == 0
    then (err uncaught, row)
    else if count_completed_tasks row.completed_tasks_dict % c.captcha_task_modulo == 0
    then elim (recent_captcha row.captcha_history) [
      | none ↦ (err uncaught, row)
      | some recent ↦ (ok tt, if has_cooled c now recent then set_flag (pos 0) row else row)
    ]
    else (ok tt, row)

unfoldable pub do_captcha_stuff : CaptchaConfig → OsType → ℕ → Action UserAppData (Unit {0})
unfolding autoswitch_captcha automatically_raise_captcha_flag
do_captcha_stuff c os_type now row =
    automatically_raise_captcha_flag c os_type now (autoswitch_captcha row)

-- What Google answers; the fields may be missing, and no answer stands for a failed request.
pub record CaptchaReply : Type 0 where
  pub apk_package_name : Option String
  pub challenge_ts : Option ℕ
  pub success : Option Bool

-- In debug mode the answer is replaced by one that passes. `captcha_secs_ago` is the challenge's
-- time less the clock's.
unfoldable pub passed_captcha : CaptchaConfig → ℕ → Option CaptchaReply → Bool
passed_captcha c now none = false
passed_captcha c now (some r) = if c.debug then true else elim r.apk_package_name [
  | none ↦ false
  | some apk_name ↦ elim r.challenge_ts [
    | none ↦ false
    | some challenge_ts ↦ elim r.success [
      | none ↦ false
      | some success ↦
          if not (str_eq apk_name c.apk_package_name)
          then false
          else if ltb (now + c.captcha_stale_threshold_secs * second) challenge_ts
          then false
          else success
    ]
  ]
]

pub data CaptchaStatus : Type 0 where
  captcha_ok captcha_missing captcha_failed : CaptchaStatus

-- `captcha_token` is what the client sent, with Google's answer to it.
unfoldable pub check_captcha :
    CaptchaConfig
    → Older
    → OsType
    → ℕ
    → Option (Option CaptchaReply)
    → UserAppData
    → CaptchaStatus × UserAppData
unfolding should_pass_captcha captcha_solved
check_captcha c older os_type now captcha_token row =
    if should_pass_captcha c older os_type row
    then elim captcha_token [
      | none ↦ (captcha_missing, row)
      | some reply ↦
          if passed_captcha c now reply
          then (captcha_ok, captcha_solved now row)
          else (captcha_failed, row)
    ]
    else (captcha_ok, row)

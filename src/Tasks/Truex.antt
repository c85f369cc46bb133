-- ===== src/Tasks/Truex.antt =====
-- The callback of TrueX: `truex_callback_endpoint` and `compensate_truex_activity` of
-- kinappserver/views_public.py, and kinappserver/models/truex_blacklisted_user.py. The signature of
-- a request and whether its address is one of TrueX's are arguments.
pub mod Lost
mod Tests
use kin_app_server.Common.{
  ℕ, String, Bool, true, false, not, ◌&&◌, ◌||◌, Option, none, some, List, [], ◌∷◌, ◌==◌,
  if◌then◌else◌, is_none,
}
use kin_app_server.Common.Table.{count_rows, first_row, delete_rows}
use kin_app_server.Action.{Action, Result, ok, err, uncaught, invalid_usage, ◌>>=◌, ◌>>◌, pure}
use kin_app_server.Account.{OsType}
use kin_app_server.Account.Captcha.{CaptchaConfig, do_captcha_stuff}
use kin_app_server.Users.{UserDb, is_user, elem, user_deactivated}
use kin_app_server.Users.Access.{is_user_phone_verified}
use kin_app_server.Tasks.Results.{Surroundings}
use kin_app_server.Tasks.Serving.{Board, ByCategory, get_next_tasks_for_user}

-- `board` is what the server keeps of the user whom the request names.
pub record Callbacks : Type 0 where
  pub db : UserDb
  pub board : Board
  pub engagements : List ℕ
  pub blacklisted : List ℕ

pub data Code : Type 0 where
  recoverable_error processed bad_sig dup_engagement_id : Code

pub record Engagement : Type 0 where
  pub eng_id : ℕ
  pub user_id : ℕ
  pub is_from_truex : Bool
  pub has_good_sig : Bool

unfoldable pub user_exists : ℕ → UserDb → Bool
user_exists uid db = not (is_none (first_row (is_user uid) db.users))

unfoldable pub block_user_from_truex_tasks : ℕ → Action Callbacks (Unit {0})
block_user_from_truex_tasks uid s =
    if elem uid s.blacklisted
    then (err uncaught, s)
    else (ok tt, record s { blacklisted = uid ∷ s.blacklisted })

unfoldable pub unblock_user_from_truex_tasks : ℕ → Action Callbacks (Unit {0})
unblock_user_from_truex_tasks uid s =
    if elem uid s.blacklisted
    then (ok tt, record s { blacklisted = delete_rows (λ b. b == uid) s.blacklisted })
    else (err (invalid_usage "cant find blocked user"), s)

abbrev pub truex_cat_id : ℕ
truex_cat_id = 2

-- `tasks[0]` of a dict whose keys are the texts of category ids raises a KeyError, so that nothing
-- after it is reached.
abbrev pub first_task : ByCategory → Result Bool
first_task [] = ok false
first_task (x ∷ xs) = err uncaught

module _ (u : Surroundings) (c : CaptchaConfig) (verification_required : Bool) where
  -- True for a user who is denied, since the pair that is returned counts as true.
  unfoldable pub compensate_truex_activity : ℕ → List ℕ → (ℕ → String) → ℕ → Action Callbacks Bool
  unfolding user_exists get_next_tasks_for_user
  compensate_truex_activity now all_cat_ids fresh uid s =
      if not (user_exists uid s.db)
      then (ok false, s)
      else if (verification_required && not (is_user_phone_verified uid s.db))
          || user_deactivated uid s.db
      then (ok true, s)
      else (let (r, board) =
            get_next_tasks_for_user u now all_cat_ids fresh none (truex_cat_id ∷ []) true true
              s.board in
          let s' : Callbacks = record s { board = board } in
          elim r [ err e ↦ (err e, s') | ok answer ↦ (first_task answer, s') ])

  -- Outside of DEBUG. Whether the user was paid is only logged.
  unfoldable pub truex_callback :
      ℕ → List ℕ → (ℕ → String) → Engagement → Callbacks → Code × Callbacks
  unfolding compensate_truex_activity
  truex_callback now all_cat_ids fresh e s =
      if not e.is_from_truex
      then (recoverable_error, s)
      else if not e.has_good_sig
      then (bad_sig, s)
      else if elem e.eng_id s.engagements
      then (dup_engagement_id, s)
      else (let taken : Callbacks = record s { engagements = e.eng_id ∷ s.engagements } in
          let (r, s') = compensate_truex_activity now all_cat_ids fresh e.user_id taken in
          elim r [
            | err x ↦ (recoverable_error, s')
            | ok paid ↦
                let (r', row) = do_captcha_stuff c u.os_type now s'.board.row in
                let t : Callbacks = record s' { board = record s'.board { row = row } } in
                elim r' [ err x ↦ (recoverable_error, t) | ok x ↦ (processed, t) ]
          ])

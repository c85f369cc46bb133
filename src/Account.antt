-- ===== src/Account.antt =====
-- The row of `UserAppData` in kinappserver/models/user.py: what the server remembers of a user's
-- app and tasks. Category and task ids are opaque keys; a memo is a text. JSON objects are
-- association lists in the order of insertion.
pub mod Captcha
use kin_app_server.Common.{
  ℕ, ◌+◌, String, Bool, Option, none, some, List, [], ◌∷◌, length, ◌==◌, if◌then◌else◌,
}
use kin_app_server.Common.Int.{ℤ}

-- `os_type`; the server compares it with 'android' and 'iOS' alone.
pub data OsType : Type 0 where
  android ios other_os : OsType

-- `LooseVersion(a) < LooseVersion(b)`, of Python's distutils
abbrev pub Older : Type 0
Older = String → String → Bool

pub record CaptchaEntry : Type 0 where
  pub date : ℕ
  pub app_ver : String

pub record UserAppData : Type 0 where
  pub user_id : ℕ
  pub app_ver : String
  pub completed_tasks_dict : List (ℕ × List ℕ)
  pub next_task_ts_dict : List (ℕ × ℕ)
  pub next_task_memo_dict : List (ℕ × String)
  pub country_iso_code : Option String
  pub captcha_history : Option (List CaptchaEntry)
  pub should_solve_captcha_ternary : ℤ

-- dict.get(key)
abbrev pub get {ℓ} : {V : Type ℓ} → ℕ → List (ℕ × V) → Option V
get k [] = none
get k ((j, v) ∷ d) = if j == k then some v else get k d

-- dict[key] = value
abbrev pub put {ℓ} : {V : Type ℓ} → ℕ → V → List (ℕ × V) → List (ℕ × V)
put k v [] = (k, v) ∷ []
put k v ((j, w) ∷ d) = if j == k then (k, v) ∷ d else (j, w) ∷ put k v d

-- `count_completed_tasks`
unfoldable pub count_completed_tasks : List (ℕ × List ℕ) → ℕ
count_completed_tasks [] = 0
count_completed_tasks ((cat_id, tasks) ∷ d) = length tasks + count_completed_tasks d

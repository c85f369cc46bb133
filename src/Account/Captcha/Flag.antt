-- ===== src/Account/Captcha/Flag.antt =====
-- The captcha flag over time: which values it takes, and how it moves.
use kin_app_server.Common.{
  ℕ, ◌+◌, ◌*◌, ◌/◌, ◌≤◌, ◌≡◌, ◌≢◌, refl, ◌⊎◌, inl, inr, false, Option, none, some, List, [], ◌∷◌,
  ◌++◌, arith, ltb, ap, sym, ◌∙◌, Bool-cases,
}
use kin_app_server.Common.Int.{ℤ, pos, negsuc}
use kin_app_server.Action.{after}
use kin_app_server.Account.{OsType, android, ios, other_os, Older, CaptchaEntry, UserAppData}
use kin_app_server.Account.Captcha.{
  CaptchaConfig, CaptchaReply, second, set_flag, should_pass_captcha, captcha_solved,
  autoswitch_captcha, last_date, recent_captcha, add_entry, automatically_raise_captcha_flag,
  do_captcha_stuff, captcha_ok, check_captcha,
}

-- The three values that the flag is meant to have.
abbrev pub IsTernary : ℤ → Type 0
IsTernary v = (v ≡ negsuc 0) ⊎ ((v ≡ pos 0) ⊎ (v ≡ pos 1))

-- The step of the flag when the client asks for its tasks: an armed flag is raised, a raised one
-- stays, and one that is down stays down or is armed.
abbrev pub FlagStep : ℤ → ℤ → Type 0
FlagStep v w =
    (v ≡ negsuc 0) × ((w ≡ negsuc 0) ⊎ (w ≡ pos 0)) ⊎ ((v ≡ pos 0) ⊎ (v ≡ pos 1)) × (w ≡ pos 1)

module _ (c : CaptchaConfig) (now : ℕ) where
  raise_up :
      (os_type : OsType) (row : UserAppData)
      → row.should_solve_captcha_ternary ≡ pos 1
      → after (automatically_raise_captcha_flag c os_type now) row ≡ row
  unfolding automatically_raise_captcha_flag
  raise_up ios row h = refl
  raise_up android row h = ground (arith, h)
  raise_up other_os row h = ground (arith, h)

  raise_down :
      (os_type : OsType) (row : UserAppData)
      → row.should_solve_captcha_ternary ≡ negsuc 0
      → ((after (automatically_raise_captcha_flag c os_type now) row).should_solve_captcha_ternary
          ≡ negsuc 0)
        ⊎ ((after (automatically_raise_captcha_flag c os_type now) row).should_solve_captcha_ternary
            ≡ pos 0)
  unfolding automatically_raise_captcha_flag
  raise_down ios row h = inl h
  raise_down android row h = ground (arith, h)
  raise_down other_os row h = ground (arith, h)

  -- Each time the client asks for its tasks, a flag of -1 stays or becomes 0, a flag of 0 becomes 1
  -- and a flag of 1 stays, whatever the configuration, the history and the exceptions raised: a
  -- captcha is never demanded on the call that decides to ask for one, and never forgotten.
  pub do_captcha_stuff-FlagStep :
      (os_type : OsType) (row : UserAppData)
      → IsTernary row.should_solve_captcha_ternary
      → FlagStep row.should_solve_captcha_ternary
          (after (do_captcha_stuff c os_type now) row).should_solve_captcha_ternary
  unfolding do_captcha_stuff autoswitch_captcha
  do_captcha_stuff-FlagStep os_type row (inl h) = ground (arith, h, raise_down os_type row h)
  do_captcha_stuff-FlagStep os_type row (inr (inl h)) =
      ground (arith, h, raise_up os_type (set_flag (pos 1) row) refl)
  do_captcha_stuff-FlagStep os_type row (inr (inr h)) = ground (arith, h, raise_up os_type row h)

last_date-append :
    (es : List CaptchaEntry) (e : CaptchaEntry)
    → (d : ℕ) × (last_date (es ++ e ∷ []) ≡ some d) × (e.date ≤ d)
unfolding last_date
last_date-append [] e = (e.date, refl, ground arith)
last_date-append (x ∷ es) e =
    let (d, h, k) = last_date-append es e in
    elim (Bool-cases (ltb d x.date)) [
      | inl t ↦ (x.date, ground (arith, h, t), ground (arith, h, k, t))
      | inr f ↦ (d, ground (arith, h, f), k)
    ]

recent_captcha-add_entry :
    (history : Option (List CaptchaEntry)) (e : CaptchaEntry)
    → (d : ℕ) × (recent_captcha (add_entry e history) ≡ some d) × (e.date ≤ d)
recent_captcha-add_entry none e = last_date-append [] e
recent_captcha-add_entry (some history) e = last_date-append history e

raise_hot :
    (c : CaptchaConfig) (os_type : OsType) (now recent : ℕ) (row : UserAppData)
    → recent_captcha row.captcha_history ≡ some recent
    → now ≤ (recent + c.captcha_safety_cooldown_secs) * second
    → after (automatically_raise_captcha_flag c os_type now) row ≡ row
unfolding automatically_raise_captcha_flag
raise_hot c ios now recent row h k = refl
raise_hot c android now recent row h k = ground (arith, h)
raise_hot c other_os now recent row h k = ground (arith, h)

abbrev solved_entry : ℕ → UserAppData → CaptchaEntry
solved_entry now row = record { date = now / second; app_ver = row.app_ver }

abbrev solved_row : ℕ → UserAppData → UserAppData
solved_row now row = record row {
  should_solve_captcha_ternary = negsuc 0;
  captcha_history = add_entry (solved_entry now row) row.captcha_history;
}

captcha_solved-raised :
    (now : ℕ) (row : UserAppData)
    → row.should_solve_captcha_ternary ≡ pos 1
    → captcha_solved now row ≡ solved_row now row
unfolding captcha_solved
captcha_solved-raised now row h = ground (arith, h)

-- A user who has just solved a captcha with a raised flag has the flag at -1, and every request for
-- tasks leaves the user's row as it is, the flag included, until the cooldown since then has passed.
pub captcha_solved-cooldown :
    (c : CaptchaConfig) (os_type : OsType) (now later : ℕ) (row : UserAppData)
    → row.should_solve_captcha_ternary ≡ pos 1
    → later ≤ (now / second + c.captcha_safety_cooldown_secs) * second
    → ((captcha_solved now row).should_solve_captcha_ternary ≡ negsuc 0)
      × (after (do_captcha_stuff c os_type later) (captcha_solved now row) ≡ captcha_solved now row)
unfolding captcha_solved do_captcha_stuff autoswitch_captcha automatically_raise_captcha_flag
captcha_solved-cooldown c os_type now later row h k =
    let p = captcha_solved-raised now row h in
    let (d, e, f) = recent_captcha-add_entry row.captcha_history (solved_entry now row) in
    let hot = raise_hot c os_type later d (solved_row now row) e (omega (arith, f, k)) in
    (ground (arith, h), ap (after (do_captcha_stuff c os_type later)) p ∙ hot ∙ sym p)

-- A submission that passes `check_captcha` leaves a user from whom no captcha is required; one
-- that does not pass leaves the row as it was, and is answered by the missing or the failed status.
pub check_captcha_lem :
    (c : CaptchaConfig) (older : Older) (os_type : OsType) (now : ℕ)
    (token : Option (Option CaptchaReply)) (row : UserAppData)
    → ((check_captcha c older os_type now token row).0 ≡ captcha_ok)
        × (should_pass_captcha c older os_type (check_captcha c older os_type now token row).1
            ≡ false)
      ⊎ ((check_captcha c older os_type now token row).0 ≢ captcha_ok)
        × ((check_captcha c older os_type now token row).1 ≡ row)
unfolding check_captcha should_pass_captcha captcha_solved
check_captcha_lem c older os_type now token row = ground arith

-- ===== src/Users/Access/Doors.antt =====
-- Who may submit results may also fetch tasks and book offers.
use mathlib.Core.Path.{subst}
use kin_app_server.Common.{
  ℕ, ◌≡◌, ◌≢◌, refl, ap, sym, ◌∙◌, ◌⊎◌, inl, inr, Bool, true, false, arith, Bool-cases,
  Option-cases, map,
}
use kin_app_server.Common.Table.{first_row}
use kin_app_server.Action.{Action, ok, after, call-cases}
use kin_app_server.Auth.{
  Tokens, of_user, is_user_authenticated, token_row, get_token_obj_by_user_id, create_token,
}
use kin_app_server.Users.{user_deactivated}
use kin_app_server.Users.Access.{
  with_authentication, ask, AccessConfig, Gate, Decrypt, AuthStatus, authorized, denied,
  auth_failed, is_userid_blacklisted, lacks_phone, in_blocked_prefix, in_blocked_country,
  authorize_tests, authorize, may_get_tasks, booking_tests, may_book,
}

-- A user whose token says so is authenticated, and asking changes nothing.
authenticated-row :
    (uid uuid : ℕ) (s : Tokens)
    → (is_user_authenticated uid uuid s).0 ≡ ok true
    → (again : ℕ) → is_user_authenticated uid again s ≡ (ok true, s)
unfolding is_user_authenticated token_row get_token_obj_by_user_id create_token
authenticated-row uid uuid s h again = elim (Option-cases (first_row (of_user uid) s.rows)) [
  | inl e ↦ absurd (ground (arith, e, h))
  | inr (t, e) ↦ ground (arith, e, h)
]

-- The tables with the users that the tokens' foreign key may name.
abbrev filled : Gate → Gate
filled s = record s {
  db = record s.db { tokens = record s.db.tokens { users = map (λ u. u.user_id) s.db.users } };
}

ask-filled :
    (uid uuid : ℕ) (s : Gate)
    → (ask uid uuid s).0 ≡ ok true
    → (again : ℕ) → ask uid again s ≡ (ok true, filled s)
ask-filled uid uuid s h again =
    ap (λ r. (r.0, record s { db = record s.db { tokens = r.1 } }))
      (authenticated-row uid uuid (filled s).db.tokens h again)

-- Who is let through has been tested, and asked for where that is enforced.
through :
    (b : Bool) (m : Action Gate Bool) (refused : AuthStatus) (go : Action Gate AuthStatus)
    (s : Gate)
    → refused ≢ authorized
    → (with_authentication b m refused go s).0 ≡ ok authorized
    → (t : Gate) × (with_authentication b m refused go s ≡ go t)
      × ((b ≡ false) × (t ≡ s) ⊎ (b ≡ true) × (m s ≡ (ok true, t)))
unfolding with_authentication
through false m refused go s n h = (s, refl, inl (refl, refl))
through true m refused go s n h = elim (call-cases (m s)) [
  | inr (x, t, e) ↦ absurd (ground (arith, e, h))
  | inl (a, t, e) ↦ elim (Bool-cases a) [
    | inl y ↦ (t, ground (arith, e, y), inr (refl, ground (arith, e, y)))
    | inr y ↦ absurd (ground (arith, e, y, h, n))
  ]
]

pass :
    (b : Bool) (m : Action Gate Bool) (refused : AuthStatus) (go : Action Gate AuthStatus)
    (s : Gate)
    → (b ≡ false) ⊎ (m s ≡ (ok true, s))
    → with_authentication b m refused go s ≡ go s
unfolding with_authentication
pass false m refused go s h = refl
pass true m refused go s (inl h) = absurd (ground (arith, h))
pass true m refused go s (inr h) = ground (arith, h)

module _ (c : AccessConfig) (decrypt : Decrypt) (uid : ℕ) where
  -- No test of the submission of results holds.
  abbrev pub IsClear : Gate → Type 0
  IsClear s =
      (lacks_phone c decrypt uid s ≡ false)
      × (user_deactivated uid s.db ≡ false)
      × (in_blocked_prefix c decrypt uid s ≡ false)
      × (in_blocked_country c decrypt uid s ≡ false)
      × (is_userid_blacklisted uid s ≡ false)

  authorize_tests-IsClear :
      (s : Gate) → (authorize_tests c decrypt uid s).0 ≡ ok authorized → IsClear s
  unfolding authorize_tests
  authorize_tests-IsClear s h = ground (arith, h)

  IsClear-tests : (s : Gate) → IsClear s → authorize_tests c decrypt uid s ≡ (ok authorized, s)
  unfolding authorize_tests
  IsClear-tests s h = ground (arith, h)

  IsClear-tasks : (s : Gate) → IsClear s → may_get_tasks c decrypt uid s ≡ (ok authorized, s)
  unfolding may_get_tasks
  IsClear-tasks s h = ground (arith, h)

  IsClear-booking : (s : Gate) → IsClear s → booking_tests c decrypt uid s ≡ (ok authorized, s)
  unfolding booking_tests
  IsClear-booking s h = ground (arith, h)

  -- What follows from a call that authorized the user.
  abbrev pub Opens : Gate → Gate → Type 0
  Opens s t =
      IsClear t
      × (may_get_tasks c decrypt uid t ≡ (ok authorized, t))
      × ((again : ℕ) → may_book c decrypt uid again t ≡ (ok authorized, t))
      × (t.told ≡ s.told)
      × (t.db.users ≡ s.db.users)
      × (t.db.app_data ≡ s.db.app_data)

  opened :
      (s t : Gate)
      → IsClear t
      → ((again : ℕ) → may_book c decrypt uid again t ≡ (ok authorized, t))
      → (t.told ≡ s.told) × (t.db.users ≡ s.db.users) × (t.db.app_data ≡ s.db.app_data)
      → Opens s t
  opened s t clear book same = (clear, IsClear-tasks t clear, book, same.0, same.1, same.2)

  -- A user whom `authorize` lets submit results has a verified number where one is required, is
  -- active, is in no blocked prefix or country and is not blacklisted; in the state that the call
  -- left the same user may fetch tasks and, whatever UUID comes up, book offers; and the call sent
  -- no push, and changed neither the users nor their application data.
  pub authorize-Opens :
      (uuid : ℕ) (s : Gate)
      → (authorize c decrypt uid uuid s).0 ≡ ok authorized
      → Opens s (after (authorize c decrypt uid uuid) s)
  unfolding authorize may_book
  authorize-Opens uuid s h =
      let (t, run, how) =
        through c.auth_token_enforced (ask uid uuid) auth_failed (authorize_tests c decrypt uid) s
          (ground arith) h in
      let clear = authorize_tests-IsClear t (ap (λ r. r.0) (sym run) ∙ h) in
      let done = run ∙ IsClear-tests t clear in
      subst (Opens s) (ap (λ r. r.1) (sym done)) (elim how [
        | inl (off, e) ↦
            opened s t clear
              (λ again.
                pass c.auth_token_enforced (ask uid again) denied (booking_tests c decrypt uid) t
                  (inl off)
                ∙ IsClear-booking t clear)
              (ap (λ u. u.told) e, ap (λ u. u.db.users) e, ap (λ u. u.db.app_data) e)
        | inr (on, e) ↦
            let p = ap (λ r. r.1) (sym e ∙ ask-filled uid uuid s (ap (λ r. r.0) e) uuid) in
            opened s t clear
              (λ again.
                pass c.auth_token_enforced (ask uid again) denied (booking_tests c decrypt uid) t (
                  inr (
                    subst (λ u. ask uid again u ≡ (ok true, u)) (sym p)
                      (ask-filled uid uuid s (ap (λ r. r.0) e) again)))
                ∙ IsClear-booking t clear)
              (ap (λ u. u.told) p, ap (λ u. u.db.users) p, ap (λ u. u.db.app_data) p)
      ])

-- ===== src/Users/Registration/Limit.antt =====
-- How many users a phone number has.
use kin_app_server.Common.{
  ℕ, ◌≡◌, ◌≤◌, ◌+◌, refl, String, false, some, ◌==◌, arith, one_if, Option-cases, inl, inr,
}
use kin_app_server.Common.Table.{count_rows, first_row, count-update_first, count-update_rows}
use kin_app_server.Action.{after, call-cases}
use kin_app_server.Users.{User, UserDb, is_user, has_phone, save, get_user}
use kin_app_server.Users.Phones.{deactivate_by_enc_phone_number, set_user_phone_number}
use kin_app_server.Users.Phones.Takeover.{take_over_all-users, is_old, retire, rivals}
use kin_app_server.Users.Registration.{
  Limits, PhoneRequest, count_registrations_for_phone_number, set_user_phone_number_endpoint,
}

-- Deactivating users takes no number away.
count-deactivate :
    (p phone uid : ℕ) (s : UserDb)
    → count_rows (has_phone p) (deactivate_by_enc_phone_number phone uid false s).users
      ≡ count_rows (has_phone p) s.users
unfolding deactivate_by_enc_phone_number
count-deactivate p phone uid s = rw (take_over_all-users phone uid (rivals phone uid s.users) s) (
    count-update_rows (has_phone p) (is_old phone (rivals phone uid s.users)) retire s.users
      (λ u. refl))

count-save :
    (p phone uid : ℕ) (s : UserDb) (u : User)
    → first_row (is_user uid) s.users ≡ some u
    → count_rows (has_phone p) (save uid (λ v. record v { enc_phone_number = some phone }) s).users
      ≤ count_rows (has_phone p) s.users + one_if (p == phone)
count-save p phone uid s u e = ground (
  arith,
  count-update_first (has_phone p) (is_user uid) (λ v. record v { enc_phone_number = some phone })
      s.users u e,
)

count-set_user_phone_number :
    (encrypt : String → ℕ) (p uid : ℕ) (number : String) (s : UserDb)
    → count_rows (has_phone p) (after (set_user_phone_number encrypt uid number) s).users
      ≤ count_rows (has_phone p) s.users + one_if (p == encrypt number)
unfolding set_user_phone_number get_user
count-set_user_phone_number encrypt p uid number s =
    elim (Option-cases (first_row (is_user uid) s.users)) [
      | inl e ↦ ground (arith, e)
      | inr (u, e) ↦ elim (Option-cases u.enc_phone_number) [
        | inr (q, e') ↦ ground (arith, e, e')
        | inl e' ↦
            let t = save uid (λ v. record v { enc_phone_number = some (encrypt number) }) s in
            ground (
              arith,
              e,
              e',
              count-save p (encrypt number) uid s u e,
              count-deactivate p (encrypt number) uid t,
            )
      ]
    ]

-- Unless the request comes from the ACL, no number gets more users than the limit allows: with at
-- most the limit before a request, there are at most the limit after it, however it ends.
pub set_user_phone_number_endpoint-limit :
    (c : Limits) (encrypt : String → ℕ) (uid p : ℕ) (r : PhoneRequest) (s : UserDb)
    → r.in_acl ≡ false
    → count_rows (has_phone p) s.users ≤ c.max_num_registrations_per_number
    → count_rows (has_phone p) (after (set_user_phone_number_endpoint c encrypt uid r) s).users
      ≤ c.max_num_registrations_per_number
unfolding set_user_phone_number_endpoint count_registrations_for_phone_number
set_user_phone_number_endpoint-limit c encrypt uid p r s ha h =
    elim (Option-cases r.verified_number) [
      | inl e ↦ ground (arith, e, h)
      | inr (number, e) ↦ elim (call-cases (set_user_phone_number encrypt uid number s)) [
        | inl (x, s', e') ↦
            ground (arith, e, e', h, ha, count-set_user_phone_number encrypt p uid number s)
        | inr (x, s', e') ↦
            ground (arith, e, e', h, ha, count-set_user_phone_number encrypt p uid number s)
      ]
    ]

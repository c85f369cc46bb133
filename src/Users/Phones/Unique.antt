-- ===== src/Users/Phones/Unique.antt =====
-- At most one active user has a phone number, after whatever the server does with its users.
use mathlib.Core.Path.{subst}
use kin_app_server.Common.{
  ℕ, ◌≡◌, ◌≤◌, ◌≢◌, refl, sym, true, false, List, ◌==◌, arith, Bool-cases, inl, inr, All, All-map,
}
use kin_app_server.Common.Table.{
  count_rows, update_rows, All-rows, count-update_rows_le, count-update_rows,
}
use kin_app_server.Users.{User, UserDb, is_user, has_phone, is_active}
use kin_app_server.Users.Phones.{activate, deactivate_by_enc_phone_number}
use kin_app_server.Users.Phones.Takeover.{
  is_old, retire, take_over_all-users, Listed, rivals, rivals-Listed,
}

abbrev pub IdsUnique : List User → Type 0
IdsUnique us = (uid : ℕ) → count_rows (is_user uid) us ≤ 1

abbrev pub OnePerPhone : List User → Type 0
OnePerPhone us = (phone : ℕ) → count_rows (is_active phone) us ≤ 1

pub record IsSound (us : List User) : Type 0 where
  pub ids : IdsUnique us
  pub phones : OnePerPhone us

module _ (phone new : ℕ) where
  -- Of the users with the number, only the new one is left.
  retire-one :
      (olds : List ℕ) (us : List User)
      → Listed phone new olds us
      → count_rows (is_active phone) (update_rows (is_old phone olds) retire us)
        ≤ count_rows (is_user new) us
  retire-one olds us h =
      count-update_rows_le (is_active phone) (is_user new) (is_old phone olds) retire us
        (All-map us (λ u k. ground (arith, k)) h)

  retire-others :
      (olds : List ℕ) (us : List User) (other : ℕ)
      → count_rows (is_active other) (update_rows (is_old phone olds) retire us)
        ≤ count_rows (is_active other) us
  retire-others olds us other =
      count-update_rows_le (is_active other) (is_active other) (is_old phone olds) retire us
        (All-rows us (λ u. ground arith))

  takeover-IsSound :
      (us : List User)
      → IdsUnique us
      → ((other : ℕ) → other ≢ phone → count_rows (is_active other) us ≤ 1)
      → IsSound (update_rows (is_old phone (rivals phone new us)) retire us)
  takeover-IsSound us ids others = record {
    ids = λ uid. omega (
      arith,
      ids uid,
      count-update_rows (is_user uid) (is_old phone (rivals phone new us)) retire us (λ u. refl),
    );
    phones = λ other. elim (Bool-cases (other == phone)) [
      | inl e ↦
          subst
            (λ o.
              count_rows (is_active o) (update_rows (is_old phone (rivals phone new us)) retire us)
              ≤ 1)
            {x = phone} (ground (arith, e))
            (omega
              (arith, ids new, retire-one (rivals phone new us) us (rivals-Listed phone new us)))
      | inr e ↦
          omega
            (arith, others other (ground (arith, e)), retire-others (rivals phone new us) us other)
    ];
  }

abbrev pub WithPhone : ℕ → ℕ → List User → Type 0
WithPhone phone new us = All (λ u. is_user new u ≡ true → has_phone phone u ≡ true) us

pub deactivate-IsSound :
    (phone new : ℕ) (s : UserDb)
    → IdsUnique s.users
    → ((other : ℕ) → other ≢ phone → count_rows (is_active other) s.users ≤ 1)
    → IsSound (deactivate_by_enc_phone_number phone new false s).users
unfolding deactivate_by_enc_phone_number
deactivate-IsSound phone new s ids others =
    subst IsSound (sym (take_over_all-users phone new (rivals phone new s.users) s))
      (takeover-IsSound phone new s.users ids others)

activate-others :
    (phone new other : ℕ) (us : List User)
    → other ≢ phone
    → WithPhone phone new us
    → count_rows
        (is_active other)
        (update_rows (is_user new) (λ u. record u { deactivated = false }) us)
      ≤ count_rows (is_active other) us
activate-others phone new other us h k =
    count-update_rows_le (is_active other) (is_active other) (is_user new)
      (λ u. record u { deactivated = false }) us (All-map us (λ u e. ground (arith, e)) k)

pub reactivate-IsSound :
    (phone new : ℕ) (s : UserDb)
    → IsSound s.users
    → WithPhone phone new s.users
    → IsSound (deactivate_by_enc_phone_number phone new true s).users
unfolding deactivate_by_enc_phone_number
reactivate-IsSound phone new s h k =
    let f : User → User = λ u. record u { deactivated = false } in
    deactivate-IsSound phone new (activate true new s)
      (λ uid.
        omega
          (arith, h.ids uid, count-update_rows (is_user uid) (is_user new) f s.users (λ u. refl)))
      (λ other n. omega (arith, h.phones other, activate-others phone new other s.users n k))

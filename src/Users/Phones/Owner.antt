-- ===== src/Users/Phones/Owner.antt =====
-- Who has a phone number once it is verified or restored.
use mathlib.Core.Path.{subst}
use kin_app_server.Common.{
  ℕ, ◌≡◌, ◌≤◌, refl, sym, String, Bool, false, ◌&&◌, none, some, List, [], ◌∷◌, if◌then◌else◌,
  arith, one_if, Bool-cases, Option-cases, inl, inr,
}
use kin_app_server.Common.Table.{
  count_rows, first_row, first_row-of_count, update_rows, update_first,
}
use kin_app_server.Action.{ok, after}
use kin_app_server.Users.{User, UserDb, is_user, is_active, elem, user_id_of, get_user, save}
use kin_app_server.Users.Phones.{
  deactivate_by_enc_phone_number, set_user_phone_number, get_active_user_id_by_phone,
}
use kin_app_server.Users.Phones.Takeover.{
  is_old, retire, take_over_all-users, Listed, rivals, rivals-Listed,
}

-- The row of the user, with the number and active.
abbrev pub holds : ℕ → ℕ → User → Bool
holds phone new u = is_active phone u && is_user new u

module _ (phone new : ℕ) where
  elem-rivals : (us : List User) → elem new (rivals phone new us) ≡ false
  elem-rivals [] = refl
  elem-rivals (u ∷ us) = ground (arith, elem-rivals us)

  retire-keeps_row :
      (olds : List ℕ) (u : User)
      → elem new olds ≡ false
      → one_if (holds phone new u)
        ≤ one_if (is_active phone (if is_old phone olds u then retire u else u))
  retire-keeps_row olds u h = elim (Bool-cases (is_user new u)) [
    | inl e ↦
        ground (
          arith,
          e,
          subst (λ i. elem i olds ≡ false) {x = new} {y = u.user_id} (ground (arith, e)) h,
        )
    | inr e ↦ ground (arith, e)
  ]

  retire-keeps :
      (olds : List ℕ) (us : List User)
      → elem new olds ≡ false
      → count_rows (holds phone new) us
        ≤ count_rows (is_active phone) (update_rows (is_old phone olds) retire us)
  retire-keeps olds [] h = omega arith
  retire-keeps olds (u ∷ us) h = omega (arith, retire-keeps olds us h, retire-keeps_row olds u h)

  retire-only :
      (olds : List ℕ) (us : List User)
      → Listed phone new olds us
      → (v : User)
      → first_row (is_active phone) (update_rows (is_old phone olds) retire us) ≡ some v
      → v.user_id ≡ new
  retire-only olds [] h v e = cc
  retire-only olds (u ∷ us) h v e =
      elim (Bool-cases (is_active phone (if is_old phone olds u then retire u else u))) [
        | inl t ↦ ground (arith, e, t, h.0)
        | inr f ↦ retire-only olds us h.1 v (ground (arith, e, f))
      ]

  pub takeover-owner :
      (s : UserDb)
      → 1 ≤ count_rows (holds phone new) s.users
      → user_id_of
          (first_row (is_active phone) (deactivate_by_enc_phone_number phone new false s).users)
        ≡ some new
  unfolding deactivate_by_enc_phone_number
  takeover-owner s h =
      let ids = rivals phone new s.users in
      let kept : 1 ≤ count_rows (is_active phone) (update_rows (is_old phone ids) retire s.users) =
        omega (arith, h, retire-keeps ids s.users (elem-rivals s.users)) in
      subst (λ us. user_id_of (first_row (is_active phone) us) ≡ some new)
        (sym (take_over_all-users phone new ids s))
        (elim (Option-cases
          (first_row (is_active phone) (update_rows (is_old phone ids) retire s.users))) [
            | inl n ↦ absurd (
                first_row-of_count (is_active phone) (update_rows (is_old phone ids) retire s.users)
                  kept n)
            | inr (v, n) ↦
                ground (arith, n, retire-only ids s.users (rivals-Listed phone new s.users) v n)
          ])

holds-update_first :
    (uid phone : ℕ) (us : List User) (u : User)
    → first_row (is_user uid) us ≡ some u
    → u.deactivated ≡ false
    → 1
      ≤ count_rows
          (holds phone uid)
          (update_first (is_user uid) (λ v. record v { enc_phone_number = some phone }) us)
holds-update_first uid phone [] u e h = cc
holds-update_first uid phone (x ∷ xs) u e h = elim (Bool-cases (is_user uid x)) [
  | inl t ↦ ground (arith, t, e, h)
  | inr f ↦ ground (arith, f, holds-update_first uid phone xs u (ground (arith, f, e)) h)
]

-- The first number that an active user verifies becomes theirs alone: the call returns, and the
-- number then leads to this user, whoever had it before.
pub set_user_phone_number-owner :
    (encrypt : String → ℕ) (uid : ℕ) (number : String) (u : User) (s : UserDb)
    → first_row (is_user uid) s.users ≡ some u
    → u.deactivated ≡ false
    → u.enc_phone_number ≡ none
    → ((set_user_phone_number encrypt uid number s).0 ≡ ok tt)
      × (get_active_user_id_by_phone encrypt number
            (after (set_user_phone_number encrypt uid number) s)
          ≡ some uid)
unfolding set_user_phone_number get_user get_active_user_id_by_phone
set_user_phone_number-owner encrypt uid number u s e h n =
    let p = encrypt number in
    let f : User → User = λ v. record v { enc_phone_number = some p } in
    ground
      (arith, e, n, takeover-owner p uid (save uid f s) (holds-update_first uid p s.users u e h))

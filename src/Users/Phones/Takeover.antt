-- ===== src/Users/Phones/Takeover.antt =====
-- What `deactivate_by_enc_phone_number` does to the table of users, row by row.
use mathlib.Core.Path.{subst}
use kin_app_server.Common.{
  ℕ, ◌≡◌, refl, sym, ◌∙◌, Bool, true, ◌&&◌, List, [], ◌∷◌, map, arith, Bool-cases, inl, inr, All,
  All-map,
}
use kin_app_server.Common.Table.{select_rows, update_rows}
use kin_app_server.Users.{User, UserDb, is_user, has_phone, elem}
use kin_app_server.Users.Phones.{take_over, take_over_all, is_rival}

abbrev pub is_old : ℕ → List ℕ → User → Bool
is_old phone olds u = has_phone phone u && elem u.user_id olds

abbrev pub retire : User → User
retire u = record u { deactivated = true }

update_rows-none : (phone : ℕ) (us : List User) → update_rows (is_old phone []) retire us ≡ us
update_rows-none phone [] = refl
update_rows-none phone (u ∷ us) = ground (arith, update_rows-none phone us)

update_rows-twice :
    (phone old : ℕ) (olds : List ℕ) (us : List User)
    → update_rows
        (is_old phone olds)
        retire
        (update_rows (λ u. has_phone phone u && is_user old u) retire us)
      ≡ update_rows (is_old phone (old ∷ olds)) retire us
update_rows-twice phone old olds [] = refl
update_rows-twice phone old olds (u ∷ us) = ground (arith, update_rows-twice phone old olds us)

pub take_over_all-users :
    (phone new : ℕ) (olds : List ℕ) (s : UserDb)
    → (take_over_all phone new olds s).users ≡ update_rows (is_old phone olds) retire s.users
unfolding take_over_all take_over
take_over_all-users phone new [] s = sym (update_rows-none phone s.users)
take_over_all-users phone new (old ∷ olds) s =
    take_over_all-users phone new olds (take_over phone new old s)
    ∙ update_rows-twice phone old olds s.users

-- every rival's id is in the list
abbrev pub Listed : ℕ → ℕ → List ℕ → List User → Type 0
Listed phone new olds us = All (λ u. is_rival phone new u ≡ true → elem u.user_id olds ≡ true) us

Listed-more :
    (phone new old : ℕ) (olds : List ℕ) (us : List User)
    → Listed phone new olds us
    → Listed phone new (old ∷ olds) us
Listed-more phone new old olds us h = All-map us (λ u k e. ground (arith, k e)) h

abbrev pub rivals : ℕ → ℕ → List User → List ℕ
rivals phone new us = map (λ u. u.user_id) (select_rows (is_rival phone new) us)

pub rivals-Listed : (phone new : ℕ) (us : List User) → Listed phone new (rivals phone new us) us
rivals-Listed phone new [] = tt
rivals-Listed phone new (u ∷ us) =
    let rest = rivals-Listed phone new us in
    elim (Bool-cases (is_rival phone new u)) [
      | inl e ↦
          subst (λ ids. Listed phone new ids (u ∷ us)) {x = u.user_id ∷ rivals phone new us}
            (ground (arith, e))
            (λ _. ground arith, Listed-more phone new u.user_id (rivals phone new us) us rest)
      | inr e ↦
          subst (λ ids. Listed phone new ids (u ∷ us)) {x = rivals phone new us} (ground (arith, e))
            (λ t. absurd (ground (arith, e, t)), rest)
    ]

-- ===== src/Users/Phones/Steps.antt =====
-- Each operation on the users keeps at most one active user per phone number.
use mathlib.Core.Path.{subst}
use kin_app_server.Common.{
  ℕ, ◌≡◌, ◌≤◌, ◌≢◌, refl, sym, ◌∙◌, String, Bool, true, false, not, ◌&&◌, some, List, ◌∷◌, ◌==◌,
  arith, one_if, Bool-cases, Option-cases, inl, inr,
}
use kin_app_server.Common.Table.{
  count_rows, first_row, first_row-none, update_first, All-rows, count-update_first_le,
  count-update_first_same,
}
use kin_app_server.Action.{ok, err, after, Action, Result, pure, ◌>>◌}
use kin_app_server.Auth.{get_token_obj_by_user_id}
use kin_app_server.Users.{
  User, UserDb, is_user, is_active, of_user, add_rows, on_tokens, has_address, get_user,
  deactivate_user, set_onboarded, create_user, Device, save, add_app_data, new_user, reregister,
}
use kin_app_server.Users.Phones.{
  deactivate_by_enc_phone_number, set_user_phone_number, migrate_user, lacks_row,
  migrate_restored_user_data,
}
use kin_app_server.Users.Phones.Unique.{IsSound, deactivate-IsSound}

pub IsSound-at : (us : List User) {vs : List User} → vs ≡ us → IsSound us → IsSound vs
IsSound-at us e h = subst IsSound (sym e) h

-- A change to the first row of a user that leaves the id, and makes the row active for no number.
change-IsSound :
    (uid : ℕ) (f : User → User) (us : List User)
    → ((u : User) → (f u).user_id ≡ u.user_id)
    → ((u : User) (phone : ℕ) → one_if (is_active phone (f u)) ≤ one_if (is_active phone u))
    → IsSound us
    → IsSound (update_first (is_user uid) f us)
change-IsSound uid f us id act h = record {
  ids = λ v. omega (
    arith,
    h.ids v,
    count-update_first_same (is_user v) (is_user uid) f us (λ u. ground (arith, id u)),
  );
  phones = λ p. omega (
    arith,
    h.phones p,
    count-update_first_le (is_active p) (is_active p) (is_user uid) f us
        (All-rows us (λ u. (omega arith, λ _. act u p))),
  );
}

pub deactivate_user-IsSound :
    (uid : ℕ) (s : UserDb) → IsSound s.users → IsSound (after (deactivate_user uid) s).users
unfolding deactivate_user get_user
deactivate_user-IsSound uid s h = elim (Option-cases (first_row (is_user uid) s.users)) [
  | inl e ↦ IsSound-at s.users (ground (arith, e)) h
  | inr (u, e) ↦
      IsSound-at (update_first (is_user uid) (λ v. record v { deactivated = true }) s.users)
        (ground (arith, e))
        (change-IsSound uid (λ v. record v { deactivated = true }) s.users (λ v. refl)
          (λ v p. ground arith) h)
]

pub set_onboarded-IsSound :
    (uid address : ℕ) (b : Bool) (s : UserDb)
    → IsSound s.users
    → IsSound (after (set_onboarded uid b address) s).users
unfolding set_onboarded get_user
set_onboarded-IsSound uid address b s h =
    let f : User → User = λ u. record u { onboarded = b; public_address = some address } in
    let changed = change-IsSound uid f s.users (λ v. refl) (λ v p. omega arith) h in
    elim (Option-cases (first_row (is_user uid) s.users)) [
      | inl e ↦ IsSound-at s.users (ground (arith, e)) h
      | inr (u, e) ↦
          elim (Bool-cases
            (count_rows (λ v. has_address address v && not (is_user uid v)) s.users == 0)) [
              | inl t ↦
                  IsSound-at (update_first (is_user uid) f s.users) (ground (arith, e, t)) changed
              | inr t ↦ IsSound-at s.users (ground (arith, e, t)) h
            ]
    ]

phone-others :
    (uid phone other : ℕ) (us : List User)
    → other ≢ phone
    → count_rows
        (is_active other)
        (update_first (is_user uid) (λ u. record u { enc_phone_number = some phone }) us)
      ≤ count_rows (is_active other) us
phone-others uid phone other us h =
    count-update_first_le (is_active other) (is_active other) (is_user uid)
      (λ u. record u { enc_phone_number = some phone }) us
      (All-rows us (λ u. (omega arith, λ _. ground (arith, h))))

pub set_user_phone_number-IsSound :
    (encrypt : String → ℕ) (uid : ℕ) (number : String) (s : UserDb)
    → IsSound s.users
    → IsSound (after (set_user_phone_number encrypt uid number) s).users
unfolding set_user_phone_number get_user
set_user_phone_number-IsSound encrypt uid number s h =
    let f : User → User = λ u. record u { enc_phone_number = some (encrypt number) } in
    let set =
      deactivate-IsSound (encrypt number) uid (save uid f s)
        (λ v.
          omega (
            arith,
            h.ids v,
            count-update_first_same (is_user v) (is_user uid) f s.users (λ u. refl),
          ))
        (λ o n. omega (arith, h.phones o, phone-others uid (encrypt number) o s.users n)) in
    elim (Option-cases (first_row (is_user uid) s.users)) [
      | inl e ↦ IsSound-at s.users (ground (arith, e)) h
      | inr (u, e) ↦ elim (Option-cases u.enc_phone_number) [
        | inl n ↦
            IsSound-at
              (deactivate_by_enc_phone_number (encrypt number) uid false (save uid f s)).users
              (ground (arith, e, n)) set
        | inr (p, n) ↦ IsSound-at s.users (ground (arith, e, n)) h
      ]
    ]

-- A call that leaves the table of users alone.
abbrev KeepsUsers : {A : Type 0} → Action UserDb A → Type 0
KeepsUsers m = (s : UserDb) → (after m s).users ≡ s.users

KeepsUsers-go :
    {A B : Type 0} (k : Action UserDb B) (s : UserDb) (p : Result A × UserDb)
    → KeepsUsers k
    → p.1.users ≡ s.users
    → (elim p.0 as (λ _. Result B × UserDb) [ ok a ↦ k p.1 | err e ↦ (err e, p.1) ]).1.users
      ≡ s.users
KeepsUsers-go k s (ok a, t) hk h = hk t ∙ h
KeepsUsers-go k s (err e, t) hk h = h

KeepsUsers-then :
    {A B : Type 0} (m : Action UserDb A) (k : Action UserDb B)
    → KeepsUsers m
    → KeepsUsers k
    → KeepsUsers (m >> k)
KeepsUsers-then m k hm hk s = KeepsUsers-go k s (m s) hk (hm s)

add_app_data-KeepsUsers : (uid : ℕ) (app_ver : String) → KeepsUsers (add_app_data uid app_ver)
add_app_data-KeepsUsers uid app_ver s = ground arith

add_rows-KeepsUsers :
    (uid : ℕ) (app_ver : String) (uuid3 : ℕ) → KeepsUsers (add_rows uid app_ver uuid3)
unfolding add_rows
add_rows-KeepsUsers uid app_ver uuid3 =
    KeepsUsers-then (add_app_data uid app_ver)
      (on_tokens (get_token_obj_by_user_id uid uuid3) >> pure true)
      (add_app_data-KeepsUsers uid app_ver)
      (KeepsUsers-then (on_tokens (get_token_obj_by_user_id uid uuid3)) (pure true) (λ s. refl)
        (λ s. refl))

pub create_user-IsSound :
    (uid : ℕ) (d : Device) (uuid1 uuid2 uuid3 : ℕ) (s : UserDb)
    → IsSound s.users
    → IsSound (after (create_user uid d uuid1 uuid2 uuid3) s).users
unfolding create_user
create_user-IsSound uid d uuid1 uuid2 uuid3 s h =
    elim (Option-cases (first_row (is_user uid) s.users)) [
      | inl e ↦
          IsSound-at (new_user uid d uuid1 uuid2 ∷ s.users)
            (ground (
              arith,
              e,
              add_rows-KeepsUsers uid d.app_ver uuid3
                  (record s { users = new_user uid d uuid1 uuid2 ∷ s.users }),
            ))
            (record {
              ids = λ v. ground (
                arith,
                h.ids v,
                first_row-none (is_user uid) s.users e,
                first_row-none (is_user v) s.users,
              );
              phones = λ p. ground (arith, h.phones p);
            })
      | inr (u, e) ↦
          IsSound-at (update_first (is_user uid) (reregister d uuid1 uuid2) s.users)
            (ground (arith, e))
            (change-IsSound uid (reregister d uuid1 uuid2) s.users (λ v. refl) (λ v p. omega arith)
              h)
    ]

pub migrate_restored_user_data-IsSound :
    (temp restored : ℕ) (s : UserDb)
    → IsSound s.users
    → IsSound (migrate_restored_user_data temp restored s).1.users
unfolding migrate_restored_user_data
migrate_restored_user_data-IsSound temp restored s h =
    elim (Option-cases (first_row (is_user temp) s.users)) [
      | inl e ↦ IsSound-at s.users (ground (arith, e)) h
      | inr (u, e) ↦ elim (Option-cases (first_row (of_user temp) s.app_data)) [
        | inl n ↦ IsSound-at s.users (ground (arith, e, n)) h
        | inr (d, n) ↦ elim (Bool-cases (lacks_row restored s)) [
          | inl t ↦ IsSound-at s.users (ground (arith, e, n, t)) h
          | inr t ↦
              IsSound-at (update_first (is_user restored) (migrate_user u) s.users)
                (ground (arith, e, n, t))
                (change-IsSound restored (migrate_user u) s.users (λ v. refl) (λ v p. omega arith)
                  h)
        ]
      ]
    ]

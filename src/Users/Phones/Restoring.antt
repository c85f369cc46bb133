-- ===== src/Users/Phones/Restoring.antt =====
-- Restoring a user from a backup, and every sequence of operations on the users.
use kin_app_server.Common.{
  ℕ, ◌≡◌, ◌≤◌, String, Bool, true, some, ◌==◌, arith, Bool-cases, Option-cases, inl, inr, All-map,
  is_none,
}
use kin_app_server.Common.Table.{count_rows, first_row, All-unique}
use kin_app_server.Action.{after}
use kin_app_server.Users.{UserDb, is_user, deactivate_user, set_onboarded, create_user, Device}
use kin_app_server.Users.Phones.{
  deactivate_by_enc_phone_number, set_user_phone_number, restore_user_by_address,
  migrate_restored_user_data, get_enc_phone_number_by_user_id, get_userid_by_address, has_hints,
}
use kin_app_server.Users.Phones.Unique.{IsSound, WithPhone, reactivate-IsSound}
use kin_app_server.Users.Phones.Steps.{
  IsSound-at, deactivate_user-IsSound, set_onboarded-IsSound, set_user_phone_number-IsSound,
  create_user-IsSound, migrate_restored_user_data-IsSound,
}

user-WithPhone :
    (uid phone : ℕ) (s : UserDb)
    → count_rows (is_user uid) s.users ≤ 1
    → get_enc_phone_number_by_user_id uid s ≡ some phone
    → WithPhone phone uid s.users
unfolding get_enc_phone_number_by_user_id
user-WithPhone uid phone s h k = elim (Option-cases (first_row (is_user uid) s.users)) [
  | inl e ↦ absurd (ground (arith, e, k))
  | inr (u, e) ↦
      All-map s.users (λ v same t. ground (arith, e, k, same t))
        (All-unique (is_user uid) s.users u h e)
]

restore_user_by_address-IsSound :
    (current address : ℕ) (s : UserDb)
    → IsSound s.users
    → IsSound (restore_user_by_address current address s).1.users
unfolding restore_user_by_address
restore_user_by_address-IsSound current address s h =
    elim (Option-cases (get_enc_phone_number_by_user_id current s)) [
      | inl e ↦ IsSound-at s.users (ground (arith, e)) h
      | inr (phone, e) ↦
          elim (Bool-cases (is_none (first_row (has_hints phone) s.phone_backup_hints))) [
            | inl t ↦ IsSound-at s.users (ground (arith, e, t)) h
            | inr t ↦ elim (Option-cases (get_userid_by_address address s)) [
              | inl n ↦ IsSound-at s.users (ground (arith, e, t, n)) h
              | inr (original, n) ↦
                  elim (Option-cases (get_enc_phone_number_by_user_id original s)) [
                    | inl o ↦ IsSound-at s.users (ground (arith, e, t, n, o)) h
                    | inr (p, o) ↦ elim (Bool-cases (p == phone)) [
                      | inl q ↦
                          IsSound-at
                            (migrate_restored_user_data current original
                              (deactivate_by_enc_phone_number phone original true s)).1.users
                            (ground (arith, e, t, n, o, q))
                            (migrate_restored_user_data-IsSound current original
                              (deactivate_by_enc_phone_number phone original true s)
                              (reactivate-IsSound phone original s h (
                                user-WithPhone original phone s (h.ids original)
                                  (ground (arith, o, q)))))
                      | inr q ↦ IsSound-at s.users (ground (arith, e, t, n, o, q)) h
                    ]
                  ]
            ]
          ]
    ]

-- The calls that write to the table of users, and calls that do not.
pub data Step : UserDb → UserDb → Type 0 where
  register :
      (uid : ℕ) (d : Device) (uuid1 uuid2 uuid3 : ℕ) (s : UserDb)
      → Step s (after (create_user uid d uuid1 uuid2 uuid3) s)
  onboard :
      (uid : ℕ) (b : Bool) (address : ℕ) (s : UserDb)
      → Step s (after (set_onboarded uid b address) s)
  verify :
      (encrypt : String → ℕ) (uid : ℕ) (number : String) (s : UserDb)
      → Step s (after (set_user_phone_number encrypt uid number) s)
  restore :
      (current address : ℕ) (s : UserDb) → Step s (restore_user_by_address current address s).1
  deactivate : (uid : ℕ) (s : UserDb) → Step s (after (deactivate_user uid) s)
  elsewhere : (s t : UserDb) → t.users ≡ s.users → Step s t

pub data Reach (s : UserDb) : UserDb → Type 0 where
  here : Reach s s
  next : {t u : UserDb} → Reach s t → Step t u → Reach s u

Step-IsSound : {s t : UserDb} → Step s t → IsSound s.users → IsSound t.users
Step-IsSound (register uid d uuid1 uuid2 uuid3 s) h =
    create_user-IsSound uid d uuid1 uuid2 uuid3 s h
Step-IsSound (onboard uid b address s) h = set_onboarded-IsSound uid address b s h
Step-IsSound (verify encrypt uid number s) h = set_user_phone_number-IsSound encrypt uid number s h
Step-IsSound (restore current address s) h = restore_user_by_address-IsSound current address s h
Step-IsSound (deactivate uid s) h = deactivate_user-IsSound uid s h
Step-IsSound (elsewhere s t e) h = IsSound-at s.users e h

-- From tables in which user ids are unique and no phone number has two active users, every
-- sequence of registrations, onboardings, phone verifications, restores, deactivations and calls
-- that leave the table of users alone leads to tables of which the same holds, whichever calls
-- raise or are refused.
pub Reach-IsSound : (s t : UserDb) → Reach s t → IsSound s.users → IsSound t.users
Reach-IsSound s _ here h = h
Reach-IsSound s _ (next {t = t} r step) h = Step-IsSound step (Reach-IsSound s t r h)

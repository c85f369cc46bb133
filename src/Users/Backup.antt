-- ===== src/Users/Backup.antt =====
-- The hints for a user's backup: kinappserver/models/backup.py.
mod Tests
use kin_app_server.Common.{
  ℕ, suc, ◌≤◌, ◌≡◌, refl, Bool, true, false, not, ◌&&◌, ◌||◌, Option, none, some, List, [], ◌∷◌,
  ◌++◌, ltb, ◌==◌, if◌then◌else◌, is_some, arith, Bool-cases, Option-cases, inl, inr,
}
use kin_app_server.Common.Table.{first_row, update_first}
use kin_app_server.Users.{PhoneBackupHints, UserDb, elem}
use kin_app_server.Users.Phones.{has_hints, get_enc_phone_number_by_user_id}

abbrev pub minimal_backup_hints : ℕ
minimal_backup_hints = 2

abbrev pub count_hints : List ℕ → ℕ
count_hints [] = 0
count_hints (x ∷ xs) = suc (count_hints xs)

abbrev pub all_known : List ℕ → List ℕ → Bool
all_known pool [] = true
all_known pool (h ∷ hs) = elem h pool && all_known pool hs

-- New hints overwrite the number's earlier ones, which join its history.
abbrev pub overwrite : ℕ → List ℕ → PhoneBackupHints → PhoneBackupHints
overwrite now hints r = record r {
  hints = hints;
  updated_at = now;
  previous_hints = r.previous_hints ++ (r.updated_at, r.hints) ∷ [];
}

-- The number's row once `hints` are stored, given the one it had: the earlier hints, with the time
-- they were stored, are the last of the history.
abbrev pub renewed : ℕ → ℕ → List ℕ → Option PhoneBackupHints → PhoneBackupHints
renewed phone now hints none = record {
  enc_phone_number = phone;
  hints = hints;
  updated_at = now;
  previous_hints = [];
}
renewed phone now hints (some r) = record {
  enc_phone_number = r.enc_phone_number;
  hints = hints;
  updated_at = now;
  previous_hints = r.previous_hints ++ (r.updated_at, r.hints) ∷ [];
}

-- `pool` holds the ids of the questions.
unfoldable pub store_backup_hints : List ℕ → ℕ → ℕ → List ℕ → UserDb → Bool × UserDb
unfolding get_enc_phone_number_by_user_id
store_backup_hints pool now uid hints s =
    if ltb (count_hints hints) minimal_backup_hints || not (all_known pool hints)
    then (false, s)
    else elim (get_enc_phone_number_by_user_id uid s) [
      | none ↦ (false, s)
      | some phone ↦ (
        true,
        record s {
          phone_backup_hints =
              if is_some (first_row (has_hints phone) s.phone_backup_hints)
              then update_first (has_hints phone) (overwrite now hints) s.phone_backup_hints
              else record {
                enc_phone_number = phone;
                hints = hints;
                updated_at = now;
                previous_hints = [];
              }
                ∷ s.phone_backup_hints;
        },
      )
    ]

-- None for a number without hints.
unfoldable pub get_user_backup_hints_by_enc_phone : ℕ → UserDb → Option PhoneBackupHints
get_user_backup_hints_by_enc_phone phone s = first_row (has_hints phone) s.phone_backup_hints

-- Whatever is missing, the answer is the empty list.
unfoldable pub get_backup_hints : ℕ → UserDb → List ℕ
unfolding get_enc_phone_number_by_user_id get_user_backup_hints_by_enc_phone
get_backup_hints uid s = elim (get_enc_phone_number_by_user_id uid s) [
  | none ↦ []
  | some phone ↦ elim (get_user_backup_hints_by_enc_phone phone s) [ none ↦ [] | some r ↦ r.hints ]
]

first-overwritten :
    (phone now : ℕ) (hints : List ℕ) (rs : List PhoneBackupHints) (r : PhoneBackupHints)
    → first_row (has_hints phone) rs ≡ some r
    → first_row (has_hints phone) (update_first (has_hints phone) (overwrite now hints) rs)
      ≡ some (overwrite now hints r)
first-overwritten phone now hints [] r h = cc
first-overwritten phone now hints (x ∷ rs) r h = elim (Bool-cases (has_hints phone x)) [
  | inl e ↦ ground (arith, e, h)
  | inr e ↦ ground (arith, e, first-overwritten phone now hints rs r (rw e at h))
]

first-other :
    (phone other now : ℕ) (hints : List ℕ) (rs : List PhoneBackupHints)
    → (phone == other) ≡ false
    → first_row (has_hints other) (update_first (has_hints phone) (overwrite now hints) rs)
      ≡ first_row (has_hints other) rs
first-other phone other now hints [] h = refl
first-other phone other now hints (x ∷ rs) h = elim (Bool-cases (has_hints phone x)) [
  | inl e ↦ ground (arith, e, h)
  | inr e ↦ ground (arith, e, h, first-other phone other now hints rs h)
]

-- Hints of a user with a number that are at least two and known are stored. Everyone with that
-- number then reads them back, the number's earlier hints end its history, the hints of any other
-- number stay, and the users do not change.
pub store_backup_hints-get_backup_hints :
    (pool : List ℕ) (now uid uid' phone other : ℕ) (hints : List ℕ) (s : UserDb)
    → 2 ≤ count_hints hints
    → all_known pool hints ≡ true
    → get_enc_phone_number_by_user_id uid s ≡ some phone
    → get_enc_phone_number_by_user_id uid' s ≡ some phone
    → (phone == other) ≡ false
    → let s' = (store_backup_hints pool now uid hints s).1 in
      ((store_backup_hints pool now uid hints s).0 ≡ true)
      × (get_backup_hints uid' s' ≡ hints)
      × (get_user_backup_hints_by_enc_phone phone s'
          ≡ some (renewed phone now hints (get_user_backup_hints_by_enc_phone phone s)))
      × (get_user_backup_hints_by_enc_phone other s' ≡ get_user_backup_hints_by_enc_phone other s)
      × (s'.users ≡ s.users)
unfolding store_backup_hints get_backup_hints get_user_backup_hints_by_enc_phone
    get_enc_phone_number_by_user_id
store_backup_hints-get_backup_hints pool now uid uid' phone other hints s hn hk hp hp' h =
    elim (Option-cases (first_row (has_hints phone) s.phone_backup_hints)) [
      | inl e ↦ (
        ground (arith, hn, hk, hp),
        ground (arith, e, hn, hk, hp, hp'),
        ground (arith, e, hn, hk, hp),
        ground (arith, e, hn, hk, hp, h),
        ground (arith, e, hn, hk, hp),
      )
      | inr (r, e) ↦
          let f = first-overwritten phone now hints s.phone_backup_hints r e in
          (
            ground (arith, hn, hk, hp),
            ground (arith, e, hn, hk, hp, hp', f),
            ground (arith, e, hn, hk, hp, f),
            ground
                (arith, e, hn, hk, hp, h, first-other phone other now hints s.phone_backup_hints h),
            ground (arith, e, hn, hk, hp),
          )
    ]

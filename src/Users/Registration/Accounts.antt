-- ===== src/Users/Registration/Accounts.antt =====
-- The accounts that are created for users.
use kin_app_server.Common.{
  ℕ, ◌≡◌, ◌≤◌, ◌≢◌, ◌+◌, refl, Bool, true, false, some, List, [], ◌∷◌, ◌==◌, if◌then◌else◌, arith,
  one_if, Bool-cases, Option-cases, inl, inr,
}
use kin_app_server.Common.Table.{elem-delete, count_rows, count-delete_le, delete_rows}
use kin_app_server.Action.{after, call-cases}
use kin_app_server.Account.{Older}
use kin_app_server.Users.{elem, set_onboarded}
use kin_app_server.Users.Access.{AccessConfig, should_block_user_by_client_version}
use kin_app_server.Users.Registration.{
  Ledger, start_onboarding, finish_onboarding, is_onboarded, is_request,
}

-- A request comes, or a waiting one gets its answer; an answer that nobody waits for is none.
pub data Event : Type 0 where
  start : ℕ → ℕ → Event
  finish : ℕ → ℕ → Bool → Event

abbrev pub for_address : ℕ → ℕ × ℕ → Bool
for_address address (u, a) = a == address

module _ (c : AccessConfig) (older : Older) where
  unfoldable pub step : Event → Ledger → Ledger
  unfolding start_onboarding finish_onboarding
  step (start uid address) s = after (start_onboarding c older uid address) s
  step (finish uid address created) s =
      if count_rows (is_request uid address) s.pending == 0
      then s
      else after (finish_onboarding uid address created) s

  unfoldable pub run : List Event → Ledger → Ledger
  unfolding step
  run [] s = s
  run (e ∷ es) s = run es (step e s)

count-delete_this :
    (uid a : ℕ) (ps : List (ℕ × ℕ))
    → count_rows (for_address a) (delete_rows (is_request uid a) ps)
        + count_rows (is_request uid a) ps
      ≡ count_rows (for_address a) ps
count-delete_this uid a [] = refl
count-delete_this uid a ((u, x) ∷ ps) = ground (arith, count-delete_this uid a ps)

-- Locked, and waited for by at most one request; or not waited for.
abbrev IsGuarded : ℕ → Ledger → Type 0
IsGuarded a s = count_rows (for_address a) s.pending ≤ one_if (elem a s.locks)

start-IsGuarded :
    (c : AccessConfig) (older : Older) (a uid address : ℕ) (s : Ledger)
    → IsGuarded a s
    → IsGuarded a (after (start_onboarding c older uid address) s)
unfolding start_onboarding is_onboarded
start-IsGuarded c older a uid address s h = elim (Option-cases (is_onboarded uid s.db)) [
  | inl e ↦ ground (arith, e, h)
  | inr (b, e) ↦ ground (arith, e, h)
]

finish-IsGuarded :
    (a uid address : ℕ) (created : Bool) (s : Ledger)
    → count_rows (is_request uid address) s.pending ≢ 0
    → IsGuarded a s
    → IsGuarded a (after (finish_onboarding uid address created) s)
unfolding finish_onboarding
finish-IsGuarded a uid address created s hp h =
    elim (call-cases (set_onboarded uid true address s.db)) [
      | inl (x, d, e) ↦ elim (Bool-cases (address == a)) [
        | inl q ↦ ground (arith, e, q, hp, h, count-delete_this uid a s.pending)
        | inr q ↦ ground (
          arith,
          e,
          q,
          h,
          count-delete_le (for_address a) (is_request uid address) s.pending,
          elem-delete a address s.locks,
        )
      ]
      | inr (x, d, e) ↦ elim (Bool-cases (address == a)) [
        | inl q ↦ ground (arith, e, q, hp, h, count-delete_this uid a s.pending)
        | inr q ↦ ground (
          arith,
          e,
          q,
          h,
          count-delete_le (for_address a) (is_request uid address) s.pending,
          elem-delete a address s.locks,
        )
      ]
    ]

module _ (c : AccessConfig) (older : Older) where
  -- However requests and answers follow on each other, at most one request at a time waits for an
  -- account at an address, and then the lock of that address is taken, provided that it is so at
  -- the start.
  pub run-pending :
      (a : ℕ) (es : List Event) (s : Ledger)
      → count_rows (for_address a) s.pending ≤ one_if (elem a s.locks)
      → count_rows (for_address a) (run c older es s).pending
        ≤ one_if (elem a (run c older es s).locks)
  unfolding run step
  run-pending a [] s h = h
  run-pending a (start uid address ∷ es) s h =
      run-pending a es (step c older (start uid address) s)
        (start-IsGuarded c older a uid address s h)
  run-pending a (finish uid address created ∷ es) s h =
      run-pending a es (step c older (finish uid address created) s)
        (elim (Bool-cases (count_rows (is_request uid address) s.pending == 0)) [
          | inl e ↦ ground (arith, e, h)
          | inr e ↦ ground (arith, e, h, finish-IsGuarded a uid address created s)
        ])

  -- The lock is of the address, not of the user: two requests of a user without an account, for
  -- two addresses, that both come before the first is answered, create two accounts.
  pub run-accounts :
      (uid a b : ℕ) (s : Ledger)
      → is_onboarded uid s.db ≡ some false
      → should_block_user_by_client_version c older uid s.db ≡ false
      → elem a s.locks ≡ false
      → elem b s.locks ≡ false
      → (a == b) ≡ false
      → (run c older
          (start uid a ∷ start uid b ∷ finish uid a true ∷ finish uid b true ∷ [])
          s).accounts
        ≡ (uid, b) ∷ (uid, a) ∷ s.accounts
  unfolding run step start_onboarding finish_onboarding
  run-accounts uid a b s ho hb ha hl n = elim (call-cases (set_onboarded uid true a s.db)) [
    | inl (x, d, e) ↦ elim (call-cases (set_onboarded uid true b d)) [
      | inl (x', d', e') ↦ ground (arith, ho, hb, ha, hl, n, e, e')
      | inr (x', d', e') ↦ ground (arith, ho, hb, ha, hl, n, e, e')
    ]
    | inr (x, d, e) ↦ elim (call-cases (set_onboarded uid true b d)) [
      | inl (x', d', e') ↦ ground (arith, ho, hb, ha, hl, n, e, e')
      | inr (x', d', e') ↦ ground (arith, ho, hb, ha, hl, n, e, e')
    ]
  ]

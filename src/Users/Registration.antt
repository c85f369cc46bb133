-- ===== src/Users/Registration.antt =====
-- The endpoints that register a user's phone number and create a user's account:
-- `set_user_phone_number_endpoint` and `onboard_user` of kinappserver/views_public.py. The
-- creation of an account on the blockchain takes a while: what an `onboard_user` does before it
-- and after it are two steps, between which other requests come.
pub mod Limit
pub mod Accounts
mod Tests
use kin_app_server.Common.{
  ℕ, ◌+◌, String, Bool, true, false, not, ◌&&◌, ◌||◌, Option, none, some, List, [], ◌∷◌, ltb, ◌==◌,
  if◌then◌else◌,
}
use kin_app_server.Common.Table.{count_rows, first_row, delete_rows}
use kin_app_server.Action.{
  Action, Result, ok, err, uncaught, invalid_usage, internal_error, ◌>>=◌, ◌>>◌, pure, raise, gets,
  after,
}
use kin_app_server.Account.{Older}
use kin_app_server.Users.{UserDb, is_user, has_phone, elem, set_onboarded, deactivate_user}
use kin_app_server.Users.Phones.{set_user_phone_number}
use kin_app_server.Users.Access.{AccessConfig, has_prefix, should_block_user_by_client_version}
use kin_app_server.Users.Backup.{get_backup_hints}

unfoldable pub count_registrations_for_phone_number : (String → ℕ) → String → UserDb → ℕ
count_registrations_for_phone_number encrypt number s =
    count_rows (has_phone (encrypt number)) s.users

pub record Limits : Type 0 where
  pub serverside_client_validation_enabled : Bool
  pub blocked_phone_prefixes : List String
  pub max_num_registrations_per_number : ℕ

-- What comes with the request: whether the client is valid and the address in the ACL, and the
-- number that Firebase finds in the token.
pub record PhoneRequest : Type 0 where
  pub is_valid_client : Bool
  pub in_acl : Bool
  pub verified_number : Option String

pub data PhoneReply : Type 0 where
  bad_token forbidden : PhoneReply
  verified : List ℕ → PhoneReply

-- Outside of DEBUG.
unfoldable pub set_user_phone_number_endpoint :
    Limits → (String → ℕ) → ℕ → PhoneRequest → Action UserDb PhoneReply
unfolding count_registrations_for_phone_number
set_user_phone_number_endpoint c encrypt uid r s =
    if not r.is_valid_client && c.serverside_client_validation_enabled
    then (err (invalid_usage "bad-request"), s)
    else elim r.verified_number [
      | none ↦ (ok bad_token, s)
      | some phone ↦
          if has_prefix c.blocked_phone_prefixes phone
            || (not r.in_acl
                && ltb c.max_num_registrations_per_number
                    (count_registrations_for_phone_number encrypt phone s + 1))
          then (ok forbidden, s)
          else (set_user_phone_number encrypt uid phone
                >> gets (λ t. verified (get_backup_hints uid t)))
              s
    ]

unfoldable pub is_onboarded : ℕ → UserDb → Option Bool
is_onboarded uid s = elim (first_row (is_user uid) s.users) [
  | none ↦ none
  | some u ↦ some u.onboarded
]

-- `locks` holds the addresses whose lock is taken, `pending` the requests that wait for their
-- account, and `accounts` the accounts that were created, the last one first.
pub record Ledger : Type 0 where
  pub db : UserDb
  pub locks : List ℕ
  pub pending : List (ℕ × ℕ)
  pub accounts : List (ℕ × ℕ)

-- Up to the call of `create_account`. True where it is called.
unfoldable pub start_onboarding : AccessConfig → Older → ℕ → ℕ → Action Ledger Bool
unfolding is_onboarded
start_onboarding c older uid address s =
    if should_block_user_by_client_version c older uid s.db
    then (ok false, record s { db = after (deactivate_user uid) s.db })
    else elim (is_onboarded uid s.db) [
      | none ↦ (err (invalid_usage "no such user exists"), s)
      | some true ↦ (err (invalid_usage "user already has an account"), s)
      | some false ↦
          if elem address s.locks then (err (invalid_usage "already creating account"), s) else (
            ok true,
            record s { locks = address ∷ s.locks; pending = (uid, address) ∷ s.pending },
          )
    ]

abbrev pub is_request : ℕ → ℕ → ℕ × ℕ → Bool
is_request uid address (u, a) = (u == uid) && (a == address)

-- From the answer of `create_account` on, which is whether it gave a transaction.
unfoldable pub finish_onboarding : ℕ → ℕ → Bool → Action Ledger (Unit {0})
finish_onboarding uid address created s =
    let freed : Ledger = record s {
      locks = delete_rows (λ a. a == address) s.locks;
      pending = delete_rows (is_request uid address) s.pending;
    } in
    if created
    then (let (r, db) = set_onboarded uid true address s.db in
        let s' : Ledger = record freed { db = db; accounts = (uid, address) ∷ s.accounts } in
        elim r [
          | ok _ ↦ (ok tt, s')
          | err e ↦ (err (internal_error "unable to create account"), s')
        ])
    else (err (internal_error "unable to create account"), freed)

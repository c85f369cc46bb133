-- ===== src/Users/Registration/Tests.antt =====
-- A third user of a number that two may have, and a user who asks for two accounts.
use kin_app_server.Common.{
  ℕ, String, ◌≡◌, ◌≤◌, refl, arith, true, false, none, some, [], ◌∷◌, one_if,
}
use kin_app_server.Common.Int.{pos}
use kin_app_server.Common.Table.{count_rows}
use kin_app_server.Action.{ok, after}
use kin_app_server.Account.{android, Older}
use kin_app_server.Users.{User, UserDb, has_phone, elem}
use kin_app_server.Users.Phones.{set_user_phone_number}
use kin_app_server.Users.Access.{AccessConfig, should_block_user_by_client_version}
use kin_app_server.Users.Backup.{get_backup_hints}
use kin_app_server.Users.Registration.{
  Limits, PhoneRequest, forbidden, verified, set_user_phone_number_endpoint, Ledger, is_onboarded,
}
use kin_app_server.Users.Registration.Limit.{set_user_phone_number_endpoint-limit}
use kin_app_server.Users.Registration.Accounts.{
  start, finish, for_address, run, run-pending, run-accounts,
}

abbrev user : User
user = record {
  user_id = 1;
  os_type = android;
  device_model = "one";
  push_token = none;
  time_zone = pos 2;
  device_id = none;
  onboarded = false;
  public_address = none;
  enc_phone_number = some 555;
  deactivated = false;
  auth_token = some 11;
  package_id = none;
  screen = "";
  user_agent = none;
  truex_user_id = some 12;
}

abbrev tables : UserDb
tables = record {
  users =
      record user { user_id = 3; enc_phone_number = none }
      ∷ record user { user_id = 2; deactivated = true }
      ∷ user
      ∷ [];
  app_data = [];
  task_results = [];
  phone_backup_hints = [];
  tokens = record { rows = []; users = [] };
}

abbrev limits : ℕ → Limits
limits n = record {
  serverside_client_validation_enabled = false;
  blocked_phone_prefixes = [];
  max_num_registrations_per_number = n;
}

abbrev request : PhoneRequest
request = record { is_valid_client = true; in_acl = false; verified_number = some "+1" }

abbrev encrypt : String → ℕ
encrypt number = 555

limit_example :
    count_rows
      (has_phone 555)
      (after (set_user_phone_number_endpoint (limits 3) encrypt 3 request) tables).users
    ≤ 3
limit_example =
    set_user_phone_number_endpoint-limit (limits 3) encrypt 3 555 request tables refl (omega arith)

endpoint-at_limit :
    (set_user_phone_number_endpoint (limits 2) encrypt 3 request tables).0 ≡ ok forbidden
unfolding set_user_phone_number_endpoint
endpoint-at_limit = refl

endpoint-below :
    (set_user_phone_number_endpoint (limits 3) encrypt 3 request tables).0 ≡ ok (verified [])
unfolding set_user_phone_number_endpoint set_user_phone_number get_backup_hints
endpoint-below = refl

abbrev config : AccessConfig
config = record {
  auth_token_enforced = true;
  phone_verification_required = true;
  blocked_phone_prefixes = [];
  allowed_phone_prefixes = [];
  blocked_country_codes = [];
  block_onboarding_android_version = "1";
  block_onboarding_ios_version = "1";
}

abbrev never_older : Older
never_older a b = false

abbrev ledger : Ledger
ledger = record { db = tables; locks = []; pending = []; accounts = [] }

run-pending_example :
    count_rows (for_address 8) (run config never_older (start 1 8 ∷ start 2 8 ∷ []) ledger).pending
    ≤ one_if (elem 8 (run config never_older (start 1 8 ∷ start 2 8 ∷ []) ledger).locks)
run-pending_example =
    run-pending config never_older 8 (start 1 8 ∷ start 2 8 ∷ []) ledger (omega arith)

is_new : is_onboarded 1 tables ≡ some false
unfolding is_onboarded
is_new = refl

is_current : should_block_user_by_client_version config never_older 1 tables ≡ false
unfolding should_block_user_by_client_version
is_current = refl

run-accounts_example :
    (run config never_older
      (start 1 8 ∷ start 1 9 ∷ finish 1 8 true ∷ finish 1 9 true ∷ [])
      ledger).accounts
    ≡ (1, 9) ∷ (1, 8) ∷ []
run-accounts_example = run-accounts config never_older 1 8 9 ledger is_new is_current refl refl refl

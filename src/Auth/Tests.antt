-- ===== src/Auth/Tests.antt =====
-- One user with a fresh row.
use kin_app_server.Common.{ℕ, ◌≡◌, ◌≢◌, refl, true, false, none, some, [], ◌∷◌}
use kin_app_server.Common.Table.{first_row}
use kin_app_server.Action.{ok, after}
use kin_app_server.Auth.{
  PushAuthToken, Tokens, AuthConfig, of_user, ack_auth_token, should_send_auth_token,
  is_user_authenticated, validate_auth_token, scan_for_deauthed_users,
}
use kin_app_server.Auth.Scan.{scan_for_deauthed_users-idle}
use kin_app_server.Auth.Ack.{HasRow, sent_and_acked, ack_auth_token_lem, push_cycle}

abbrev token : PushAuthToken
token = record {
  user_id = 7;
  authenticated = false;
  send_date = none;
  ack_date = none;
  auth_token = 41;
}

abbrev tokens : Tokens
tokens = record { rows = token ∷ []; users = 7 ∷ [] }

abbrev config : AuthConfig
config = record { auth_token_enabled = true; auth_token_send_interval_days = 1 }

ack_auth_token_example :
    ((ack_auth_token 7 0 41 5 tokens).0 ≡ ok true)
    × HasRow 7 0
        (record token { authenticated = true; ack_date = some 5 })
        (after (ack_auth_token 7 0 41 5) tokens)
    × ((other : ℕ)
        → other ≢ 7
        → first_row (of_user other) (after (ack_auth_token 7 0 41 5) tokens).rows
          ≡ first_row (of_user other) tokens.rows)
ack_auth_token_example = ack_auth_token_lem 7 0 41 5 token tokens refl

push_cycle_example :
    let u = sent_and_acked 7 0 1000000 2000000 token tokens in
    ((is_user_authenticated 7 0 u).0 ≡ ok true)
    × ((should_send_auth_token config 7 0 42 200000000000 u).0 ≡ ok true)
    × ((validate_auth_token 7 0 41 (after (should_send_auth_token config 7 0 42 200000000000) u)).0
        ≡ ok false)
push_cycle_example = push_cycle 7 0 config 42 1000000 2000000 200000000000 token tokens refl refl

-- Acked long ago and sent seven seconds ago: such a user should lose the authentication.
abbrev lapsed : Tokens
lapsed = record {
  rows = record token { authenticated = true; send_date = some 93000000; ack_date = some 1 } ∷ [];
  users = 7 ∷ [];
}

scan_for_deauthed_users_example : scan_for_deauthed_users 100000000 lapsed ≡ (ok true, lapsed)
scan_for_deauthed_users_example = scan_for_deauthed_users-idle 100000000 lapsed

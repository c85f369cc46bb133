-- ===== src/Auth.antt =====
-- kinappserver/models/push_auth_token.py: the token that a client proves its push channel with.
-- A token is an opaque number; `uuid` arguments stand for what `uuid4()` returns. Times are in
-- microseconds.
pub mod Scan
pub mod Ack
mod Tests
use kin_app_server.Common.{
  ℕ, ◌+◌, ◌*◌, ◌-◌, Bool, true, false, not, ◌&&◌, ◌||◌, Option, none, some, List, [], ◌∷◌, ltb, leb,
  ◌==◌, if◌then◌else◌,
}
use kin_app_server.Common.Table.{count_rows, first_row, update_first, update_rows}
use kin_app_server.Action.{
  Action, Result, ok, err, uncaught, ◌>>=◌, ◌>>◌, pure, raise, gets, modify, try_except,
}

pub record PushAuthToken : Type 0 where
  pub user_id : ℕ
  pub authenticated : Bool
  pub send_date : Option ℕ
  pub ack_date : Option ℕ
  pub auth_token : ℕ

-- The table, and the users that its foreign key may name.
pub record Tokens : Type 0 where
  pub rows : List PushAuthToken
  pub users : List ℕ

pub record AuthConfig : Type 0 where
  pub auth_token_enabled : Bool
  pub auth_token_send_interval_days : ℕ

abbrev pub second : ℕ
second = 1000000

abbrev pub of_user : ℕ → PushAuthToken → Bool
of_user user_id t = t.user_id == user_id

-- Writes the user's row back as `f` leaves it.
abbrev pub save : ℕ → (PushAuthToken → PushAuthToken) → Tokens → Tokens
save user_id f s = record s { rows = update_first (of_user user_id) f s.rows }

abbrev pub new_token : ℕ → ℕ → PushAuthToken
new_token user_id uuid = record {
  user_id = user_id;
  authenticated = false;
  send_date = none;
  ack_date = none;
  auth_token = uuid;
}

-- None where the insert fails: an unknown user, or a token that another row has.
unfoldable pub create_token : ℕ → ℕ → Action Tokens (Option PushAuthToken)
create_token user_id uuid s =
    if (count_rows (λ u. u == user_id) s.users == 0)
      || ltb 0 (count_rows (λ t. t.auth_token == uuid) s.rows)
    then (ok none, s)
    else (ok (some (new_token user_id uuid)), record s { rows = new_token user_id uuid ∷ s.rows })

-- `get_token_obj_by_user_id`, which makes a missing row
unfoldable pub get_token_obj_by_user_id : ℕ → ℕ → Action Tokens (Option PushAuthToken)
unfolding create_token
get_token_obj_by_user_id user_id uuid s = elim (first_row (of_user user_id) s.rows) [
  | none ↦ create_token user_id uuid s
  | some t ↦ (ok (some t), s)
]

-- Reading or writing a field of the row: of None that raises.
unfoldable pub token_row : ℕ → ℕ → Action Tokens PushAuthToken
unfolding get_token_obj_by_user_id
token_row user_id uuid = do
  t ← get_token_obj_by_user_id user_id uuid
  elim t [ none ↦ raise uncaught | some r ↦ pure r ]

unfoldable pub refresh_token : ℕ → ℕ → ℕ → Action Tokens (Unit {0})
unfolding token_row
refresh_token user_id uuid fresh = do
  token_row user_id uuid
  modify (save user_id (λ t. record t { auth_token = fresh }))

unfoldable pub set_send_date : ℕ → ℕ → ℕ → Action Tokens Bool
unfolding token_row
set_send_date user_id uuid now = do
  token_row user_id uuid
  modify (save user_id (λ t. record t { send_date = some now }))
  pure true

unfoldable pub set_ack_date : ℕ → ℕ → ℕ → Action Tokens (Unit {0})
unfolding token_row
set_ack_date user_id uuid now = do
  token_row user_id uuid
  modify (save user_id (λ t. record t { ack_date = some now; authenticated = true }))

-- A wrong token falls off the end: None, which the endpoint reads as False. What raises is
-- answered False too, except that the handler itself reads the variable that was not set.
unfoldable pub ack_auth_token : ℕ → ℕ → ℕ → ℕ → Action Tokens Bool
unfolding token_row set_ack_date
ack_auth_token user_id uuid token now = do
  t ← token_row user_id uuid
  if t.auth_token == token then set_ack_date user_id uuid now >> pure true else pure false

unfoldable pub is_user_authenticated : ℕ → ℕ → Action Tokens Bool
unfolding token_row
is_user_authenticated user_id uuid = do t ← token_row user_id uuid; pure t.authenticated

unfoldable pub validate_auth_token : ℕ → ℕ → ℕ → Action Tokens Bool
unfolding token_row
validate_auth_token user_id uuid token = do t ← token_row user_id uuid; pure (t.auth_token == token)

-- more than the interval since the token was sent
abbrev pub is_old : AuthConfig → ℕ → ℕ → Bool
is_old c now sent = ltb (sent + 60 * 60 * 24 * c.auth_token_send_interval_days * second) now

unfoldable pub should_send_auth_token : AuthConfig → ℕ → ℕ → ℕ → ℕ → Action Tokens Bool
unfolding token_row refresh_token
should_send_auth_token c user_id uuid fresh now =
    if not c.auth_token_enabled then pure false else do
      t ← token_row user_id uuid
      elim t.send_date [
        | none ↦ pure true
        | some sent ↦
            if not t.authenticated
            then pure true
            else if is_old c now sent
            then refresh_token user_id uuid fresh >> pure true
            else pure false
      ]

-- `5 < sent_secs_ago < 10 and ack_secs_ago > 10`, over times in microseconds; a token whose dates
-- are null counts as sent now.
abbrev pub is_lapsed : ℕ → ℕ → ℕ → Bool
is_lapsed now sent ack =
    ltb (sent + 5 * second) now && ltb now (sent + 10 * second) && ltb (ack + 10 * second) now

abbrev pub date_or : ℕ → Option ℕ → ℕ
date_or now none = now
date_or now (some d) = d

-- The users that the scan picks. It reads `send_date` for both dates.
unfoldable pub lapsed_users : ℕ → List PushAuthToken → List ℕ
lapsed_users now [] = []
lapsed_users now (t ∷ ts) =
    let rest = lapsed_users now ts in
    let send_date = date_or now t.send_date in
    let ack_date = date_or now t.send_date in
    if t.authenticated && is_lapsed now send_date ack_date then t.user_id ∷ rest else rest

abbrev pub among : List ℕ → PushAuthToken → Bool
among [] t = false
among (u ∷ us) t = (t.user_id == u) || among us t

unfoldable pub deauth_users : List ℕ → Tokens → Tokens
deauth_users user_ids s = record s {
  rows = update_rows (among user_ids) (λ t. record t { authenticated = false }) s.rows;
}

unfoldable pub scan_for_deauthed_users : ℕ → Action Tokens Bool
unfolding lapsed_users deauth_users
scan_for_deauthed_users now s = (ok true, deauth_users (lapsed_users now s.rows) s)

-- ===== src/Auth/Ack.antt =====
-- Sending a token, acking it, and sending the next one.
use kin_app_server.Common.{
  ℕ, ◌≡◌, ◌≢◌, refl, true, some, arith, ◌==◌, inl, inr, Bool-cases, if◌then◌else◌,
}
use kin_app_server.Common.Table.{
  first_row, first_row-update_self, first_row-update_other, first_row-holds,
}
use kin_app_server.Action.{ok, after}
use kin_app_server.Auth.{
  PushAuthToken, Tokens, AuthConfig, of_user, save, is_old, token_row, set_send_date,
  ack_auth_token, set_ack_date, refresh_token, should_send_auth_token, is_user_authenticated,
  validate_auth_token,
}

module _ (user_id uuid : ℕ) where
  -- The user's row is the one that is found.
  abbrev pub HasRow : PushAuthToken → Tokens → Type 0
  HasRow t s = first_row (of_user user_id) s.rows ≡ some t

  token_row-found :
      (t : PushAuthToken) (s : Tokens) → HasRow t s → token_row user_id uuid s ≡ (ok t, s)
  unfolding token_row
  token_row-found t s row = ground (arith, row)

  -- Writing the row back keeps it the user's row.
  HasRow-save :
      (f : PushAuthToken → PushAuthToken) (t : PushAuthToken) (s : Tokens)
      → (f t).user_id ≡ t.user_id
      → HasRow t s
      → HasRow (f t) (save user_id f s)
  HasRow-save f t s same row =
      first_row-update_self (of_user user_id) f s.rows t
        (ground (arith, same, first_row-holds (of_user user_id) s.rows t row)) row

  -- An ack of the user's own token succeeds, marks the user as authenticated at that time and
  -- changes no other field of the row; any other token is answered False and changes nothing. No
  -- other user's row changes in either case.
  pub ack_auth_token_lem :
      (token now : ℕ) (t : PushAuthToken) (s : Tokens)
      → HasRow t s
      → ((ack_auth_token user_id uuid token now s).0 ≡ ok (t.auth_token == token))
        × HasRow
            (if t.auth_token == token
              then record t { authenticated = true; ack_date = some now }
              else t)
            (after (ack_auth_token user_id uuid token now) s)
        × ((other : ℕ)
            → other ≢ user_id
            → first_row (of_user other) (after (ack_auth_token user_id uuid token now) s).rows
              ≡ first_row (of_user other) s.rows)
  unfolding ack_auth_token set_ack_date
  ack_auth_token_lem token now t s row =
      let found = token_row-found t s row in
      let acked : PushAuthToken → PushAuthToken =
        λ r. record r { ack_date = some now; authenticated = true } in
      let saved = HasRow-save acked t s refl row in
      elim (Bool-cases (t.auth_token == token)) [
        | inr wrong ↦ (
          ground (arith, found, wrong),
          ground (arith, found, wrong, row),
          λ other ne. ground (arith, found, wrong),
        )
        | inl right ↦ (
          ground (arith, found, right),
          ground (arith, found, right, saved),
          λ other ne. ground (
            arith,
            found,
            right,
            first_row-update_other (of_user other) (of_user user_id) acked s.rows
                (λ a own. (ground (arith, own), ground (arith, own))),
          ),
        )
      ]

  send_row :
      (now : ℕ) (t : PushAuthToken) (s : Tokens)
      → HasRow t s
      → HasRow (record t { send_date = some now }) (after (set_send_date user_id uuid now) s)
  unfolding set_send_date
  send_row now t s row = ground (
    arith,
    token_row-found t s row,
    HasRow-save (λ r. record r { send_date = some now }) t s refl row,
  )

  due : AuthConfig → ℕ → ℕ → ℕ → PushAuthToken → PushAuthToken
  due c fresh now sent t = if is_old c now sent then record t { auth_token = fresh } else t

  due_row :
      (c : AuthConfig) (fresh now sent : ℕ) (t : PushAuthToken) (s : Tokens)
      → c.auth_token_enabled ≡ true
      → t.send_date ≡ some sent
      → t.authenticated ≡ true
      → HasRow t s
      → ((should_send_auth_token c user_id uuid fresh now s).0 ≡ ok (is_old c now sent))
        × HasRow
            (due c fresh now sent t)
            (after (should_send_auth_token c user_id uuid fresh now) s)
  unfolding should_send_auth_token refresh_token due
  due_row c fresh now sent t s on sent_at auth row =
      let found = token_row-found t s row in
      let saved = HasRow-save (λ r. record r { auth_token = fresh }) t s refl row in
      elim (Bool-cases (is_old c now sent)) [
        | inr e ↦ (ground (arith, found, e), ground (arith, found, e, row))
        | inl e ↦ (ground (arith, found, e), ground (arith, found, e, saved))
      ]

  -- The state after the user's token is sent at one time and acked at another.
  abbrev pub sent_and_acked : ℕ → ℕ → PushAuthToken → Tokens → Tokens
  sent_and_acked sent acked t s =
      after (ack_auth_token user_id uuid t.auth_token acked)
        (after (set_send_date user_id uuid sent) s)

  -- With auth tokens enabled, a user whose token was sent and then acked is authenticated and is
  -- not sent another one before the interval since the sending has passed. After that a push is
  -- due, and the token is replaced: the old one validates no longer, unless the new one is equal.
  pub push_cycle :
      (c : AuthConfig) (fresh sent acked now : ℕ) (t : PushAuthToken) (s : Tokens)
      → c.auth_token_enabled ≡ true
      → HasRow t s
      → let u = sent_and_acked sent acked t s in
        ((is_user_authenticated user_id uuid u).0 ≡ ok true)
        × ((should_send_auth_token c user_id uuid fresh now u).0 ≡ ok (is_old c now sent))
        × ((validate_auth_token user_id uuid t.auth_token
              (after (should_send_auth_token c user_id uuid fresh now) u)).0
            ≡ ok (if is_old c now sent then fresh == t.auth_token else true))
  unfolding is_user_authenticated validate_auth_token due
  push_cycle c fresh sent acked now t s on row =
      let sent_t : PushAuthToken = record t { send_date = some sent } in
      let s1 : Tokens = after (set_send_date user_id uuid sent) s in
      let (_, acked_row, _) =
        ack_auth_token_lem t.auth_token acked sent_t s1 (send_row sent t s row) in
      let final : PushAuthToken = record sent_t { authenticated = true; ack_date = some acked } in
      let u : Tokens = sent_and_acked sent acked t s in
      let own : HasRow final u = ground (arith, acked_row) in
      let (push, next_row) = due_row c fresh now sent final u on refl refl own in
      let v : Tokens = after (should_send_auth_token c user_id uuid fresh now) u in
      (
        ground (arith, token_row-found final u own),
        push,
        ground (arith, token_row-found (due c fresh now sent final) v next_row),
      )

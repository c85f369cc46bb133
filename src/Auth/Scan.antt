-- ===== src/Auth/Scan.antt =====
-- The cron job that should de-authenticate the users that did not ack in time.
use kin_app_server.Common.{ℕ, ◌≡◌, refl, ap, true, false, List, [], ◌∷◌, arith}
use kin_app_server.Common.Table.{update_rows}
use kin_app_server.Action.{ok}
use kin_app_server.Auth.{
  PushAuthToken, Tokens, lapsed_users, among, deauth_users, scan_for_deauthed_users,
}

none-lapsed : (now : ℕ) (rows : List PushAuthToken) → lapsed_users now rows ≡ []
unfolding lapsed_users
none-lapsed now [] = refl
none-lapsed now (t ∷ ts) = ground (arith, none-lapsed now ts)

update_none :
    (rows : List PushAuthToken)
    → update_rows (among []) (λ t. record t { authenticated = false }) rows ≡ rows
update_none [] = refl
update_none (t ∷ ts) = ap (λ l. t ∷ l) (update_none ts)

-- The scan returns True and changes nothing, whatever the table holds and whenever it runs: no
-- user is ever de-authenticated by it.
pub scan_for_deauthed_users-idle :
    (now : ℕ) (s : Tokens) → scan_for_deauthed_users now s ≡ (ok true, s)
unfolding scan_for_deauthed_users deauth_users
scan_for_deauthed_users-idle now s = ground (arith, none-lapsed now s.rows, update_none s.rows)

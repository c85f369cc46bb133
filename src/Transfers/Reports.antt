-- ===== src/Transfers/Reports.antt =====
-- What becomes of a reported transfer.
use kin_app_server.Common.{
  ℕ, ◌≡◌, true, false, ◌&&◌, none, some, ◌∷◌, ◌==◌, if◌then◌else◌, arith, Option-cases, inl, inr,
  is_some,
}
use kin_app_server.Common.Table.{count_rows}
use kin_app_server.Action.{ok, err, uncaught, invalid_usage}
use kin_app_server.Users.Phones.{get_userid_by_address}
use kin_app_server.Transfers.{
  Peers, Report, has_hash, get_address_by_userid, create_p2p_tx, row_of, add_p2p_tx,
  report_p2p_tx_api,
}

-- Where the receiver or the sender's address is not known, a report ends with an exception other
-- than the two of the server, and nothing changes.
pub report_p2p_tx_api-unknown :
    (r : Report) (s : Peers)
    → is_some (get_userid_by_address r.destination_address s.db)
        && is_some (get_address_by_userid r.sender_id s.db)
      ≡ false
    → report_p2p_tx_api true r s ≡ (err uncaught, s)
unfolding report_p2p_tx_api add_p2p_tx
report_p2p_tx_api-unknown r s h =
    elim (Option-cases (get_userid_by_address r.destination_address s.db)) [
      | inl e ↦ ground (arith, e)
      | inr (receiver, e) ↦ elim (Option-cases (get_address_by_userid r.sender_id s.db)) [
        | inl e' ↦ ground (arith, e, e')
        | inr (a, e') ↦ ground (arith, e, e', h)
      ]
    ]

-- Where both are known and no stored transfer has the hash, the report is answered without an error,
-- the transfer is stored and the receiver is told. A hash that is stored already ends with the
-- invalid usage, and nothing changes.
pub report_p2p_tx_api-known :
    (r : Report) (receiver address : ℕ) (s : Peers)
    → get_userid_by_address r.destination_address s.db ≡ some receiver
    → get_address_by_userid r.sender_id s.db ≡ some address
    → report_p2p_tx_api true r s ≡ (
        if count_rows (has_hash r.tx_hash) s.p2p == 0
        then (
          ok tt,
          record s {
            p2p = row_of r address (some receiver) none ∷ s.p2p;
            told = receiver ∷ s.told;
          },
        )
        else (err (invalid_usage "failed to add p2ptx"), s))
unfolding report_p2p_tx_api add_p2p_tx create_p2p_tx
report_p2p_tx_api-known r receiver address s h k = ground (arith, h, k)

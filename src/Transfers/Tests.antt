-- ===== src/Transfers/Tests.antt =====
-- Two users, one of whom sends kin to the other.
use kin_app_server.Common.{
  ℕ, ◌&&◌, is_some, ◌≤◌, ◌≡◌, ◌⊎◌, ◌++◌, refl, true, false, none, some, List, [], ◌∷◌,
}
use kin_app_server.Common.Int.{pos}
use kin_app_server.Common.Table.{count_rows}
use kin_app_server.Action.{ok, err, uncaught, after}
use kin_app_server.Account.{android}
use kin_app_server.Users.{User}
use kin_app_server.Users.Phones.{get_userid_by_address}
use kin_app_server.Shop.{Transaction, for_task}
use kin_app_server.Shop.Transactions.{list_user_transactions}
use kin_app_server.Transfers.{
  Peers, Report, Entry, row_of, get_address_by_userid, report_p2p_tx_api, server_entries,
  p2p_entries, list_p2p_transactions_for_user_id, get_transactions_api, max_txs_per_user,
}
use kin_app_server.Transfers.Reports.{report_p2p_tx_api-unknown, report_p2p_tx_api-known}
use kin_app_server.Transfers.History.{NewestFirst, get_transactions_api_lem}

abbrev user : User
user = record {
  user_id = 1;
  os_type = android;
  device_model = "one";
  push_token = none;
  time_zone = pos 2;
  device_id = none;
  onboarded = true;
  public_address = some 100;
  enc_phone_number = none;
  deactivated = false;
  auth_token = some 11;
  package_id = none;
  screen = "";
  user_agent = none;
  truex_user_id = some 12;
}

abbrev peers : Peers
peers = record {
  db = record {
    users = user ∷ record user { user_id = 2; public_address = some 200 } ∷ [];
    app_data = [];
    task_results = [];
    phone_backup_hints = [];
    tokens = record { rows = []; users = [] };
  };
  apps = [];
  p2p = [];
  told = [];
}

abbrev report : Report
report = record {
  tx_hash = 9;
  sender_id = 1;
  destination_address = 200;
  amount = pos 50;
  now = 7000000;
}

is_known : get_userid_by_address 200 peers.db ≡ some 2
unfolding get_userid_by_address
is_known = refl

has_address : get_address_by_userid 1 peers.db ≡ some 100
unfolding get_address_by_userid
has_address = refl

known_example :
    report_p2p_tx_api true report peers
    ≡ (ok tt, record peers { p2p = row_of report 100 (some 2) none ∷ []; told = 2 ∷ [] })
known_example = report_p2p_tx_api-known report 2 100 peers is_known has_address

is_unknown :
    (is_some (get_userid_by_address 300 peers.db) && is_some (get_address_by_userid 1 peers.db))
    ≡ false
unfolding get_userid_by_address get_address_by_userid
is_unknown = refl

unknown_example :
    report_p2p_tx_api true (record report { destination_address = 300 }) peers
    ≡ (err uncaught, peers)
unknown_example =
    report_p2p_tx_api-unknown (record report { destination_address = 300 }) peers is_unknown

abbrev sent : Peers
sent = after (report_p2p_tx_api true report) peers

abbrev txs : List Transaction
txs =
    record {
      tx_hash = 4;
      user_id = 1;
      amount = pos 30;
      incoming_tx = false;
      remote_address = 100;
      tx_info = for_task 1 none;
      update_at = 8000000;
    }
    ∷ []

abbrev earned : Entry
earned = record { is_p2p = false; tx_hash = 4; amount = pos 30; client_received = true; date = 8 }

abbrev given : Entry
given = record { is_p2p = true; tx_hash = 9; amount = pos 50; client_received = false; date = 7 }

earned_lem :
    server_entries (list_user_transactions 1 (some max_txs_per_user) txs) ≡ some (earned ∷ [])
unfolding server_entries list_user_transactions
earned_lem = refl

given_lem :
    p2p_entries 1 sent.apps (list_p2p_transactions_for_user_id 1 (some max_txs_per_user) sent.p2p)
    ≡ some (given ∷ [])
unfolding p2p_entries list_p2p_transactions_for_user_id report_p2p_tx_api get_userid_by_address
given_lem = refl

history : get_transactions_api 1 txs sent ≡ some (earned ∷ given ∷ [])
unfolding get_transactions_api list_user_transactions report_p2p_tx_api get_userid_by_address
history = refl

history_example :
    (rest : List Entry) × NewestFirst ((earned ∷ given ∷ []) ++ rest)
    × (count_rows (λ e. e.is_p2p) ((earned ∷ given ∷ []) ++ rest) ≡ 1)
    × (2 ≤ 100)
    × ((rest ≡ []) ⊎ (◌≡◌ {A = ℕ} 2 100))
history_example =
    get_transactions_api_lem 1 txs sent (earned ∷ []) (given ∷ []) (earned ∷ given ∷ [])
      (λ e. e.is_p2p) earned_lem given_lem history

-- ===== src/Shop/Transactions/Tests.antt =====
-- Two transactions, of which one is asked for.
use kin_app_server.Common.{◌≡◌, refl, ◌==◌, true, some, List, [], ◌∷◌, length}
use kin_app_server.Common.Int.{pos}
use kin_app_server.Common.Table.{select_rows}
use kin_app_server.Shop.{Transaction, for_offer}
use kin_app_server.Shop.Transactions.{newest_first, list_user_transactions}
use kin_app_server.Shop.Transactions.Listing.{NewestFirst, list_user_transactions_lem}

abbrev paid : Transaction
paid = record {
  tx_hash = 1;
  user_id = 7;
  amount = pos 4;
  incoming_tx = true;
  remote_address = 100;
  tx_info = for_offer 3 "order";
  update_at = 10;
}

abbrev txs : List Transaction
txs = paid ∷ record paid { tx_hash = 2; update_at = 20 } ∷ []

list_user_transactions_example :
    NewestFirst (list_user_transactions 7 (some 1) txs)
    × (list_user_transactions 7 (some 1) txs ≡ newest_first (select_rows (λ t. t.user_id == 7) txs))
list_user_transactions_example = list_user_transactions_lem 7 (some 1) txs

-- Both are listed.
lists_both : length (list_user_transactions 7 (some 1) txs) ≡ 2
unfolding list_user_transactions
lists_both = refl

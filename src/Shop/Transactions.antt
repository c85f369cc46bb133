-- ===== src/Shop/Transactions.antt =====
-- The listing of a user's transactions: `list_user_transactions` of
-- kinappserver/models/transaction.py.
pub mod Listing
mod Tests
use kin_app_server.Common.{
  ℕ, Bool, true, false, not, ◌&&◌, Option, none, some, List, [], ◌∷◌, length, take, ltb, ◌==◌,
  if◌then◌else◌,
}
use kin_app_server.Common.Table.{select_rows}
use kin_app_server.Shop.{Transaction}

unfoldable pub insert_newest : Transaction → List Transaction → List Transaction
insert_newest t [] = t ∷ []
insert_newest t (u ∷ us) =
    let rest = insert_newest t us in if ltb t.update_at u.update_at then u ∷ rest else t ∷ u ∷ us

-- `order_by(desc(Transaction.update_at))`
unfoldable pub newest_first : List Transaction → List Transaction
unfolding insert_newest
newest_first [] = []
newest_first (t ∷ ts) = insert_newest t (newest_first ts)

-- `txs[:max_txs] if max_txs and max_txs > len(txs) else txs`
unfoldable pub trim : Option ℕ → List Transaction → List Transaction
trim none txs = txs
trim (some max_txs) txs =
    if not (max_txs == 0) && ltb (length txs) max_txs then take max_txs txs else txs

unfoldable pub list_user_transactions : ℕ → Option ℕ → List Transaction → List Transaction
unfolding newest_first trim
list_user_transactions user_id max_txs txs =
    trim max_txs (newest_first (select_rows (λ t. t.user_id == user_id) txs))

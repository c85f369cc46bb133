-- ===== src/Shop/Sweep.antt =====
-- `release_unclaimed_goods` of kinappserver/models/good.py: the cron job that frees the goods of
-- expired orders.
pub mod Loop
pub mod Stuck
mod Tests
use kin_app_server.Common.{
  ℕ, ◌+◌, String, Bool, true, false, ◌&&◌, ◌||◌, Option, none, some, List, [], ◌∷◌, ◌==◌,
  if◌then◌else◌, is_none, is_some,
}
use kin_app_server.Common.Table.{count_rows, first_row, select_rows}
use kin_app_server.Action.{Action, Result, ok, err, after}
use kin_app_server.Shop.{Good, Order, Shop, ShopConfig}
use kin_app_server.Shop.Goods.{clear, release_good}
use kin_app_server.Shop.Orders.{has_order_id, is_stale, has_expired}

-- Good.tx_hash == None and Good.order_id != None
abbrev pub is_unclaimed : Good → Bool
is_unclaimed g = is_none g.tx_hash && is_some g.order_id

-- The loop over the goods that the query found. It counts an expired order whatever
-- `release_good` answers, and does not catch what `has_expired` raises.
unfoldable pub sweep : ShopConfig → ℕ → List Good → ℕ → Action Shop ℕ
sweep c now [] released s = (ok released, s)
sweep c now (g ∷ gs) released s = elim g.order_id [
  | none ↦ sweep c now gs released s
  | some o ↦ elim (has_expired c now o s).0 [
    | err e ↦ (err e, s)
    | ok expired ↦
        let next =
          sweep c now gs (if expired then released + 1 else released)
            (if expired then after (release_good o) s else s) in
        next
  ]
]

unfoldable pub release_unclaimed_goods : ShopConfig → ℕ → Action Shop ℕ
unfolding sweep
release_unclaimed_goods c now s = sweep c now (select_rows is_unclaimed s.goods) 0 s

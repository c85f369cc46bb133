-- ===== src/Shop/Market/Safety.antt =====
-- Whatever is called, in whatever order: no promise of a good is broken, and no sale is undone.
use kin_app_server.Common.{ℕ, ◌≤◌, String, arith}
use kin_app_server.Common.Table.{count_rows}
use kin_app_server.Shop.{Shop, ShopConfig}
use kin_app_server.Shop.Market.{
  Step, Reach, book, redeem, sweep, restock, time_out, here, next, IsSound, IsSafe,
}
use kin_app_server.Shop.Market.Book.{create_order-IsSafe}
use kin_app_server.Shop.Market.Redeem.{process_order-IsSafe}
use kin_app_server.Shop.Market.Sweep.{
  IsSafe-trans, release_unclaimed_goods-IsSafe, create_good-IsSafe,
}
use kin_app_server.Shop.Market.Promises.{is_held, promises, last_sweep, Reach-Keeps}

module _ (c : ShopConfig) where
  Step-IsSafe : {s t : Shop} → Step c s t → IsSound s → IsSafe s t
  Step-IsSafe (book now order_id user_id offer_id s) h =
      create_order-IsSafe c now order_id user_id offer_id s h
  Step-IsSafe (redeem now sdk user_id tx_hash s) h =
      process_order-IsSafe c now user_id tx_hash sdk s h
  Step-IsSafe (sweep now s) h = release_unclaimed_goods-IsSafe c now s h
  Step-IsSafe (restock offer_id good_type value extra_info now s) h =
      create_good-IsSafe offer_id good_type value extra_info now s h
  Step-IsSafe (time_out user_id s) h = record {
    sound = record {
      held_once = h.held_once;
      listed_once = h.listed_once;
      sales_settled = h.sales_settled;
    };
    sales_kept = λ sid o k. omega arith;
  }

  Reach-sound : (s t : Shop) → Reach c s t → IsSound s → IsSafe s t
  Reach-sound s _ here h = record { sound = h; sales_kept = λ sid o k. omega arith }
  Reach-sound s _ (next {t = t} {u = u} r step) h =
      let before = Reach-sound s t r h in IsSafe-trans s t u before (Step-IsSafe step before.sound)

  -- From a state in which no order id is on two goods or two orders, and in which each sold good
  -- names an order that is gone, every sequence of bookings, redemptions, sweeps, new goods and
  -- cache timeouts, each a whole call, at any times, with any answers of the blockchain, and whether
  -- the calls return or raise, leads to a state for which the same holds; each good that was sold
  -- under an order for a payment still is; and each good that was held under an order id is held
  -- under it still, unless an order of that id in the first state is expired at the time of the
  -- last sweep: no other booking has taken it.
  pub Reach-IsSafe :
      (s t : Shop) (r : Reach c s t)
      → IsSound s
      → IsSafe s t
        × ((sid : ℕ) (o : String)
            → promises c (last_sweep r) sid o s ≤ count_rows (is_held sid o) t.goods)
  Reach-IsSafe s t r h = (
    Reach-sound s t r h,
    λ sid o. ground (arith, Reach-Keeps c (last_sweep r) sid o s t r (omega arith)),
  )

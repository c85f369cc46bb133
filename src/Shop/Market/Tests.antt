-- ===== src/Shop/Market/Tests.antt =====
-- From a shop with one sold and one free good: a booking, then a sweep, or a payment.
use kin_app_server.Common.{
  ℕ, ◌≤◌, ◌≡◌, ◌≢◌, String, refl, true, Option, none, some, [], ◌∷◌, arith, eq_iff,
}
use kin_app_server.Common.Table.{count_rows}
use kin_app_server.Common.Int.{pos}
use kin_app_server.Action.{ok, after}
use kin_app_server.Shop.{Good, Offer, Shop, ShopConfig}
use kin_app_server.Shop.Goods.{allocate_good, create_good, finalize_good}
use kin_app_server.Shop.Offers.{get_cost_and_address, set_locked_offers}
use kin_app_server.Shop.Orders.{
  create_order, create_tx, delete_order, ChainTx, process_order, redeemed,
}
use kin_app_server.Shop.Sweep.{release_unclaimed_goods}
use kin_app_server.Shop.Market.{book, restock, sweep, Reach, here, next, IsSound, IsSafe}
use kin_app_server.Shop.Market.Promises.{is_held, promises, last_sweep}
use kin_app_server.Shop.Market.Once.{process_order-once}
use kin_app_server.Shop.Market.Safety.{Reach-IsSafe}

abbrev config : ShopConfig
config = record {
  max_simultaneous_orders_per_user = 2;
  order_expiration_secs = 15;
  offer_limit_time_range = 30;
  stellar_timeout_sec = 10;
  offer_rate_limit_min_ios_version = "1.2.1";
  offer_rate_limit_min_android_version = "1.4.1";
}

abbrev card : Good
card = record {
  sid = 1;
  offer_id = 0;
  order_id = none;
  value = "code-1";
  good_type = "code";
  tx_hash = none;
  created_at = 0;
  extra_info = none;
}

abbrev gift_card : Offer
gift_card = record {
  offer_id = 0;
  offer_type = "gift-card";
  is_active = true;
  title = "gift card";
  kin_cost = pos 800;
  address = 70;
  min_client_version_ios = none;
  min_client_version_android = none;
}

abbrev shop : Shop
shop = record {
  goods = card ∷ record card { sid = 2; order_id = some "old"; tx_hash = some 99 } ∷ [];
  next_sid = 3;
  offers = gift_card ∷ [];
  orders = [];
  txs = [];
  locked = λ u. none;
  users = 7 ∷ [];
}

shop-IsSound : IsSound shop
shop-IsSound = record {
  held_once = λ o. ground (arith, eq_iff "old" o);
  listed_once = λ o. omega arith;
  sales_settled = (refl, (refl, tt));
}

abbrev shop_booked : Shop
shop_booked = after (create_order config 0 "new" 7 0) shop

-- The good of an order that was booked is there after the sweep, which comes too early for it.
abbrev shop_early : Shop
shop_early = after (release_unclaimed_goods config 15000000) shop_booked

abbrev to_early : Reach config shop_booked shop_early
to_early = next here (sweep 15000000 shop_booked)

shop_booked-IsSound : IsSound shop_booked
shop_booked-IsSound =
    (Reach-IsSafe config shop shop_booked (next here (book 0 "new" 7 0 shop)) shop-IsSound).0.sound

Reach-IsSafe_example :
    IsSafe shop_booked shop_early
    × ((sid : ℕ) (o : String)
        → promises config (last_sweep to_early) sid o shop_booked
          ≤ count_rows (is_held sid o) shop_early.goods)
Reach-IsSafe_example = Reach-IsSafe config shop_booked shop_early to_early shop_booked-IsSound

promised : promises config (last_sweep to_early) 1 "new" shop_booked ≡ 1
unfolding create_order get_cost_and_address allocate_good
promised = refl

abbrev payment : ℕ → ℕ → Option ChainTx
payment h n =
    some (record { is_payment = true; memo = some "1-kit-new"; amount = pos 800; destination = 70 })

abbrev shop_redeemed : Shop
shop_redeemed = after (process_order config 1 payment 7 99) shop_booked

redeems :
    process_order config 1 payment 7 99 shop_booked
    ≡ (ok (redeemed (("code", "code-1") ∷ [])), shop_redeemed)
unfolding create_order get_cost_and_address allocate_good process_order create_tx finalize_good
    delete_order set_locked_offers
redeems = refl

-- The same payment for another user, after a new good and another booking of the same order id.
abbrev shop_restocked : Shop
shop_restocked = after (create_good (some 0) "code" "code-2" none 2) shop_redeemed

abbrev shop_again : Shop
shop_again = after (create_order config 3 "new" 8 0) shop_restocked

process_order-once_example :
    (process_order config 4 payment 8 99 shop_again).0 ≢ ok (redeemed (("code", "code-2") ∷ []))
process_order-once_example =
    process_order-once config 1 4 payment payment 7 8 99 shop_booked shop_redeemed shop_again
      (("code", "code-1") ∷ []) (("code", "code-2") ∷ []) redeems
      (next (next here (restock (some 0) "code" "code-2" none 2 shop_redeemed))
        (book 3 "new" 8 0 shop_restocked))

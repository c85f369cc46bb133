-- ===== src/Shop/Goods/Tests.antt =====
-- Two goods of one offer, one of them held by an order.
use kin_app_server.Common.{◌≡◌, refl, true, none, some, [], ◌∷◌, arith}
use kin_app_server.Action.{ok, after}
use kin_app_server.Shop.{Good, Shop}
use kin_app_server.Shop.Goods.{allocate_good, release_good, finalize_good}
use kin_app_server.Shop.Goods.Rows.{OrdersUnique}
use kin_app_server.Shop.Goods.Allocate.{AllocateOutcome, allocate_good_lem}
use kin_app_server.Shop.Goods.Release.{
  ReleaseOutcome, release_good_lem, release-allocate, goods-OrdersUnique,
}

abbrev card : Good
card = record {
  sid = 1;
  offer_id = 0;
  order_id = none;
  value = "code-1";
  good_type = "code";
  tx_hash = none;
  created_at = 0;
  extra_info = none;
}

abbrev shop : Shop
shop = record {
  goods = record card { order_id = some "o1" } ∷ record card { sid = 2; value = "code-2" } ∷ [];
  next_sid = 3;
  offers = [];
  orders = [];
  txs = [];
  locked = λ u. none;
  users = 7 ∷ [];
}

abbrev shop_after : Shop
shop_after = record shop {
  goods =
      record card { order_id = some "o1" }
      ∷ record card { sid = 2; value = "code-2"; order_id = some "o2" }
      ∷ [];
}

allocates_second : allocate_good 0 "o2" shop ≡ (ok (some 2), shop_after)
unfolding allocate_good
allocates_second = refl

sold_out : allocate_good 0 "o3" shop_after ≡ (ok none, shop_after)
unfolding allocate_good
sold_out = refl

release-allocate_example : release_good "o2" shop_after ≡ (ok true, shop)
release-allocate_example = release-allocate 0 "o2" 2 shop shop_after allocates_second

shop-OrdersUnique : OrdersUnique shop.goods
shop-OrdersUnique o = ground arith

goods-OrdersUnique_example :
    OrdersUnique (after (allocate_good 0 "o2") shop).goods
    × OrdersUnique (after (release_good "o2") shop).goods
    × OrdersUnique (after (finalize_good "o2" 5) shop).goods
goods-OrdersUnique_example = goods-OrdersUnique 0 "o2" 5 shop shop-OrdersUnique

allocate_good_example : AllocateOutcome 0 "o2" shop (allocate_good 0 "o2" shop)
allocate_good_example = allocate_good_lem 0 "o2" shop

release_good_example : ReleaseOutcome "o1" shop (release_good "o1" shop)
release_good_example = release_good_lem "o1" shop

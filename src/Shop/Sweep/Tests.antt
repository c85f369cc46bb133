-- ===== src/Shop/Sweep/Tests.antt =====
-- A sweep over a sold good, a good of a live order, and two of expired orders.
use kin_app_server.Common.{
  ◌≡◌, refl, none, some, [], ◌∷◌, map, arith, eq_iff, ◌≤◌, ◌+◌, String, str_eq, one_if, false,
  Bool-cases, inl, inr,
}
use kin_app_server.Common.Int.{pos}
use kin_app_server.Common.Table.{count_rows}
use kin_app_server.Action.{ok, err, uncaught, after}
use kin_app_server.Shop.Goods.{is_ordered, release_good}
use kin_app_server.Shop.Orders.{has_expired}
use kin_app_server.Shop.{Good, Order, Shop, ShopConfig}
use kin_app_server.Shop.Goods.Rows.{OrdersUnique}
use kin_app_server.Shop.Sweep.{release_unclaimed_goods}
use kin_app_server.Shop.Sweep.Loop.{is_overdue, free_overdue, release_unclaimed_goods_lem}
use kin_app_server.Shop.Sweep.Stuck.{release_unclaimed_goods-stuck}

abbrev config : ShopConfig
config = record {
  max_simultaneous_orders_per_user = 2;
  order_expiration_secs = 15;
  offer_limit_time_range = 30;
  stellar_timeout_sec = 10;
  offer_rate_limit_min_ios_version = "1.2.1";
  offer_rate_limit_min_android_version = "1.4.1";
}

abbrev card : Good
card = record {
  sid = 1;
  offer_id = 0;
  order_id = some "a";
  value = "code-1";
  good_type = "code";
  tx_hash = some 99;
  created_at = 0;
  extra_info = none;
}

abbrev order : Order
order = record {
  order_id = "b";
  offer_id = 0;
  user_id = 7;
  kin_amount = pos 800;
  address = 70;
  created_at = 0;
}

abbrev shop : Shop
shop = record {
  goods =
      card
      ∷ record card { sid = 2; order_id = some "b"; tx_hash = none }
      ∷ record card { sid = 3; order_id = some "c"; tx_hash = none }
      ∷ record card { sid = 4; order_id = some "d"; tx_hash = none }
      ∷ [];
  next_sid = 5;
  offers = [];
  orders =
      order
      ∷ record order { order_id = "c"; created_at = 100000000 }
      ∷ record order { order_id = "d" }
      ∷ [];
  txs = [];
  locked = λ u. none;
  users = 7 ∷ [];
}

not_both : (a b o : String) → str_eq a b ≡ false → one_if (str_eq a o) + one_if (str_eq b o) ≤ 1
not_both a b o ne = elim (Bool-cases (str_eq a o)) [
  | inr e ↦ ground (arith, e)
  | inl e ↦ rw (← (eq_iff a o).0 e) (ground (arith, eq_iff a b, eq_iff b a))
]

shop-OrdersUnique : OrdersUnique shop.goods
shop-OrdersUnique o = omega (
  arith,
  not_both "a" "b" o refl,
  not_both "a" "c" o refl,
  not_both "a" "d" o refl,
  not_both "b" "c" o refl,
  not_both "b" "d" o refl,
  not_both "c" "d" o refl,
)

release_unclaimed_goods_example : release_unclaimed_goods config 100000000 shop ≡ (
  ok (count_rows (is_overdue config 100000000 shop.orders) shop.goods),
  record shop { goods = map (free_overdue config 100000000 shop.orders) shop.goods },
)
release_unclaimed_goods_example =
    release_unclaimed_goods_lem config 100000000 shop shop-OrdersUnique
      (refl, (refl, (refl, (refl, tt))))

-- Two goods are free again.
sweeps_two : count_rows (is_overdue config 100000000 shop.orders) shop.goods ≡ 2
sweeps_two = refl

-- The good of an expired order, one without an order, and another of an expired order.
abbrev lost : Good
lost = record card { sid = 2; order_id = some "lost"; tx_hash = none }

abbrev overdue : Good
overdue = record card { order_id = some "b"; tx_hash = none }

abbrev stuck_shop : Shop
stuck_shop = record shop {
  goods = overdue ∷ lost ∷ record overdue { sid = 4; order_id = some "d" } ∷ [];
}

release_unclaimed_goods-stuck_example :
    ((release_unclaimed_goods config 100000000 stuck_shop).0 ≡ err uncaught)
    × (count_rows
          (is_ordered "d")
          (after (release_unclaimed_goods config 100000000) stuck_shop).goods
        ≡ 1)
release_unclaimed_goods-stuck_example =
    release_unclaimed_goods-stuck config 100000000 (overdue ∷ []) lost
      (record overdue { sid = 4; order_id = some "d" } ∷ []) "lost" "d" stuck_shop refl refl refl
      refl refl

-- The good before it is freed.
frees_first :
    count_rows (is_ordered "b") (after (release_unclaimed_goods config 100000000) stuck_shop).goods
    ≡ 0
unfolding release_unclaimed_goods has_expired release_good
frees_first = refl

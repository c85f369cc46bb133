-- ===== src/Shop/Orders/Tests.antt =====
-- A shop with one free card, a booking of it and its redemption.
use kin_app_server.Common.{
  ℕ, ◌+◌, String, ◌≡◌, refl, true, none, some, Option, [], ◌∷◌, ◌==◌, if◌then◌else◌,
}
use kin_app_server.Common.Int.{pos}
use kin_app_server.Action.{ok}
use kin_app_server.Shop.{Good, Offer, Order, Shop, ShopConfig, for_offer}
use kin_app_server.Shop.Goods.{allocate_good, finalize_good}
use kin_app_server.Shop.Offers.{get_cost_and_address, set_locked_offers}
use kin_app_server.Shop.Orders.{
  ChainTx, booked, refused, redeemed, create_order, process_order, create_tx, delete_order,
}
use kin_app_server.Shop.Orders.Create.{IsBooked, create_order-booked}
use kin_app_server.Shop.Orders.Redeem.{IsPaid, process_order-redeemed, process_order-refused}

abbrev config : ShopConfig
config = record {
  max_simultaneous_orders_per_user = 2;
  order_expiration_secs = 15;
  offer_limit_time_range = 30;
  stellar_timeout_sec = 10;
  offer_rate_limit_min_ios_version = "1.2.1";
  offer_rate_limit_min_android_version = "1.4.1";
}

abbrev card : Good
card = record {
  sid = 1;
  offer_id = 0;
  order_id = none;
  value = "code-1";
  good_type = "code";
  tx_hash = none;
  created_at = 0;
  extra_info = none;
}

abbrev gift_card : Offer
gift_card = record {
  offer_id = 0;
  offer_type = "gift-card";
  is_active = true;
  title = "gift card";
  kin_cost = pos 800;
  address = 70;
  min_client_version_ios = none;
  min_client_version_android = none;
}

abbrev shop : Shop
shop = record {
  goods = card ∷ [];
  next_sid = 2;
  offers = gift_card ∷ [];
  orders = [];
  txs = [];
  locked = λ u. none;
  users = 7 ∷ [];
}

-- the time of the tests, in microseconds
abbrev noon : ℕ
noon = 1545000000000000

abbrev order : Order
order = record {
  order_id = "t001";
  offer_id = 0;
  user_id = 7;
  kin_amount = pos 800;
  address = 70;
  created_at = noon;
}

abbrev shop_booked : Shop
shop_booked = record shop {
  goods = record card { order_id = some "t001" } ∷ [];
  orders = order ∷ [];
}

books : create_order config noon "t001" 7 0 shop ≡ (ok (booked "t001"), shop_booked)
unfolding create_order get_cost_and_address allocate_good
books = refl

create_order-booked_example :
    ◌≡◌ {A = String} "t001" "t001" × IsBooked config noon "t001" 7 0 shop shop_booked
create_order-booked_example =
    create_order-booked config noon "t001" 7 0 shop "t001" shop_booked books

-- The third attempt finds the payment.
abbrev sdk : ℕ → ℕ → Option ChainTx
sdk tx_hash n =
    if n == 2
    then some
        (record { is_payment = true; memo = some "1-kit-t001"; amount = pos 800; destination = 70 })
    else none

abbrev shop_redeemed : Shop
shop_redeemed = record shop {
  goods = record card { order_id = some "t001"; tx_hash = some 99 } ∷ [];
  txs =
      record {
        tx_hash = 99;
        user_id = 7;
        amount = pos 800;
        incoming_tx = true;
        remote_address = 70;
        tx_info = for_offer 0 "t001";
        update_at = noon;
      }
      ∷ [];
  locked = λ u. if u == 7 then some ((0, 17881) ∷ []) else none;
}

redeems :
    process_order config noon sdk 7 99 shop_booked
    ≡ (ok (redeemed (("code", "code-1") ∷ [])), shop_redeemed)
unfolding process_order create_tx finalize_good delete_order set_locked_offers
redeems = refl

process_order-redeemed_example :
    IsPaid config noon 7 99 sdk shop_booked (("code", "code-1") ∷ []) shop_redeemed
process_order-redeemed_example =
    process_order-redeemed config noon 7 99 sdk shop_booked shop_redeemed (("code", "code-1") ∷ [])
      redeems

-- A minute later the order has expired.
abbrev late : ℕ
late = noon + 60000000

too_late : process_order config late sdk 7 99 shop_booked ≡ (ok refused, shop_booked)
unfolding process_order
too_late = refl

process_order-refused_example : shop_booked ≡ shop_booked
process_order-refused_example =
    process_order-refused config late 7 99 sdk shop_booked shop_booked too_late

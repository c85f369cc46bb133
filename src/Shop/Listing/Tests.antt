-- ===== src/Shop/Listing/Tests.antt =====
-- A shop with four offers, of which two want a newer client.
use kin_app_server.Common.{ℕ, ◌≡◌, refl, true, false, none, some, List, [], ◌∷◌, All, str_eq}
use kin_app_server.Common.Int.{pos, ◌-ℤ◌}
use kin_app_server.Common.Table.{count_rows}
use kin_app_server.Action.{ok, after}
use kin_app_server.Account.{android, Older}
use kin_app_server.Shop.{Good, Offer, Shop, ShopConfig}
use kin_app_server.Shop.Offers.{get_locked_offers, get_user_inapp_balance, sum_amounts}
use kin_app_server.Shop.Listing.{
  Shown, sold_out, Phone, remove_unsupported, get_offers_for_user, add_offer,
}
use kin_app_server.Shop.Listing.Rules.{
  is_offer, is_listable, IsRight, get_offers_for_user_complete, get_offers_for_user-IsRight,
  remove_unsupported-neighbour,
}

abbrev config : ShopConfig
config = record {
  max_simultaneous_orders_per_user = 2;
  order_expiration_secs = 15;
  offer_limit_time_range = 30;
  stellar_timeout_sec = 10;
  offer_rate_limit_min_ios_version = "1.2.1";
  offer_rate_limit_min_android_version = "1.4.1";
}

abbrev card : Good
card = record {
  sid = 1;
  offer_id = 0;
  order_id = none;
  value = "code-1";
  good_type = "code";
  tx_hash = none;
  created_at = 0;
  extra_info = none;
}

abbrev gift_card : Offer
gift_card = record {
  offer_id = 0;
  offer_type = "gift-card";
  is_active = true;
  title = "gift card";
  kin_cost = pos 800;
  address = 70;
  min_client_version_ios = none;
  min_client_version_android = none;
}

abbrev new_card : Offer
new_card = record gift_card { offer_id = 1; min_client_version_android = some "2.0" }

abbrev shop : Shop
shop = record {
  goods = card ∷ [];
  next_sid = 2;
  offers =
      record gift_card { offer_id = 3; offer_type = "p2p" }
      ∷ new_card
      ∷ record new_card { offer_id = 2 }
      ∷ gift_card
      ∷ [];
  orders = [];
  txs = [];
  locked = λ u. none;
  users = 7 ∷ [];
}

-- Only "2.0" is newer than anything.
abbrev older : Older
older a b = str_eq b "2.0"

abbrev phone : Phone
phone = record { os_type = android; client_version = "1.5.0" }

abbrev answer : List Shown
answer =
    record { offer = gift_card; unavailable_reason = none; cannot_buy_reason = true }
    ∷ record {
      offer = record new_card { offer_id = 2 };
      unavailable_reason = some sold_out;
      cannot_buy_reason = false;
    }
    ∷ []

-- Of the two offers that want a newer client the second stays.
answer_lem : (get_offers_for_user config older (some phone) 7 1545000000000000 shop).0 ≡ ok answer
unfolding get_offers_for_user get_locked_offers get_user_inapp_balance ◌-ℤ◌ sum_amounts
answer_lem = refl

complete_example :
    count_rows (is_offer older phone 0) answer ≡ count_rows (is_listable older phone 0) shop.offers
complete_example =
    get_offers_for_user_complete config older phone 7 1545000000000000 0 shop answer refl answer_lem

abbrev looked : Shop
looked = after (get_locked_offers 7 30 1545000000000000) shop

locked_lem : get_locked_offers 7 30 1545000000000000 shop ≡ (ok [], looked)
unfolding get_locked_offers
locked_lem = refl

IsRight_example :
    (xs : List Shown) × (get_offers_for_user config older (some phone) 7 1545000000000000 shop
      ≡ (ok xs, looked))
    × All (IsRight looked [] (get_user_inapp_balance 7 looked)) xs
IsRight_example =
    get_offers_for_user-IsRight config older (some phone) 7 1545000000000000 shop looked []
      locked_lem

abbrev wants : ℕ → Shown
wants k = record {
  offer = record new_card { offer_id = k };
  unavailable_reason = none;
  cannot_buy_reason = false;
}

neighbour_example :
    remove_unsupported older phone false
      (record (wants 0) { offer = gift_card } ∷ wants 1 ∷ wants 2 ∷ wants 3 ∷ [])
    ≡ record (wants 0) { offer = gift_card }
      ∷ wants 2
      ∷ remove_unsupported older phone false (wants 3 ∷ [])
neighbour_example =
    remove_unsupported-neighbour older phone (record (wants 0) { offer = gift_card } ∷ [])
      (wants 3 ∷ []) (wants 1) (wants 2) (refl, tt) refl

-- An offer whose picture is missing is not added.
add_offer-missing :
    (add_offer
      (λ u. false)
      (record { offer = gift_card; skip_image_test = false; urls = "a" ∷ [] })
      true
      shop).0
    ≡ ok false
unfolding add_offer
add_offer-missing = refl

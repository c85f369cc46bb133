-- ===== src/Blackhawk/Tests.antt =====
-- A vault with one order of two cards, of which Blackhawk tells one.
use kin_app_server.Common.{
  ℕ, ◌+◌, ◌≤◌, ◌≡◌, refl, arith, true, false, none, some, Option, [], ◌∷◌, ◌==◌, if◌then◌else◌,
}
use kin_app_server.Common.Int.{pos}
use kin_app_server.Common.Table.{count_rows}
use kin_app_server.Action.{ok, after}
use kin_app_server.Shop.{Offer}
use kin_app_server.Shop.Goods.{create_good, does_code_exist, list_inventory}
use kin_app_server.Blackhawk.{
  BlackhawkCard, BlackhawkOffer, Vault, processed_order, CardInfo, Api, create_bh_card,
  track_orders, replenish_bh_cards,
}
use kin_app_server.Blackhawk.Track.{has_code, track_orders-IsOnce}
use kin_app_server.Blackhawk.Replenish.{count_started, allowed, replenish_bh_cards-started}

abbrev gift_card : Offer
gift_card = record {
  offer_id = 5;
  offer_type = "gift-card";
  is_active = true;
  title = "gift card";
  kin_cost = pos 800;
  address = 70;
  min_client_version_ios = none;
  min_client_version_android = none;
}

abbrev card : BlackhawkCard
card = record {
  card_id = 1;
  order_id = 9;
  processed = false;
  merchant_code = "m";
  denomination = 10;
}

abbrev offer : BlackhawkOffer
offer = record {
  offer_id = 5;
  merchant_code = "m";
  merchant_template_id = "t";
  batch_size = 2;
  denomination = 10;
  minimum_threshold = 2;
}

abbrev vault : Vault
vault = record {
  shop = record {
    goods = [];
    next_sid = 1;
    offers = gift_card ∷ [];
    orders = [];
    txs = [];
    locked = λ u. none;
    users = [];
  };
  cards = card ∷ record card { card_id = 2 } ∷ [];
  bh_offers = offer ∷ [];
  creds = record { token = some 3; token_generation_time = 0 };
  started = [];
}

abbrev info : CardInfo
info = record { id = 1; order = 9; code = "AAA"; merchant_code = "t" }

abbrev tells_one : ℕ → Option CardInfo
tells_one c = if c == 1 then some info else none

abbrev api : (ℕ → Option CardInfo) → Api
api tells = record {
  generate_auth_token = none;
  get_order_status = λ o. processed_order;
  egift_get_card = tells;
  egift_start_order = λ o. some 10;
  egift_add_card = λ o i. some (i + 3);
  account_balance = some (some (pos 500));
}

IsOnce_example :
    count_rows (has_code "AAA") (after (track_orders (api tells_one) 7) vault).shop.goods ≤ 1
IsOnce_example = track_orders-IsOnce (api tells_one) 7 "AAA" vault (omega arith)

abbrev tracked : Vault
tracked = after (track_orders (api tells_one) 7) vault

tracked_lem : track_orders (api tells_one) 7 vault ≡ (ok (some 0), tracked)
unfolding track_orders create_good does_code_exist
tracked_lem = refl

-- One good is made, which is one too few.
started_example :
    count_started (after (replenish_bh_cards (api tells_one) 7 (pos 100) false) vault)
    ≤ count_started vault + allowed (api tells_one) (pos 100) (ok (some 0)) tracked
started_example =
    replenish_bh_cards-started (api tells_one) 7 (pos 100) vault tracked (ok (some 0)) tracked_lem

allowed_one : allowed (api tells_one) (pos 100) (ok (some 0)) tracked ≡ 1
unfolding track_orders create_good does_code_exist list_inventory
allowed_one = refl

ordered_two : (after (replenish_bh_cards (api tells_one) 7 (pos 100) false) vault).started ≡ 10 ∷ []
unfolding create_bh_card replenish_bh_cards create_good does_code_exist list_inventory
ordered_two = refl

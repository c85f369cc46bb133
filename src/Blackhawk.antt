-- ===== src/Blackhawk.antt =====
-- Gift cards that are bought from Blackhawk: kinappserver/blackhawk.py, and the cards, credentials
-- and offers of kinappserver/models/blackhawk_card.py, blackhawk_creds.py and blackhawk_offer.py.
-- Blackhawk's HTTP interface is outside: what it answers in one run of the cron job is a parameter,
-- None where a request fails. Of the balance there is none where the request raises, and `some
-- none` where the answer has none. Ids of cards, orders and offers are opaque numbers.
pub mod Track
pub mod Lost
pub mod Replenish
mod Tests
use kin_app_server.Common.{
  ℕ, zero, suc, ◌+◌, ◌-◌, ◌*◌, String, Bool, true, false, not, ◌&&◌, ◌||◌, Option, none, some, List,
  [], ◌∷◌, ◌++◌, map, ltb, ◌==◌, str_eq, if◌then◌else◌, is_none,
}
use kin_app_server.Common.Int.{ℤ, ltb_ℤ}
use kin_app_server.Common.Table.{count_rows, first_row, select_rows, update_first}
use kin_app_server.Action.{Action, Result, ok, err, uncaught, internal_error, ◌>>=◌, ◌>>◌, pure}
use kin_app_server.Account.{get, put}
use kin_app_server.Shop.{Shop, second}
use kin_app_server.Shop.Goods.{create_good, Stock, list_inventory}

pub record BlackhawkCard : Type 0 where
  pub card_id : ℕ
  pub order_id : ℕ
  pub processed : Bool
  pub merchant_code : String
  pub denomination : ℕ

pub record BlackhawkOffer : Type 0 where
  pub offer_id : ℕ
  pub merchant_code : String
  pub merchant_template_id : String
  pub batch_size : ℕ
  pub denomination : ℕ
  pub minimum_threshold : ℕ

pub record BlackhawkCreds : Type 0 where
  pub token : Option ℕ
  pub token_generation_time : ℕ

-- The tables, and the orders that were started at Blackhawk, the last one first.
pub record Vault : Type 0 where
  pub shop : Shop
  pub cards : List BlackhawkCard
  pub bh_offers : List BlackhawkOffer
  pub creds : BlackhawkCreds
  pub started : List ℕ

pub data Status : Type 0 where
  incomplete cancelled processed_order other_status : Status

-- What Blackhawk says of a card: its code with the PIN, if there is one.
pub record CardInfo : Type 0 where
  pub id : ℕ
  pub order : ℕ
  pub code : String
  pub merchant_code : String

-- The answers; an order and its cards are those that the request for an offer makes.
pub record Api : Type 0 where
  pub generate_auth_token : Option ℕ
  pub get_order_status : ℕ → Status
  pub egift_get_card : ℕ → Option CardInfo
  pub egift_start_order : ℕ → Option ℕ
  pub egift_add_card : ℕ → ℕ → Option ℕ
  pub account_balance : Option (Option ℤ)

abbrev pub has_card_id : ℕ → BlackhawkCard → Bool
has_card_id id c = c.card_id == id

-- A card that is there already raises.
unfoldable pub create_bh_card : ℕ → ℕ → BlackhawkOffer → Action Vault Bool
create_bh_card card_id order_id o s =
    if count_rows (has_card_id card_id) s.cards == 0
    then (
      ok true,
      record s {
        cards =
            s.cards
            ++ record {
              card_id = card_id;
              order_id = order_id;
              processed = false;
              merchant_code = o.merchant_code;
              denomination = o.denomination;
            }
              ∷ [];
      },
    )
    else (err (internal_error "failed to create a new blackhawk card"), s)

abbrev pub add_to_order : ℕ → ℕ → List (ℕ × List ℕ) → List (ℕ × List ℕ)
add_to_order order card orders = elim (get order orders) [
  | none ↦ put order (card ∷ []) orders
  | some ids ↦ put order (ids ++ card ∷ []) orders
]

-- The unprocessed cards, by their order.
unfoldable pub list_unprocessed_orders : List (ℕ × List ℕ) → List BlackhawkCard → List (ℕ × List ℕ)
list_unprocessed_orders acc [] = acc
list_unprocessed_orders acc (c ∷ cs) =
    list_unprocessed_orders (if c.processed then acc else add_to_order c.order_id c.card_id acc) cs

unfoldable pub set_processed_orders : List ℕ → Vault → Vault
set_processed_orders [] s = s
set_processed_orders (c ∷ cs) s =
    set_processed_orders cs (record s {
      cards = update_first (has_card_id c) (λ x. record x { processed = true }) s.cards;
    })

unfoldable pub merchant_code_to_offer_id : String → List BlackhawkOffer → Option ℕ
merchant_code_to_offer_id code [] = none
merchant_code_to_offer_id code (o ∷ os) =
    let rest = merchant_code_to_offer_id code os in
    if str_eq o.merchant_template_id code || str_eq o.merchant_code code
    then some o.offer_id
    else rest

abbrev pub on_shop : {A : Type 0} → Action Shop A → Action Vault A
on_shop m s = let (r, d) = m s.shop in (r, record s { shop = d })

unfoldable pub create_all : ℕ → BlackhawkOffer → List ℕ → Action Vault (Unit {0})
create_all order o [] s = (ok tt, s)
create_all order o (c ∷ cs) s = (create_bh_card c order o >>= λ _. create_all order o cs) s

abbrev pub stock_of : ℕ → List Stock → Option ℕ
stock_of offer [] = none
stock_of offer (x ∷ xs) = if x.offer == offer then some x.unallocated else stock_of offer xs

abbrev pub max_unprocessed : ℕ
max_unprocessed = 10

module _ (api : Api) (now : ℕ) where
  -- The loop over the cards of a processed order. The answer is `order_id`, which each card that
  -- is had overwrites.
  unfoldable pub add_cards : ℕ → List ℕ → Action Vault ℕ
  unfolding create_good merchant_code_to_offer_id
  add_cards order [] s = (ok order, s)
  add_cards order (c ∷ cs) s = elim (api.egift_get_card c) [
    | none ↦ add_cards order cs s
    | some info ↦
        (on_shop (
              create_good (merchant_code_to_offer_id info.merchant_code s.bh_offers) "code"
                info.code (some info.id) now)
            >>= λ _. add_cards info.order cs)
          s
  ]

  -- What is left unprocessed of one order: 1, or 0.
  unfoldable pub track_order : List (ℕ × List ℕ) → ℕ → List ℕ → Action Vault ℕ
  unfolding add_cards set_processed_orders
  track_order orders order ids s = elim (api.get_order_status order) [
    | incomplete ↦ (ok 0, s)
    | cancelled ↦ (ok 0, s)
    | other_status ↦ (ok 1, s)
    | processed_order ↦
        (add_cards order ids >>= λ key t. elim (get key orders) [
          | none ↦ (err uncaught, t)
          | some cards ↦ (ok 0, set_processed_orders cards t)
        ])
          s
  ]

  unfoldable pub track_all : List (ℕ × List ℕ) → List (ℕ × List ℕ) → Action Vault ℕ
  unfolding track_order
  track_all orders [] s = (ok 0, s)
  track_all orders ((order, ids) ∷ rest) s =
      (track_order orders order ids >>= λ n. track_all orders rest >>= λ m. pure (n + m)) s

  -- None without a token, which is -1.
  unfoldable pub track_orders : Action Vault (Option ℕ)
  unfolding track_all list_unprocessed_orders
  track_orders s = elim s.creds.token [
    | none ↦ (ok none, s)
    | some token ↦
        let orders = list_unprocessed_orders [] s.cards in
        (track_all orders orders >>= λ n. pure (some n)) s
  ]

  -- The cards of an order; none where one of them fails.
  abbrev pub cards_from : ℕ → ℕ → ℕ → Option (List ℕ)
  cards_from order i zero = some []
  cards_from order i (suc n) = elim (api.egift_add_card order i) [
    | none ↦ none
    | some c ↦ elim (cards_from order (i + 1) n) [ none ↦ none | some cs ↦ some (c ∷ cs) ]
  ]

  -- That the order could not be completed is only logged.
  unfoldable pub order_gift_cards : BlackhawkOffer → Action Vault Bool
  unfolding create_all
  order_gift_cards o s = elim s.creds.token [
    | none ↦ (ok false, s)
    | some token ↦ elim (api.egift_start_order o.offer_id) [
      | none ↦ (ok false, s)
      | some order ↦
          let s' : Vault = record s { started = order ∷ s.started } in
          elim (cards_from order 0 o.batch_size) [
            | none ↦ (ok false, s')
            | some cs ↦ (create_all order o cs >>= λ _. pure true) s'
          ]
    ]
  ]

  -- A token is fresh for two days.
  unfoldable pub refresh_bh_auth_token : Bool → Vault → Bool × Vault
  refresh_bh_auth_token force s =
      if not force && ltb now (s.creds.token_generation_time + 172800 * second)
      then (true, s)
      else elim api.generate_auth_token [
        | none ↦ (false, s)
        | some t ↦
            (true, record s { creds = record { token = some t; token_generation_time = now } })
      ]

  -- An offer that the inventory does not have raises. A failed order ends the loop.
  unfoldable pub order_missing : List Stock → List BlackhawkOffer → Action Vault Bool
  unfolding order_gift_cards
  order_missing inventory [] s = (ok true, s)
  order_missing inventory (o ∷ os) s = elim (stock_of o.offer_id inventory) [
    | none ↦ (err uncaught, s)
    | some left ↦ elim (ltb left o.minimum_threshold) [
      | true ↦
          (order_gift_cards o >>= λ placed. elim placed [
            | true ↦ order_missing inventory os
            | false ↦ pure true
          ])
            s
      | false ↦ order_missing inventory os s
    ]
  ]

  unfoldable pub replenish_bh_cards : ℤ → Bool → Action Vault Bool
  unfolding track_orders order_missing list_inventory refresh_bh_auth_token
  replenish_bh_cards critical_balance refresh_creds s =
      let s' = if refresh_creds then (refresh_bh_auth_token false s).1 else s in
      (track_orders >>= λ left t. elim left [
        | none ↦ (ok false, t)
        | some n ↦ if ltb max_unprocessed n then (ok true, t) else elim api.account_balance [
          | none ↦ (ok false, t)
          | some none ↦ (err uncaught, t)
          | some (some balance) ↦
              if ltb_ℤ balance critical_balance
              then (ok false, t)
              else order_missing (list_inventory t.shop) t.bh_offers t
        ]
      ])
        s'

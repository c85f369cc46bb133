-- ===== src/Shop/Orders.antt =====
-- kinappserver/models/order.py, with create_tx of transaction.py and extract_tx_payment_data of
-- stellar.py: making an order, finding it again from a memo, and redeeming it with a payment.
pub mod Create
pub mod Redeem
mod Tests
use kin_app_server.Common.{
  ℕ, suc, zero, ◌+◌, ◌*◌, String, Bool, true, false, ◌&&◌, ◌||◌, Option, none, some, List, [], ◌∷◌,
  ltb, leb, ◌==◌, str_eq, if◌then◌else◌,
}
use kin_app_server.Common.Int.{ℤ, eqb_ℤ}
use kin_app_server.Common.Table.{count_rows, first_row, select_rows, delete_rows}
use kin_app_server.Action.{
  Action, Result, ok, err, invalid_usage, internal_error, uncaught, ◌>>=◌, ◌>>◌, pure, raise, gets,
  try_except,
}
use kin_app_server.Shop.{Good, Order, Transaction, TxInfo, for_offer, Shop, ShopConfig, second}
use kin_app_server.Shop.Goods.{has_offer_id, has_tx_hash, allocate_good, finalize_good}
use kin_app_server.Shop.Offers.{get_cost_and_address, set_locked_offers}

abbrev pub has_order_id : String → Order → Bool
has_order_id order_id o = str_eq o.order_id order_id

-- (now - order.created_at).total_seconds() > config.ORDER_EXPIRATION_SECS
abbrev pub is_stale : ShopConfig → ℕ → Order → Bool
is_stale c now o = ltb (o.created_at + c.order_expiration_secs * second) now

-- `has_expired`: `.one()` raises unless the order is there once.
unfoldable pub has_expired : ShopConfig → ℕ → String → Action Shop Bool
has_expired c now order_id s = elim (first_row (has_order_id order_id) s.orders) [
  | none ↦ (err uncaught, s)
  | some o ↦
      if count_rows (has_order_id order_id) s.orders == 1
      then (ok (is_stale c now o), s)
      else (err uncaught, s)
]

-- an order of the user that is not stale
abbrev pub is_active_for : ShopConfig → ℕ → ℕ → Order → Bool
is_active_for c now user_id o = (o.user_id == user_id) && (if is_stale c now o then false else true)

-- `get_orders_for_user`
unfoldable pub get_orders_for_user : ShopConfig → ℕ → ℕ → Shop → List Order
get_orders_for_user c now user_id s = select_rows (is_active_for c now user_id) s.orders

-- What `create_order` returns: an order id, or one of the two error codes of utils.py.
pub data Booking : Type 0 where
  booked : String → Booking
  orders_cooldown no_goods : Booking

-- The insert into the table: the primary key and the two foreign keys.
unfoldable pub add_order : Order → Action Shop (Unit {0})
add_order o s =
    if ltb 0 (count_rows (has_order_id o.order_id) s.orders)
      || (count_rows (has_offer_id o.offer_id) s.offers == 0)
      || (count_rows (λ u. u == o.user_id) s.users == 0)
    then (err (internal_error "failed to create a new order"), s)
    else (ok tt, record s { orders = o ∷ s.orders })

-- The good is allocated, and committed, before the order is made. `order_id` is what
-- `generate_order_id` returns.
unfoldable pub create_order : ShopConfig → ℕ → String → ℕ → ℕ → Action Shop Booking
unfolding add_order get_orders_for_user
create_order c now order_id user_id offer_id s =
    if leb c.max_simultaneous_orders_per_user (count_rows (is_active_for c now user_id) s.orders)
    then (ok orders_cooldown, s)
    else (do
      (kin_amount, address) ← get_cost_and_address offer_id
      sid ← allocate_good offer_id order_id
      elim sid [
        | none ↦ pure no_goods
        | some n ↦ do
          add_order (record {
            order_id = order_id;
            offer_id = offer_id;
            user_id = user_id;
            kin_amount = kin_amount;
            address = address;
            created_at = now;
          })
          pure (booked order_id)
      ])
        s

-- `text[n:]`
abbrev pub drop_chars : ℕ → String → String
drop_chars zero t = t
drop_chars (suc n) String.[] = String.[]
drop_chars (suc n) (String.◌∷◌ ch t) = drop_chars n t

-- `memo[6:]` is the memo without its prefix "1-kit-".
unfoldable pub get_order_by_memo : ShopConfig → ℕ → Option String → Shop → Option Order
get_order_by_memo c now none s = none
get_order_by_memo c now (some memo) s =
    elim (first_row (has_order_id (drop_chars 6 memo)) s.orders) [
      | none ↦ none
      | some o ↦ if is_stale c now o then none else some o
    ]

-- The rows are deleted before their number is looked at.
unfoldable pub delete_order : String → Action Shop (Unit {0})
delete_order order_id s = (
  if count_rows (has_order_id order_id) s.orders == 1
      then ok tt
      else err (internal_error "failed to delete an order"),
  record s { orders = delete_rows (has_order_id order_id) s.orders },
)

-- `create_tx` of transaction.py swallows a failed commit. The answer says whether it committed:
-- after a failed flush a SQLAlchemy session refuses every query until it is rolled back.
unfoldable pub create_tx : Transaction → Action Shop Bool
create_tx t s =
    if ltb 0 (count_rows (has_tx_hash t.tx_hash) s.txs)
      || (count_rows (λ u. u == t.user_id) s.users == 0)
    then (ok false, s)
    else (ok true, record s { txs = t ∷ s.txs })

-- A transaction as the blockchain's SDK gives it; `amount` is `int(tx_data['amount'])`.
pub record ChainTx : Type 0 where
  pub is_payment : Bool
  pub memo : Option String
  pub amount : ℤ
  pub destination : ℕ

-- The retries of `extract_tx_payment_data`: `sdk n` is the SDK's answer to the attempt number `n`,
-- none where it raises ResourceNotFoundError. The first argument is the number of attempts left.
unfoldable pub fetch_tx : ℕ → ℕ → (ℕ → Option ChainTx) → Option ChainTx
fetch_tx zero n sdk = none
fetch_tx (suc left) n sdk = elim (sdk n) [ some t ↦ some t | none ↦ fetch_tx left (n + 1) sdk ]

unfoldable pub extract_tx_payment_data : ShopConfig → (ℕ → Option ChainTx) → Option ChainTx
unfolding fetch_tx
extract_tx_payment_data c sdk = elim (fetch_tx c.stellar_timeout_sec 0 sdk) [
  | none ↦ none
  | some t ↦ if t.is_payment then some t else none
]

-- What `process_order` returns: `False, None`, or `True` and the goods.
pub data Redemption : Type 0 where
  refused : Redemption
  redeemed : List (String × String) → Redemption

-- `finalize_good` after `create_tx`: its first query raises on an unusable session.
unfoldable pub finalize_paid : Bool → String → ℕ → Action Shop (String × String)
finalize_paid true order_id tx_hash = finalize_good order_id tx_hash
finalize_paid false order_id tx_hash = raise (internal_error "cant finalize good for order_id")

-- What follows once the payment is known to match the order.
unfoldable pub redeem_order : ShopConfig → ℕ → ℕ → ℕ → Order → Action Shop Redemption
unfolding finalize_paid
redeem_order c now user_id tx_hash o = do
  usable ← create_tx (record {
    tx_hash = tx_hash;
    user_id = user_id;
    amount = o.kin_amount;
    incoming_tx = true;
    remote_address = o.address;
    tx_info = for_offer o.offer_id o.order_id;
    update_at = now;
  })
  good ← finalize_paid usable o.order_id tx_hash
  try_except (delete_order o.order_id) (pure tt)
  set_locked_offers user_id c.offer_limit_time_range now
  pure (redeemed (good ∷ []))

unfoldable pub process_order :
    ShopConfig → ℕ → (ℕ → ℕ → Option ChainTx) → ℕ → ℕ → Action Shop Redemption
unfolding extract_tx_payment_data get_order_by_memo redeem_order
process_order c now sdk user_id tx_hash s = elim (extract_tx_payment_data c (sdk tx_hash)) [
  | none ↦ (ok refused, s)
  | some t ↦ elim (get_order_by_memo c now t.memo s) [
    | none ↦ (ok refused, s)
    | some o ↦
        if (t.destination == o.address) && eqb_ℤ t.amount o.kin_amount
        then redeem_order c now user_id tx_hash o s
        else (ok refused, s)
  ]
]

-- ===== src/Shop/Orders/Redeem.antt =====
-- `process_order`: what a redemption takes and changes.
use kin_app_server.Common.{
  ℕ, ◌≤◌, String, ◌≡◌, ◌≢◌, true, false, ◌&&◌, Option, none, some, List, [], ◌∷◌, arith, eq_iff,
  inl, inr, ◌==◌, Option-cases, Bool-cases,
}
use kin_app_server.Common.Int.{eqb_ℤ, eq_of_parts}
use kin_app_server.Common.Table.{
  count_rows, first_row, update_first, delete_rows, first_row-holds, first_row-count,
}
use kin_app_server.Action.{ok, after}
use kin_app_server.Shop.{Good, Order, Transaction, for_offer, Shop, ShopConfig}
use kin_app_server.Shop.Goods.{is_ordered, has_tx_hash, sell, finalize_good}
use kin_app_server.Shop.Offers.{set_locked_offers}
use kin_app_server.Shop.Orders.{
  has_order_id, is_stale, drop_chars, ChainTx, extract_tx_payment_data, get_order_by_memo,
  create_tx, delete_order, refused, redeemed, finalize_paid, redeem_order, process_order,
}

module _ (c : ShopConfig) (now : ℕ) (user_id tx_hash : ℕ) where
  abbrev pub payment_row : Order → Transaction
  payment_row o = record {
    tx_hash = tx_hash;
    user_id = user_id;
    amount = o.kin_amount;
    incoming_tx = true;
    remote_address = o.address;
    tx_info = for_offer o.offer_id o.order_id;
    update_at = now;
  }

  -- What has changed once the order `o` is redeemed for the goods `gs`.
  pub record IsRedeemed (o : Order) (s : Shop) (gs : List (String × String)) (s' : Shop)
      : Type 0 where
    pub new_payment : count_rows (has_tx_hash tx_hash) s.txs ≡ 0
    pub recorded : s'.txs ≡ payment_row o ∷ s.txs
    pub handed_over :
        (g : Good) × (first_row (is_ordered o.order_id) s.goods ≡ some g)
        × (gs ≡ (g.good_type, g.value) ∷ [])
    pub held_once : count_rows (is_ordered o.order_id) s.goods ≡ 1
    pub sold : s'.goods ≡ update_first (is_ordered o.order_id) (sell tx_hash) s.goods
    pub removed : s'.orders ≡ delete_rows (has_order_id o.order_id) s.orders

  set_locked-goods :
      (u days : ℕ) (s : Shop)
      → let t = after (set_locked_offers u days now) s in
        (t.goods ≡ s.goods) × (t.txs ≡ s.txs) × (t.orders ≡ s.orders)
  unfolding set_locked_offers
  set_locked-goods u days s = ground arith

  -- The tables once the payment, the sale and the deletion are committed.
  committed : Order → Shop → Shop
  committed o s = record s {
    goods = update_first (is_ordered o.order_id) (sell tx_hash) s.goods;
    txs = payment_row o ∷ s.txs;
    orders = delete_rows (has_order_id o.order_id) s.orders;
  }

  redeem_order-commits :
      (o : Order) (s s' : Shop) (gs : List (String × String)) (g : Good)
      → first_row (is_ordered o.order_id) s.goods ≡ some g
      → redeem_order c now user_id tx_hash o s ≡ (ok (redeemed gs), s')
      → s' ≡ after (set_locked_offers user_id c.offer_limit_time_range now) (committed o s)
  unfolding redeem_order finalize_paid create_tx finalize_good delete_order committed
  redeem_order-commits o s s' gs g e h = ground (arith, e)

  redeem_order-redeemed :
      (o : Order) (s s' : Shop) (gs : List (String × String))
      → redeem_order c now user_id tx_hash o s ≡ (ok (redeemed gs), s')
      → IsRedeemed o s gs s'
  unfolding redeem_order finalize_paid create_tx finalize_good delete_order committed
  redeem_order-redeemed o s s' gs h =
      elim (Option-cases (first_row (is_ordered o.order_id) s.goods)) [
        | inl e ↦ absurd (ground (arith, e))
        | inr (g, e) ↦
            let last = redeem_order-commits o s s' gs g e h in
            let same = set_locked-goods user_id c.offer_limit_time_range (committed o s) in
            record {
              new_payment = ground (arith, e);
              recorded = rw last same.1;
              handed_over = (g, e, ground (arith, e));
              held_once = ground (arith, e);
              sold = rw last same.0;
              removed = rw last same.2;
            }
      ]

  memo-fresh :
      (memo : Option String) (s : Shop) (o : Order)
      → get_order_by_memo c now memo s ≡ some o
      → is_stale c now o ≡ false
  unfolding get_order_by_memo
  memo-fresh none s o h = cc
  memo-fresh (some m) s o h =
      elim (Option-cases (first_row (has_order_id (drop_chars 6 m)) s.orders)) [
        | inl e ↦ absurd (ground (arith, e))
        | inr (x, e) ↦ ground (arith, e)
      ]

  -- The payment and the order that a redemption rests on, and what it changes.
  abbrev pub IsPaid : (ℕ → ℕ → Option ChainTx) → Shop → List (String × String) → Shop → Type 0
  IsPaid sdk s gs s' =
      (t : ChainTx) × (o : Order) × (extract_tx_payment_data c (sdk tx_hash) ≡ some t)
      × (get_order_by_memo c now t.memo s ≡ some o)
      × (is_stale c now o ≡ false)
      × (t.destination ≡ o.address)
      × (t.amount ≡ o.kin_amount)
      × IsRedeemed o s gs s'

  -- If `process_order` hands over goods, then the blockchain has a payment under the hash, whose
  -- memo names an order that has not expired, to that order's address and of its whole cost. The
  -- hash was in no transaction and the new transaction is recorded; exactly one good was held for
  -- the order, it is marked with the hash and its type and value are what is handed over; the
  -- order is gone.
  pub process_order-redeemed :
      (sdk : ℕ → ℕ → Option ChainTx) (s s' : Shop) (gs : List (String × String))
      → process_order c now sdk user_id tx_hash s ≡ (ok (redeemed gs), s')
      → IsPaid sdk s gs s'
  unfolding process_order
  process_order-redeemed sdk s s' gs h =
      elim (Option-cases (extract_tx_payment_data c (sdk tx_hash))) [
        | inl e ↦ absurd (ground (arith, e))
        | inr (t, e) ↦ elim (Option-cases (get_order_by_memo c now t.memo s)) [
          | inl e' ↦ absurd (ground (arith, e, e'))
          | inr (o, e') ↦
              elim (Bool-cases ((t.destination == o.address) && eqb_ℤ t.amount o.kin_amount)) [
                | inl m ↦ (
                  t,
                  o,
                  e,
                  e',
                  memo-fresh t.memo s o e',
                  ground (arith, m),
                  eq_of_parts t.amount o.kin_amount (ground (arith, m)),
                  redeem_order-redeemed o s s' gs (ground (arith, e, e', m)),
                )
                | inr m ↦ absurd (ground (arith, e, e', m))
              ]
        ]
      ]

  redeem_order-ne-refused :
      (o : Order) (s s' : Shop) → redeem_order c now user_id tx_hash o s ≢ (ok refused, s')
  unfolding redeem_order
  redeem_order-ne-refused o s s' h = ground arith

  -- A call of `process_order` that refuses changes nothing.
  pub process_order-refused :
      (sdk : ℕ → ℕ → Option ChainTx) (s s' : Shop)
      → process_order c now sdk user_id tx_hash s ≡ (ok refused, s')
      → s' ≡ s
  unfolding process_order
  process_order-refused sdk s s' h = elim (Option-cases (extract_tx_payment_data c (sdk tx_hash))) [
    | inl e ↦ ground (arith, e)
    | inr (t, e) ↦ elim (Option-cases (get_order_by_memo c now t.memo s)) [
      | inl e' ↦ ground (arith, e, e')
      | inr (o, e') ↦ ground (arith, e, e', redeem_order-ne-refused o s s')
    ]
  ]

memo-row :
    (c : ShopConfig) (now : ℕ) (m : String) (s : Shop) (o : Order)
    → get_order_by_memo c now (some m) s ≡ some o
    → first_row (has_order_id (drop_chars 6 m)) s.orders ≡ some o
unfolding get_order_by_memo
memo-row c now m s o h = elim (Option-cases (first_row (has_order_id (drop_chars 6 m)) s.orders)) [
  | inl e ↦ absurd (ground (arith, e))
  | inr (x, e) ↦ ground (arith, e)
]

-- The order that a memo names is in the table.
pub memo-listed :
    (c : ShopConfig) (now : ℕ) (memo : Option String) (s : Shop) (o : Order)
    → get_order_by_memo c now memo s ≡ some o
    → 1 ≤ count_rows (has_order_id o.order_id) s.orders
unfolding get_order_by_memo
memo-listed c now none s o h = cc
memo-listed c now (some m) s o h =
    let row = memo-row c now m s o h in
    let named : o.order_id ≡ drop_chars 6 m =
      (eq_iff o.order_id (drop_chars 6 m)).0
        (first_row-holds (has_order_id (drop_chars 6 m)) s.orders o row) in
    rw named (first_row-count (has_order_id (drop_chars 6 m)) s.orders o row)

-- ===== src/Shop/Market/Redeem.antt =====
-- A redemption keeps the invariant and every sale, on each of its outcomes.
use mathlib.Core.Path.{subst₂}
use kin_app_server.Common.{
  sym, ℕ, ◌≤◌, ◌≡◌, refl, ◌&&◌, ◌||◌, Option, arith, inl, inr, Bool-cases, Option-cases, ◌==◌, ltb,
}
use kin_app_server.Common.Int.{eqb_ℤ}
use kin_app_server.Common.Table.{
  count_rows, first_row, update_first, delete_rows, count-update_first_same, count-delete_le,
}
use kin_app_server.Action.{after}
use kin_app_server.Shop.{Order, Shop, ShopConfig}
use kin_app_server.Shop.Goods.{is_ordered, has_tx_hash, sell, finalize_good}
use kin_app_server.Shop.Offers.{set_locked_offers}
use kin_app_server.Shop.Orders.{
  has_order_id, ChainTx, extract_tx_payment_data, get_order_by_memo, create_tx, delete_order,
  finalize_paid, redeem_order, process_order,
}
use kin_app_server.Shop.Orders.Redeem.{memo-listed}
use kin_app_server.Shop.Market.{Settled, IsSound, IsSafe}
use kin_app_server.Shop.Market.Rows.{sell-Settled, sell-KeepsSales}

-- The goods and the orders after a redemption: as before, or with the order's good sold and the
-- order gone.
pub data Redeemed (tx_hash : ℕ) (o : Order) (s u : Shop) : Type 0 where
  unchanged : u.goods ≡ s.goods → u.orders ≡ s.orders → Redeemed tx_hash o s u
  done :
      u.goods ≡ update_first (is_ordered o.order_id) (sell tx_hash) s.goods
      → u.orders ≡ delete_rows (has_order_id o.order_id) s.orders
      → Redeemed tx_hash o s u

module _ (c : ShopConfig) (now : ℕ) (user_id tx_hash : ℕ) where
  pub redeem_order-Redeemed :
      (o : Order) (s : Shop) → Redeemed tx_hash o s (after (redeem_order c now user_id tx_hash o) s)
  unfolding redeem_order finalize_paid create_tx finalize_good delete_order set_locked_offers
  redeem_order-Redeemed o s = elim (Option-cases (first_row (is_ordered o.order_id) s.goods)) [
    | inl e ↦ unchanged (ground (arith, e)) (ground (arith, e))
    | inr (g, e) ↦ elim (Bool-cases (count_rows (is_ordered o.order_id) s.goods == 1)) [
      | inr many ↦ unchanged (ground (arith, e, many)) (ground (arith, e, many))
      | inl one ↦
          elim (Bool-cases (
            ltb 0 (count_rows (has_tx_hash tx_hash) s.txs)
            || (count_rows (λ u. u == user_id) s.users == 0))) [
              | inl refused_row ↦
                  unchanged (ground (arith, e, one, refused_row))
                    (ground (arith, e, one, refused_row))
              | inr row ↦ done (ground (arith, e, one, row)) (ground (arith, e, one, row))
            ]
    ]
  ]

  Redeemed-IsSafe :
      (o : Order) (s u : Shop)
      → 1 ≤ count_rows (has_order_id o.order_id) s.orders
      → IsSound s
      → Redeemed tx_hash o s u
      → IsSafe s u
  Redeemed-IsSafe o s u listed h (unchanged goods orders) = record {
    sound = record {
      held_once = λ x. rw goods (h.held_once x);
      listed_once = λ x. rw orders (h.listed_once x);
      sales_settled = subst₂ Settled (sym orders) (sym goods) h.sales_settled;
    };
    sales_kept = λ sid x k. rw goods (omega arith);
  }
  Redeemed-IsSafe o s u listed h (done goods orders) = record {
    sound = record {
      held_once = λ x.
          rw
            (
              goods,
              count-update_first_same (is_ordered x) (is_ordered o.order_id) (sell tx_hash) s.goods
                  (λ a. refl),
            )
            (h.held_once x);
      listed_once = λ x. rw orders (
          omega (
            arith,
            count-delete_le (has_order_id x) (has_order_id o.order_id) s.orders,
            h.listed_once x,
          ));
      sales_settled =
          subst₂ Settled (sym orders) (sym goods)
            (sell-Settled o.order_id tx_hash s.orders s.goods h.sales_settled);
    };
    sales_kept =
        rw goods (sell-KeepsSales o.order_id tx_hash s.orders s.goods listed h.sales_settled);
  }

  same-IsSafe : (s u : Shop) → IsSound s → u ≡ s → IsSafe s u
  same-IsSafe s u h e = rw e (record { sound = h; sales_kept = λ sid o k. omega arith })

  pub process_order-IsSafe :
      (sdk : ℕ → ℕ → Option ChainTx) (s : Shop)
      → IsSound s
      → IsSafe s (after (process_order c now sdk user_id tx_hash) s)
  unfolding process_order
  process_order-IsSafe sdk s h =
      let u : Shop = after (process_order c now sdk user_id tx_hash) s in
      elim (Option-cases (extract_tx_payment_data c (sdk tx_hash))) [
        | inl e ↦ same-IsSafe s u h (ground (arith, e))
        | inr (t, e) ↦ elim (Option-cases (get_order_by_memo c now t.memo s)) [
          | inl e' ↦ same-IsSafe s u h (ground (arith, e, e'))
          | inr (o, e') ↦
              elim (Bool-cases ((t.destination == o.address) && eqb_ℤ t.amount o.kin_amount)) [
                | inr m ↦ same-IsSafe s u h (ground (arith, e, e', m))
                | inl m ↦
                    let run : u ≡ after (redeem_order c now user_id tx_hash o) s =
                      ground (arith, e, e', m) in
                    Redeemed-IsSafe o s u (memo-listed c now t.memo s o e') h
                      (rw run (redeem_order-Redeemed o s))
              ]
        ]
      ]

-- ===== src/Shop/Market/Once.antt =====
-- That a payment is redeemed once, whatever happens in between.
use kin_app_server.Common.{
  ℕ, ◌+◌, ◌≤◌, String, ◌≡◌, ◌≢◌, refl, ap, true, false, Option, some, none, List, [], ◌∷◌, arith,
  inl, inr, Option-cases,
}
use kin_app_server.Common.Table.{count_rows, first_row, select_rows}
use kin_app_server.Action.{ok, after, call-cases}
use kin_app_server.Shop.{Good, Order, Shop, ShopConfig}
use kin_app_server.Shop.Goods.{is_ordered, has_tx_hash, release_good, create_good, finalize_good}
use kin_app_server.Shop.Offers.{set_locked_offers}
use kin_app_server.Shop.Orders.{
  has_expired, create_order, create_tx, delete_order, finalize_paid, ChainTx,
  extract_tx_payment_data, get_order_by_memo, redeem_order, process_order, redeemed,
}
use kin_app_server.Shop.Orders.Redeem.{process_order-redeemed}
use kin_app_server.Shop.Sweep.{is_unclaimed, sweep, release_unclaimed_goods}
use kin_app_server.Shop.Market.{Step, Reach, book, redeem, restock, time_out, here, next}
use kin_app_server.Shop.Market.Book.{
  given, with_order, unchanged, leaked, done, create_order-Booked,
}

-- The number of transactions under the hash.
abbrev recorded : ℕ → Shop → ℕ
recorded h s = count_rows (has_tx_hash h) s.txs

module _ (c : ShopConfig) (h : ℕ) where
  book-recorded :
      (now : ℕ) (order_id : String) (user_id offer_id : ℕ) (s : Shop)
      → recorded h s ≤ recorded h (after (create_order c now order_id user_id offer_id) s)
  unfolding given with_order
  book-recorded now order_id user_id offer_id s =
      elim (create_order-Booked c now order_id user_id offer_id s) [
        | unchanged e ↦ rw e (omega arith)
        | leaked g e none_held made ↦ rw made (omega arith)
        | done g p e none_held new made ↦ rw made (omega arith)
      ]

  redeem_order-recorded :
      (now user_id tx_hash : ℕ) (o : Order) (s : Shop)
      → recorded h s ≤ recorded h (after (redeem_order c now user_id tx_hash o) s)
  unfolding redeem_order finalize_paid create_tx finalize_good delete_order set_locked_offers
  redeem_order-recorded now user_id tx_hash o s =
      elim (Option-cases (first_row (is_ordered o.order_id) s.goods)) [
        | inl e ↦ ground (arith, e)
        | inr (g, e) ↦ ground (arith, e)
      ]

  redeem-recorded :
      (now : ℕ) (sdk : ℕ → ℕ → Option ChainTx) (user_id tx_hash : ℕ) (s : Shop)
      → recorded h s ≤ recorded h (after (process_order c now sdk user_id tx_hash) s)
  unfolding process_order
  redeem-recorded now sdk user_id tx_hash s =
      elim (Option-cases (extract_tx_payment_data c (sdk tx_hash))) [
        | inl e ↦ ground (arith, e)
        | inr (t, e) ↦ elim (Option-cases (get_order_by_memo c now t.memo s)) [
          | inl e' ↦ ground (arith, e, e')
          | inr (o, e') ↦ ground (arith, e, e', redeem_order-recorded now user_id tx_hash o s)
        ]
      ]

  sweep-txs :
      (now : ℕ) (goods : List Good) (released : ℕ) (s : Shop)
      → (after (sweep c now goods released) s).txs ≡ s.txs
  unfolding sweep release_good
  sweep-txs now [] released s = refl
  sweep-txs now (g ∷ gs) released s = elim (Option-cases g.order_id) [
    | inl e ↦ ground (arith, e, sweep-txs now gs released s)
    | inr (p, e) ↦ elim (call-cases (has_expired c now p s)) [
      | inr (x, t, stop) ↦ ground (arith, e, stop)
      | inl (false, t, fresh) ↦ ground (arith, e, fresh, sweep-txs now gs released s)
      | inl (true, t, old) ↦
          ground (arith, e, old, sweep-txs now gs (released + 1) (after (release_good p) s))
    ]
  ]

  Step-recorded : {s t : Shop} → Step c s t → recorded h s ≤ recorded h t
  unfolding create_good release_unclaimed_goods
  Step-recorded (book now order_id user_id offer_id s) =
      book-recorded now order_id user_id offer_id s
  Step-recorded (redeem now sdk user_id tx_hash s) = redeem-recorded now sdk user_id tx_hash s
  Step-recorded (Step.sweep now s) =
      rw (sweep-txs now (select_rows is_unclaimed s.goods) 0 s) (omega arith)
  Step-recorded (restock none good_type value extra_info now s) = omega arith
  Step-recorded (restock (some f) good_type value extra_info now s) = ground arith
  Step-recorded (time_out user_id s) = omega arith

  Reach-recorded : (s t : Shop) → Reach c s t → recorded h s ≤ recorded h t
  Reach-recorded s _ here = omega arith
  Reach-recorded s _ (next {t = t} {u = u} r step) =
      omega (arith, Reach-recorded s t r, Step-recorded step)

-- Once `process_order` has handed over goods for a transaction hash, it hands over none for that
-- hash again: not after any sequence of bookings, redemptions, sweeps, new goods and cache
-- timeouts, at no time, for no user, and whatever the blockchain then says of the hash.
pub process_order-once :
    (c : ShopConfig) (now later : ℕ) (sdk sdk' : ℕ → ℕ → Option ChainTx) (user_id other tx_hash : ℕ)
    (s s' t : Shop) (gs gs' : List (String × String))
    → process_order c now sdk user_id tx_hash s ≡ (ok (redeemed gs), s')
    → Reach c s' t
    → (process_order c later sdk' other tx_hash t).0 ≢ ok (redeemed gs')
process_order-once c now later sdk sdk' user_id other tx_hash s s' t gs gs' first r again =
    let (_, o, _, _, _, _, _, was) =
      process_order-redeemed c now user_id tx_hash sdk s s' gs first in
    let t' : Shop = after (process_order c later sdk' other tx_hash) t in
    let pair : process_order c later sdk' other tx_hash t ≡ (ok (redeemed gs'), t') =
      ap (λ x. (x, t')) again in
    let (_, _, _, _, _, _, _, is) =
      process_order-redeemed c later other tx_hash sdk' t t' gs' pair in
    let listed : 1 ≤ recorded tx_hash s' = rw was.recorded (ground arith) in
    omega (arith, listed, Reach-recorded c tx_hash s' t r, is.new_payment)

-- ===== src/Shop/Goods/Release.antt =====
-- `release_good`, alone and after `allocate_good`, and the unique order ids under each operation.
use kin_app_server.Common.{
  ℕ, ◌+◌, String, ◌≡◌, ◌≢◌, refl, Bool, true, false, ◌==◌, some, arith, eq_iff, inl, inr, ltb,
  Option-cases, Bool-cases,
}
use kin_app_server.Common.Table.{
  count_rows, first_row, first_row-of_one, count-update_first_same, update_first-undo,
}
use kin_app_server.Action.{Result, ok, err, after}
use kin_app_server.Shop.{Shop, Good}
use kin_app_server.Shop.Goods.{
  is_free, is_ordered, of_offer, assign, clear, sell, allocate_good, release_good, finalize_good,
  count_total_goods, count_available_goods,
}
use kin_app_server.Shop.Goods.Rows.{
  OrdersUnique, available-assign, ordered-assign, ordered-clear, available-clear, ordered-clear_le,
  ordered-clear_ne,
}

-- What has changed once the good of an order is back in the pool.
pub record IsReleased (order_id : String) (s s' : Shop) : Type 0 where
  pub was_held : count_rows (is_ordered order_id) s.goods ≡ 1
  pub not_held : count_rows (is_ordered order_id) s'.goods ≡ 0
  pub freed :
      (g : Good)
      → first_row (is_ordered order_id) s.goods ≡ some g
      → count_available_goods g.offer_id s' ≡ count_available_goods g.offer_id s + 1
  pub total_same : (f : ℕ) → count_total_goods f s' ≡ count_total_goods f s
  pub others_keep :
      (o : String)
      → o ≢ order_id
      → count_rows (is_ordered o) s'.goods ≡ count_rows (is_ordered o) s.goods
  pub rest_same : s' ≡ record s { goods = s'.goods }

abbrev pub ReleaseOutcome : String → Shop → Result Bool × Shop → Type 0
ReleaseOutcome order_id s (ok true, s') = IsReleased order_id s s'
ReleaseOutcome order_id s (ok false, s') = (s' ≡ s) × (count_rows (is_ordered order_id) s.goods ≢ 1)
ReleaseOutcome order_id s (err e, s') = ⊥

-- A call of `release_good` never raises. It returns False and changes nothing unless exactly one
-- good has the order id; otherwise that good's offer has one more good available, no good has the
-- order id, every other order id is on as many goods as before, no total and no other table
-- changes.
pub release_good_lem :
    (order_id : String) (s : Shop) → ReleaseOutcome order_id s (release_good order_id s)
unfolding release_good count_available_goods count_total_goods
release_good_lem order_id s = elim (Bool-cases (count_rows (is_ordered order_id) s.goods == 1)) [
  | inl one ↦ elim (Option-cases (first_row (is_ordered order_id) s.goods)) [
    | inl e ↦ absurd (first_row-of_one (is_ordered order_id) s.goods (ground arith) e)
    | inr (g, e) ↦ rw one (record {
      was_held = ground arith;
      not_held = ground (arith, ordered-clear order_id s.goods g e);
      freed = λ h eh. available-clear order_id s.goods h eh;
      total_same =
          λ f. count-update_first_same (of_offer f) (is_ordered order_id) clear s.goods (λ a. refl);
      others_keep = λ o ne. ordered-clear_ne o order_id s.goods ne;
      rest_same = refl;
    })
  ]
  | inr other ↦ rw other (refl, ground arith)
]

back_to_free :
    (offer_id : ℕ) (order_id : String) (g : Good)
    → is_free offer_id g ≡ true
    → clear (assign order_id g) ≡ g
back_to_free offer_id order_id g h = ground arith

-- Releasing the order id that `allocate_good` has just given out succeeds, and gives back exactly
-- the state before the allocation.
pub release-allocate :
    (offer_id : ℕ) (order_id : String) (sid : ℕ) (s s' : Shop)
    → allocate_good offer_id order_id s ≡ (ok (some sid), s')
    → release_good order_id s' ≡ (ok true, s)
unfolding allocate_good release_good
release-allocate offer_id order_id sid s s' h =
    elim (Option-cases (first_row (is_free offer_id) s.goods)) [
      | inl e ↦ ground arith
      | inr (g, e) ↦ elim (Bool-cases (ltb 0 (count_rows (is_ordered order_id) s.goods))) [
        | inl taken ↦ ground arith
        | inr fresh ↦ ground (
          arith,
          ordered-assign offer_id order_id s.goods g e order_id,
          eq_iff order_id order_id,
          update_first-undo (is_free offer_id) (is_ordered order_id) (assign order_id) clear s.goods
              (ground arith) (λ a _. (eq_iff order_id order_id).1 refl)
              (back_to_free offer_id order_id)
              (omega (arith, available-assign offer_id order_id s.goods g e)),
        )
      ]
    ]

allocate-OrdersUnique :
    (offer_id : ℕ) (order_id : String) (s : Shop)
    → OrdersUnique s.goods
    → OrdersUnique (after (allocate_good offer_id order_id) s).goods
unfolding allocate_good
allocate-OrdersUnique offer_id order_id s h o =
    elim (Option-cases (first_row (is_free offer_id) s.goods)) [
      | inl e ↦ ground (arith, h o)
      | inr (g, e) ↦
          ground (arith, h o, ordered-assign offer_id order_id s.goods g e o, eq_iff order_id o)
    ]

release-OrdersUnique :
    (order_id : String) (s : Shop)
    → OrdersUnique s.goods
    → OrdersUnique (after (release_good order_id) s).goods
unfolding release_good
release-OrdersUnique order_id s h o = ground (arith, h o, ordered-clear_le o order_id s.goods)

finalize-OrdersUnique :
    (order_id : String) (tx_hash : ℕ) (s : Shop)
    → OrdersUnique s.goods
    → OrdersUnique (after (finalize_good order_id tx_hash) s).goods
unfolding finalize_good
finalize-OrdersUnique order_id tx_hash s h o = ground (
  arith,
  h o,
  count-update_first_same (is_ordered o) (is_ordered order_id) (sell tx_hash) s.goods (λ a. refl),
)

-- If no order id is on two goods, then none is after `allocate_good`, after `release_good` and
-- after `finalize_good`, whichever way the call ends.
pub goods-OrdersUnique :
    (offer_id : ℕ) (order_id : String) (tx_hash : ℕ) (s : Shop)
    → OrdersUnique s.goods
    → OrdersUnique (after (allocate_good offer_id order_id) s).goods
      × OrdersUnique (after (release_good order_id) s).goods
      × OrdersUnique (after (finalize_good order_id tx_hash) s).goods
goods-OrdersUnique offer_id order_id tx_hash s h = (
  allocate-OrdersUnique offer_id order_id s h,
  release-OrdersUnique order_id s h,
  finalize-OrdersUnique order_id tx_hash s h,
)

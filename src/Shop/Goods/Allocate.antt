-- ===== src/Shop/Goods/Allocate.antt =====
-- `allocate_good` on each of its branches, and the allocation that `release_good` takes back.
use kin_app_server.Common.{
  ℕ, ◌+◌, ◌<◌, String, ◌≡◌, ◌≢◌, refl, true, false, Option, none, some, arith, eq_iff, inl, inr,
  ltb, Option-cases, Bool-cases,
}
use kin_app_server.Common.Table.{
  count_rows, first_row, update_first, first_row-none, count-update_first_same,
}
use kin_app_server.Action.{Result, ok, err, internal_error}
use kin_app_server.Shop.{Good, Shop}
use kin_app_server.Shop.Goods.{
  is_free, is_ordered, of_offer, assign, allocate_good, count_total_goods, count_available_goods,
}
use kin_app_server.Shop.Goods.Rows.{available-assign, ordered-assign}

-- What has changed once a good is given to an order.
pub record IsAllocated (offer_id : ℕ) (order_id : String) (s s' : Shop) : Type 0 where
  pub one_less : count_available_goods offer_id s' + 1 ≡ count_available_goods offer_id s
  pub total_same : (f : ℕ) → count_total_goods f s' ≡ count_total_goods f s
  pub not_held : count_rows (is_ordered order_id) s.goods ≡ 0
  pub held : count_rows (is_ordered order_id) s'.goods ≡ 1
  pub others_keep :
      (o : String)
      → o ≢ order_id
      → count_rows (is_ordered o) s'.goods ≡ count_rows (is_ordered o) s.goods
  pub rest_same : s' ≡ record s { goods = s'.goods }

module _ (offer_id : ℕ) (order_id : String) (s : Shop) where
  allocate_good-sold_out :
      first_row (is_free offer_id) s.goods ≡ none → allocate_good offer_id order_id s ≡ (ok none, s)
  unfolding allocate_good
  allocate_good-sold_out e = ground (arith, e)

  allocate_good-taken :
      (g : Good)
      → first_row (is_free offer_id) s.goods ≡ some g
      → ltb 0 (count_rows (is_ordered order_id) s.goods) ≡ true
      → allocate_good offer_id order_id s
        ≡ (err (internal_error "cant allocate good for order_id"), s)
  unfolding allocate_good
  allocate_good-taken g e taken = ground (arith, e, taken)

  allocate_good-fresh :
      (g : Good)
      → first_row (is_free offer_id) s.goods ≡ some g
      → ltb 0 (count_rows (is_ordered order_id) s.goods) ≡ false
      → allocate_good offer_id order_id s ≡ (
        ok (some g.sid),
        record s { goods = update_first (is_free offer_id) (assign order_id) s.goods },
      )
  unfolding allocate_good
  allocate_good-fresh g e fresh = ground (arith, e, fresh)

abbrev pub AllocateOutcome : ℕ → String → Shop → Result (Option ℕ) × Shop → Type 0
AllocateOutcome offer_id order_id s (ok none, s') =
    (s' ≡ s) × (count_available_goods offer_id s ≡ 0)
AllocateOutcome offer_id order_id s (ok (some sid), s') = IsAllocated offer_id order_id s s'
AllocateOutcome offer_id order_id s (err e, s') =
    (s' ≡ s)
    × (0 < count_rows (is_ordered order_id) s.goods)
    × (0 < count_available_goods offer_id s)

-- A call of `allocate_good` returns None and changes nothing where no good of the offer is free;
-- raises and changes nothing where a good is free and the order id is taken; and otherwise gives
-- one free good to the order: one good fewer is available for the offer, no total changes, the
-- order id is on exactly one good, every other order id is on as many goods as before, and no
-- other table changes.
pub allocate_good_lem :
    (offer_id : ℕ) (order_id : String) (s : Shop)
    → AllocateOutcome offer_id order_id s (allocate_good offer_id order_id s)
unfolding count_available_goods count_total_goods
allocate_good_lem offer_id order_id s = elim (Option-cases (first_row (is_free offer_id) s.goods)) [
  | inl e ↦
      rw (allocate_good-sold_out offer_id order_id s e)
        (refl, first_row-none (is_free offer_id) s.goods e)
  | inr (g, e) ↦ elim (Bool-cases (ltb 0 (count_rows (is_ordered order_id) s.goods))) [
    | inl taken ↦
        rw (allocate_good-taken offer_id order_id s g e taken)
          (refl, ground arith, omega (arith, available-assign offer_id order_id s.goods g e))
    | inr fresh ↦ rw (allocate_good-fresh offer_id order_id s g e fresh) (record {
      one_less = available-assign offer_id order_id s.goods g e;
      total_same = λ f.
          count-update_first_same (of_offer f) (is_free offer_id) (assign order_id) s.goods
            (λ a. refl);
      not_held = ground arith;
      held =
          ground (
            arith,
            ordered-assign offer_id order_id s.goods g e order_id,
            eq_iff order_id order_id,
          );
      others_keep =
          λ o ne. ground (arith, ordered-assign offer_id order_id s.goods g e o, eq_iff order_id o);
      rest_same = refl;
    })
  ]
]

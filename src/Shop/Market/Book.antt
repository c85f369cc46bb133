-- ===== src/Shop/Market/Book.antt =====
-- A booking keeps the invariant and every sale, on each of its outcomes.
use kin_app_server.Common.{
  ℕ, String, ◌≡◌, true, false, Bool, ◌||◌, some, List, ◌∷◌, arith, eq_iff, inl, inr, Bool-cases,
  Option-cases, ◌==◌, ltb, leb,
}
use kin_app_server.Common.Int.{ℤ}
use kin_app_server.Common.Table.{count_rows, first_row, update_first}
use kin_app_server.Action.{after}
use kin_app_server.Shop.{Good, Offer, Shop, ShopConfig}
use kin_app_server.Shop.Goods.{is_free, is_ordered, assign, has_offer_id, allocate_good}
use kin_app_server.Shop.Goods.Rows.{OrdersUnique, ordered-assign}
use kin_app_server.Shop.Offers.{get_cost_and_address}
use kin_app_server.Shop.Orders.{has_order_id, is_active_for, create_order}
use kin_app_server.Shop.Orders.Create.{new_order}
use kin_app_server.Shop.Market.{IsSound, IsSafe}
use kin_app_server.Shop.Market.Rows.{book-Settled, assign-Settled, assign-KeepsSales}

module _ (c : ShopConfig) (now : ℕ) (order_id : String) (user_id offer_id : ℕ) (s : Shop) where
  unfoldable pub given : List Good
  given = update_first (is_free offer_id) (assign order_id) s.goods

  -- The tables after a booking: as before, with the good given out, or with the order too.
  unfoldable pub with_order : ℤ × ℕ → Shop
  with_order p = record s {
    goods = given;
    orders = new_order c now order_id user_id offer_id s p ∷ s.orders;
  }

  pub data Booked (u : Shop) : Type 0 where
    unchanged : u ≡ s → Booked u
    leaked :
        (g : Good)
        → first_row (is_free offer_id) s.goods ≡ some g
        → count_rows (is_ordered order_id) s.goods ≡ 0
        → u ≡ record s { goods = given }
        → Booked u
    done :
        (g : Good) (p : ℤ × ℕ)
        → first_row (is_free offer_id) s.goods ≡ some g
        → count_rows (is_ordered order_id) s.goods ≡ 0
        → count_rows (has_order_id order_id) s.orders ≡ 0
        → u ≡ with_order p
        → Booked u

  -- The test of the insert: a known order id, an unknown offer, an unknown user.
  abbrev rejected : Bool
  rejected =
      ltb 0 (count_rows (has_order_id order_id) s.orders)
      || (count_rows (has_offer_id offer_id) s.offers == 0)
      || (count_rows (λ u. u == user_id) s.users == 0)

  added :
      (f : Offer) (g : Good)
      → first_row (has_offer_id offer_id) s.offers ≡ some f
      → f.is_active ≡ true
      → first_row (is_free offer_id) s.goods ≡ some g
      → ltb 0 (count_rows (is_ordered order_id) s.goods) ≡ false
      → Booked (after (create_order c now order_id user_id offer_id) s)
  unfolding create_order get_cost_and_address allocate_good given with_order
  added f g e live e' fresh =
      elim (Bool-cases (
        leb c.max_simultaneous_orders_per_user
          (count_rows (is_active_for c now user_id) s.orders))) [
            | inl full ↦ unchanged (ground (arith, full))
            | inr room ↦ elim (Bool-cases rejected) [
              | inl no_row ↦
                  leaked g e' (ground (arith, fresh))
                    (ground (arith, e, e', live, fresh, room, no_row))
              | inr row ↦
                  done g (f.kin_cost, f.address) e' (ground (arith, fresh)) (ground (arith, row))
                    (ground (arith, e, e', live, fresh, room, row))
            ]
          ]

  pub create_order-Booked : Booked (after (create_order c now order_id user_id offer_id) s)
  unfolding create_order get_cost_and_address allocate_good given with_order
  create_order-Booked = elim (Option-cases (first_row (has_offer_id offer_id) s.offers)) [
    | inl e ↦ unchanged (ground (arith, e))
    | inr (f, e) ↦ elim (Bool-cases f.is_active) [
      | inr idle ↦ unchanged (ground (arith, e, idle))
      | inl live ↦ elim (Option-cases (first_row (is_free offer_id) s.goods)) [
        | inl e' ↦ unchanged (ground (arith, e, e'))
        | inr (g, e') ↦ elim (Bool-cases (ltb 0 (count_rows (is_ordered order_id) s.goods))) [
          | inl taken ↦ unchanged (ground (arith, e, e', taken))
          | inr fresh ↦ added f g e live e' fresh
        ]
      ]
    ]
  ]

  given-OrdersUnique :
      (g : Good)
      → first_row (is_free offer_id) s.goods ≡ some g
      → count_rows (is_ordered order_id) s.goods ≡ 0
      → OrdersUnique s.goods
      → OrdersUnique given
  unfolding given
  given-OrdersUnique g e none_held h o =
      ground (arith, h o, ordered-assign offer_id order_id s.goods g e o, eq_iff order_id o)

  Booked-IsSafe : (u : Shop) → IsSound s → Booked u → IsSafe s u
  unfolding given with_order
  Booked-IsSafe u h (unchanged e) = rw e (record { sound = h; sales_kept = λ sid o k. omega arith })
  Booked-IsSafe u h (leaked g e none_held made) = rw made (record {
    sound = record {
      held_once = given-OrdersUnique g e none_held h.held_once;
      listed_once = h.listed_once;
      sales_settled = assign-Settled offer_id order_id s.orders s.goods h.sales_settled;
    };
    sales_kept = assign-KeepsSales offer_id order_id s.goods;
  })
  Booked-IsSafe u h (done g p e none_held new made) =
      let x = new_order c now order_id user_id offer_id s p in
      rw made (record {
        sound = record {
          held_once = given-OrdersUnique g e none_held h.held_once;
          listed_once = λ o. ground (arith, h.listed_once o, new, eq_iff order_id o);
          sales_settled = book-Settled offer_id x s.orders s.goods none_held h.sales_settled;
        };
        sales_kept = assign-KeepsSales offer_id order_id s.goods;
      })

  pub create_order-IsSafe :
      IsSound s → IsSafe s (after (create_order c now order_id user_id offer_id) s)
  create_order-IsSafe h =
      Booked-IsSafe (after (create_order c now order_id user_id offer_id) s) h create_order-Booked

-- ===== src/Shop/Orders/Create.antt =====
-- `create_order`: what a booking changes, and what each refusal means.
use mathlib.Core.Path.{subst}
use kin_app_server.Common.Int.{ℤ}
use kin_app_server.Common.{
  ap, ℕ, ◌+◌, ◌<◌, String, ◌≡◌, false, none, some, List, ◌∷◌, arith, inl, inr, leb, Option-cases,
}
use kin_app_server.Common.Table.{count_rows, first_row}
use kin_app_server.Action.{ok, call-cases}
use kin_app_server.Shop.{Order, Shop, ShopConfig}
use kin_app_server.Shop.Goods.{has_offer_id, allocate_good}
use kin_app_server.Shop.Goods.Allocate.{IsAllocated, AllocateOutcome, allocate_good_lem}
use kin_app_server.Shop.Offers.{get_cost_and_address}
use kin_app_server.Shop.Orders.{is_active_for, has_order_id, booked, create_order}

module _ (c : ShopConfig) (now : ℕ) (order_id : String) (user_id offer_id : ℕ) (s : Shop) where
  abbrev pub new_order : ℤ × ℕ → Order
  new_order (kin_amount, address) = record {
    order_id = order_id;
    offer_id = offer_id;
    user_id = user_id;
    kin_amount = kin_amount;
    address = address;
    created_at = now;
  }

  -- How many orders of the user have not expired.
  abbrev pub active : List Order → ℕ
  active orders = count_rows (is_active_for c now user_id) orders

  -- What has changed once an order is booked.
  pub record IsBooked (s' : Shop) : Type 0 where
    pub under_limit : active s.orders < c.max_simultaneous_orders_per_user
    pub one_more : active s'.orders ≡ active s.orders + 1
    pub fresh : count_rows (has_order_id order_id) s.orders ≡ 0
    pub made :
        (p : ℤ × ℕ) × (t : Shop) × (get_cost_and_address offer_id s ≡ (ok p, s))
        × IsAllocated offer_id order_id s t
        × (s' ≡ record t { orders = new_order p ∷ s.orders })

  booking-allocates :
      (o : String) (s' : Shop)
      → create_order c now order_id user_id offer_id s ≡ (ok (booked o), s')
      → (sid : ℕ) × (t : Shop) × (allocate_good offer_id order_id s ≡ (ok (some sid), t))
        × (o ≡ order_id)
        × (leb c.max_simultaneous_orders_per_user (active s.orders) ≡ false)
  unfolding create_order get_cost_and_address
  booking-allocates o s' h = elim (call-cases (allocate_good offer_id order_id s)) [
    | inl (some sid, t, e) ↦ (sid, t, e, ground (arith, e), ground (arith, e))
    | inl (none, t, e) ↦ absurd (ground (arith, e))
    | inr (x, t, e) ↦ absurd (ground (arith, e))
  ]

  booking-priced :
      (o : String) (s' : Shop)
      → create_order c now order_id user_id offer_id s ≡ (ok (booked o), s')
      → (p : ℤ × ℕ) × (get_cost_and_address offer_id s ≡ (ok p, s))
  unfolding create_order get_cost_and_address
  booking-priced o s' h = elim (Option-cases (first_row (has_offer_id offer_id) s.offers)) [
    | inl none_found ↦ absurd (ground arith)
    | inr (f, found) ↦ ((f.kin_cost, f.address), ground arith)
  ]

  booking-adds :
      (o : String) (s' : Shop) (p : ℤ × ℕ) (sid : ℕ) (t : Shop)
      → create_order c now order_id user_id offer_id s ≡ (ok (booked o), s')
      → get_cost_and_address offer_id s ≡ (ok p, s)
      → allocate_good offer_id order_id s ≡ (ok (some sid), t)
      → (count_rows (has_order_id order_id) t.orders ≡ 0)
        × (s' ≡ record t { orders = new_order p ∷ t.orders })
  unfolding create_order
  booking-adds o s' p sid t h eq_cost eq_good = ground arith

  active-new : (p : ℤ × ℕ) (orders : List Order) → active (new_order p ∷ orders) ≡ active orders + 1
  active-new p orders = ground arith

  -- If `create_order` returns an order id, it is the generated one; the user had fewer unexpired
  -- orders than the limit and now has one more; no order had that id; the new order carries the
  -- cost and the address of the active offer; one free good of the offer has been given to it; and
  -- no other table has changed.
  pub create_order-booked :
      (o : String) (s' : Shop)
      → create_order c now order_id user_id offer_id s ≡ (ok (booked o), s')
      → (o ≡ order_id) × IsBooked s'
  create_order-booked o s' h =
      let (sid, t, got, named, room) = booking-allocates o s' h in
      let (p, cost) = booking-priced o s' h in
      let (fresh, made) = booking-adds o s' p sid t h cost got in
      let given : IsAllocated offer_id order_id s t =
        subst (AllocateOutcome offer_id order_id s) got (allocate_good_lem offer_id order_id s) in
      let same : t.orders ≡ s.orders = ap (λ (x : Shop). x.orders) given.rest_same in
      (
        named,
        rw made (record {
          under_limit = ground (arith, room);
          one_more = rw same (active-new p s.orders);
          fresh = rw (← same) fresh;
          made = (p, t, cost, given, ap (λ l. record t { orders = new_order p ∷ l }) same);
        }),
      )

-- ===== src/Shop/Market/Rows.antt =====
-- The updates of the goods' table, seen by the invariant.
use kin_app_server.Common.{
  ℕ, ◌≤◌, String, ◌≡◌, refl, true, none, List, [], ◌∷◌, arith, eq_iff, inl, inr, Bool-cases,
  Option-cases,
}
use kin_app_server.Common.Table.{
  count_rows, update_first, delete_rows, count-delete_le, count-delete_rows,
}
use kin_app_server.Shop.{Good, Order}
use kin_app_server.Shop.Goods.{is_free, is_ordered, assign, clear, sell}
use kin_app_server.Shop.Orders.{has_order_id}
use kin_app_server.Shop.Market.{is_settled, Settled, KeepsSales}

-- Giving a free good to an order that no good has.
pub assign-Settled :
    (f : ℕ) (order_id : String) (orders : List Order) (goods : List Good)
    → Settled orders goods
    → Settled orders (update_first (is_free f) (assign order_id) goods)
assign-Settled f order_id orders [] h = tt
assign-Settled f order_id orders (g ∷ gs) h =
    ground (arith, assign-Settled f order_id orders gs h.1)

-- A new order of an id that no good has settles nothing that was sold before.
order-Settled :
    (x : Order) (orders : List Order) (goods : List Good)
    → count_rows (is_ordered x.order_id) goods ≡ 0
    → Settled orders goods
    → Settled (x ∷ orders) goods
order-Settled x orders [] none_held h = tt
order-Settled x orders (g ∷ gs) none_held h =
    let ih = order-Settled x orders gs (ground arith) h.1 in
    elim (Option-cases g.order_id) [
      | inl e ↦ ground (arith, e, ih)
      | inr (o, e) ↦ ground (arith, e, ih, eq_iff o x.order_id, eq_iff x.order_id o)
    ]

pub book-Settled :
    (f : ℕ) (x : Order) (orders : List Order) (goods : List Good)
    → count_rows (is_ordered x.order_id) goods ≡ 0
    → Settled orders goods
    → Settled (x ∷ orders) (update_first (is_free f) (assign x.order_id) goods)
book-Settled f x orders goods none_held h =
    assign-Settled f x.order_id (x ∷ orders) goods (order-Settled x orders goods none_held h)

pub assign-KeepsSales :
    (f : ℕ) (order_id : String) (goods : List Good)
    → KeepsSales goods (update_first (is_free f) (assign order_id) goods)
assign-KeepsSales f order_id [] sid o h = omega arith
assign-KeepsSales f order_id (g ∷ gs) sid o h =
    ground (arith, assign-KeepsSales f order_id gs sid o h)

-- The good of an order that is still in the table is not sold.
unsold :
    (order_id : String) (orders : List Order) (g : Good)
    → 1 ≤ count_rows (has_order_id order_id) orders
    → is_settled orders g ≡ true
    → is_ordered order_id g ≡ true
    → g.tx_hash ≡ none
unsold order_id orders g listed h hit = elim (Option-cases g.order_id) [
  | inl e ↦ absurd (ground (arith, e))
  | inr (o, e) ↦
      let same : o ≡ order_id = ground (arith, e, eq_iff o order_id) in
      let count : count_rows (has_order_id o) orders ≡ count_rows (has_order_id order_id) orders =
        rw same refl in
      ground (arith, e, count)
]

pub sell-KeepsSales :
    (order_id : String) (tx_hash : ℕ) (orders : List Order) (goods : List Good)
    → 1 ≤ count_rows (has_order_id order_id) orders
    → Settled orders goods
    → KeepsSales goods (update_first (is_ordered order_id) (sell tx_hash) goods)
sell-KeepsSales order_id tx_hash orders [] listed st sid o h = omega arith
sell-KeepsSales order_id tx_hash orders (g ∷ gs) listed st sid o h =
    let ih = sell-KeepsSales order_id tx_hash orders gs listed st.1 sid o h in
    elim (Bool-cases (is_ordered order_id g)) [
      | inl hit ↦ rw hit (ground (arith, ih, unsold order_id orders g listed st.0 hit))
      | inr miss ↦ rw miss (omega (arith, ih))
    ]

pub clear-KeepsSales :
    (order_id : String) (orders : List Order) (goods : List Good)
    → 1 ≤ count_rows (has_order_id order_id) orders
    → Settled orders goods
    → KeepsSales goods (update_first (is_ordered order_id) clear goods)
clear-KeepsSales order_id orders [] listed st sid o h = omega arith
clear-KeepsSales order_id orders (g ∷ gs) listed st sid o h =
    let ih = clear-KeepsSales order_id orders gs listed st.1 sid o h in
    elim (Bool-cases (is_ordered order_id g)) [
      | inl hit ↦ rw hit (ground (arith, ih, unsold order_id orders g listed st.0 hit))
      | inr miss ↦ rw miss (omega (arith, ih))
    ]

pub clear-Settled :
    (order_id : String) (orders : List Order) (goods : List Good)
    → 1 ≤ count_rows (has_order_id order_id) orders
    → Settled orders goods
    → Settled orders (update_first (is_ordered order_id) clear goods)
clear-Settled order_id orders [] listed st = tt
clear-Settled order_id orders (g ∷ gs) listed st =
    let ih = clear-Settled order_id orders gs listed st.1 in
    elim (Bool-cases (is_ordered order_id g)) [
      | inl hit ↦ rw hit (ground (arith, unsold order_id orders g listed st.0 hit), st.1)
      | inr miss ↦ rw miss (st.0, ih)
    ]

delete-Settled :
    (order_id : String) (orders : List Order) (goods : List Good)
    → Settled orders goods
    → Settled (delete_rows (has_order_id order_id) orders) goods
delete-Settled order_id orders [] st = tt
delete-Settled order_id orders (g ∷ gs) st =
    let ih = delete-Settled order_id orders gs st.1 in
    elim (Option-cases g.order_id) [
      | inl e ↦ ground (arith, e, ih)
      | inr (o, e) ↦
          ground (arith, e, ih, count-delete_le (has_order_id o) (has_order_id order_id) orders)
    ]

pub sell-Settled :
    (order_id : String) (tx_hash : ℕ) (orders : List Order) (goods : List Good)
    → Settled orders goods
    → Settled
        (delete_rows (has_order_id order_id) orders)
        (update_first (is_ordered order_id) (sell tx_hash) goods)
sell-Settled order_id tx_hash orders [] st = tt
sell-Settled order_id tx_hash orders (g ∷ gs) st =
    let ih = sell-Settled order_id tx_hash orders gs st.1 in
    let rest = delete-Settled order_id orders (g ∷ gs) st in
    elim (Bool-cases (is_ordered order_id g)) [
      | inl hit ↦ rw hit (sold_now g hit, rest.1)
      | inr miss ↦ rw miss (rest.0, ih)
    ]
  where
    sold_now :
        (x : Good)
        → is_ordered order_id x ≡ true
        → is_settled (delete_rows (has_order_id order_id) orders) (sell tx_hash x) ≡ true
    sold_now x hit = elim (Option-cases x.order_id) [
      | inl e ↦ absurd (ground (arith, e))
      | inr (o, e) ↦
          let same : o ≡ order_id = ground (arith, e, eq_iff o order_id) in
          let count : count_rows (has_order_id o) (delete_rows (has_order_id order_id) orders) ≡ 0 =
            rw same (count-delete_rows (has_order_id order_id) orders) in
          ground (arith, e, count)
    ]

-- ===== src/Shop/Goods/Rows.antt =====
-- What the updates of good.py do to the counts of rows.
use kin_app_server.Common.{
  ℕ, ◌+◌, ◌≤◌, String, ◌≡◌, some, List, [], ◌∷◌, arith, refl, ap, ◌≢◌, inl, inr, eq_iff,
  Option-cases, str_eq, one_if,
}
use kin_app_server.Common.Table.{
  count_rows, first_row, update_first, first_row-holds, count-update_first,
}
use kin_app_server.Shop.{Good}
use kin_app_server.Shop.Goods.{is_free, is_ordered, assign, clear}

-- No order id stands on two goods: the unique column `order_id`.
abbrev pub OrdersUnique : List Good → Type 0
OrdersUnique goods = (o : String) → count_rows (is_ordered o) goods ≤ 1

module _ (offer_id : ℕ) (order_id : String) (goods : List Good) (g : Good)
    (found : first_row (is_free offer_id) goods ≡ some g) where
  pub available-assign :
      count_rows (is_free offer_id) (update_first (is_free offer_id) (assign order_id) goods) + 1
      ≡ count_rows (is_free offer_id) goods
  available-assign = ground (
    arith,
    count-update_first (is_free offer_id) (is_free offer_id) (assign order_id) goods g found,
    first_row-holds (is_free offer_id) goods g found,
  )

  pub ordered-assign :
      (o : String)
      → count_rows (is_ordered o) (update_first (is_free offer_id) (assign order_id) goods)
        ≡ count_rows (is_ordered o) goods + one_if (str_eq order_id o)
  ordered-assign o = ground (
    arith,
    count-update_first (is_ordered o) (is_free offer_id) (assign order_id) goods g found,
    first_row-holds (is_free offer_id) goods g found,
  )

module _ (order_id : String) (goods : List Good) (g : Good)
    (found : first_row (is_ordered order_id) goods ≡ some g) where
  pub ordered-clear :
      count_rows (is_ordered order_id) (update_first (is_ordered order_id) clear goods) + 1
      ≡ count_rows (is_ordered order_id) goods
  ordered-clear = ground (
    arith,
    count-update_first (is_ordered order_id) (is_ordered order_id) clear goods g found,
    first_row-holds (is_ordered order_id) goods g found,
  )

  pub available-clear :
      count_rows (is_free g.offer_id) (update_first (is_ordered order_id) clear goods)
      ≡ count_rows (is_free g.offer_id) goods + 1
  available-clear = ground (
    arith,
    count-update_first (is_free g.offer_id) (is_ordered order_id) clear goods g found,
    first_row-holds (is_ordered order_id) goods g found,
  )

-- Clearing a good's order id raises no count of holders.
pub ordered-clear_le :
    (o order_id : String) (goods : List Good)
    → count_rows (is_ordered o) (update_first (is_ordered order_id) clear goods)
      ≤ count_rows (is_ordered o) goods
ordered-clear_le o order_id [] = omega arith
ordered-clear_le o order_id (g ∷ gs) = ground (arith, ordered-clear_le o order_id gs)

pub ordered-clear_ne :
    (o order_id : String) (goods : List Good)
    → o ≢ order_id
    → count_rows (is_ordered o) (update_first (is_ordered order_id) clear goods)
      ≡ count_rows (is_ordered o) goods
ordered-clear_ne o order_id [] h = refl
ordered-clear_ne o order_id (g ∷ gs) h = elim (Option-cases g.order_id) [
  | inl e ↦ rw e (ap (λ n. 0 + n) (ordered-clear_ne o order_id gs h))
  | inr (p, e) ↦ ground (arith, e, ordered-clear_ne o order_id gs h, eq_iff p o, eq_iff p order_id)
]

-- ===== src/Shop/Sweep/Stuck.antt =====
-- What one good without an order does to every sweep.
use mathlib.Core.Path.{subst}
use kin_app_server.Common.{
  ℕ, ◌+◌, String, ◌≡◌, ◌≢◌, sym, true, false, none, some, List, [], ◌∷◌, ◌++◌, arith, inl, inr,
  eq_iff, Bool-cases, Option-cases,
}
use kin_app_server.Common.Table.{count_rows, first_row, select_rows}
use kin_app_server.Action.{Error, err, uncaught, after, call-cases}
use kin_app_server.Shop.{Good, Shop, ShopConfig}
use kin_app_server.Shop.Goods.{is_ordered, release_good}
use kin_app_server.Shop.Goods.Rows.{ordered-clear_ne}
use kin_app_server.Shop.Orders.{has_order_id, has_expired}
use kin_app_server.Shop.Sweep.{is_unclaimed, sweep, release_unclaimed_goods}

-- Freeing the good of one order leaves the orders, and the goods of every other order.
release-other :
    (p q : String) (s : Shop)
    → p ≢ q
    → ((after (release_good q) s).orders ≡ s.orders)
      × (count_rows (is_ordered p) (after (release_good q) s).goods
          ≡ count_rows (is_ordered p) s.goods)
unfolding release_good
release-other p q s ne = ground (arith, ordered-clear_ne p q s.goods ne)

module _ (c : ShopConfig) (now : ℕ) where
  has_expired-uncaught :
      (q : String) (s t : Shop) (e : Error) → has_expired c now q s ≡ (err e, t) → e ≡ uncaught
  unfolding has_expired
  has_expired-uncaught q s t e h = elim (Option-cases (first_row (has_order_id q) s.orders)) [
    | inl none_listed ↦ ground (arith, none_listed)
    | inr (x, listed) ↦ ground (arith, listed)
  ]

  module _ (g : Good) (rest : List Good) (o p : String) (unsold : g.tx_hash ≡ none)
      (held : g.order_id ≡ some o) where
    sweep-stuck :
        (before : List Good) (released : ℕ) (s : Shop)
        → first_row (has_order_id o) s.orders ≡ none
        → count_rows (is_ordered p) before ≡ 0
        → ((sweep c now (select_rows is_unclaimed (before ++ g ∷ rest)) released s).0
            ≡ err uncaught)
          × (count_rows
                (is_ordered p)
                (after
                  (sweep c now (select_rows is_unclaimed (before ++ g ∷ rest)) released)
                  s).goods
              ≡ count_rows (is_ordered p) s.goods)
    unfolding sweep has_expired
    sweep-stuck [] released s lost other = ground (arith, unsold, held, lost)
    sweep-stuck (x ∷ before) released s lost other = elim (Bool-cases (is_unclaimed x)) [
      | inr sold ↦ ground (arith, sold, sweep-stuck before released s lost (ground (arith, other)))
      | inl unclaimed ↦ elim (Option-cases x.order_id) [
        | inl e ↦ absurd (ground (arith, e))
        | inr (q, e) ↦ elim (call-cases (has_expired c now q s)) [
          | inr (y, t, stop) ↦ ground (arith, e, unclaimed, stop, has_expired-uncaught q s t y stop)
          | inl (false, t, fresh) ↦ ground (
            arith,
            e,
            unclaimed,
            fresh,
            sweep-stuck before released s lost (ground (arith, other)),
          )
          | inl (true, t, old) ↦
              let v : Shop = after (release_good q) s in
              let ne : p ≢ q = λ same. ground (arith, e, other, eq_iff q p, same) in
              let k = release-other p q s ne in
              ground (
                arith,
                e,
                unclaimed,
                old,
                k,
                sweep-stuck before (released + 1) v (rw k.0 lost) (ground (arith, other)),
              )
        ]
      ]
    ]

-- If an unclaimed good, wherever it stands in the table, holds an order id that no order has, then
-- every sweep, at whatever time, raises; and it frees no good of an order id that no good before
-- that one holds, however long ago the order expired.
pub release_unclaimed_goods-stuck :
    (c : ShopConfig) (now : ℕ) (before : List Good) (g : Good) (rest : List Good) (o p : String)
    (s : Shop)
    → s.goods ≡ before ++ g ∷ rest
    → g.tx_hash ≡ none
    → g.order_id ≡ some o
    → first_row (has_order_id o) s.orders ≡ none
    → count_rows (is_ordered p) before ≡ 0
    → ((release_unclaimed_goods c now s).0 ≡ err uncaught)
      × (count_rows (is_ordered p) (after (release_unclaimed_goods c now) s).goods
          ≡ count_rows (is_ordered p) s.goods)
unfolding release_unclaimed_goods
release_unclaimed_goods-stuck c now before g rest o p s here unsold held lost other =
    subst
      (λ l.
        ((sweep c now (select_rows is_unclaimed l) 0 s).0 ≡ err uncaught)
        × (count_rows (is_ordered p) (after (sweep c now (select_rows is_unclaimed l) 0) s).goods
            ≡ count_rows (is_ordered p) s.goods))
      (sym here) (sweep-stuck c now g rest o p unsold held before 0 s lost other)

-- ===== src/Shop/Sweep/Loop.antt =====
-- The sweep does in one pass over the table what it does good by good.
use mathlib.Core.List.{append_assoc, append-nil}
use kin_app_server.Common.{
  ℕ, ◌+◌, ◌≤◌, String, ◌≡◌, ap, refl, ◌∙◌, sym, Bool, true, false, ◌&&◌, ◌||◌, none, some, List, [],
  ◌∷◌, ◌++◌, map, ◌==◌, if◌then◌else◌, is_none, is_some, arith, All, eq_iff, inl, inr, Option-cases,
  Bool-cases,
}
use kin_app_server.Common.Table.{count_rows, first_row, select_rows, update_first, first_row-of_one}
use kin_app_server.Action.{ok, after}
use kin_app_server.Shop.{Good, Order, Shop, ShopConfig}
use kin_app_server.Shop.Goods.{is_ordered, clear, release_good}
use kin_app_server.Shop.Goods.Rows.{OrdersUnique, ordered-clear_le}
use kin_app_server.Shop.Orders.{has_order_id, is_stale, has_expired}
use kin_app_server.Shop.Sweep.{is_unclaimed, sweep, release_unclaimed_goods}

-- An unclaimed good whose order is stale.
abbrev pub is_overdue : ShopConfig → ℕ → List Order → Good → Bool
is_overdue c now orders g = elim g.order_id [
  | none ↦ false
  | some o ↦
      is_none g.tx_hash
      && elim (first_row (has_order_id o) orders) [ none ↦ false | some x ↦ is_stale c now x ]
]

-- The order of an unclaimed good is in the table.
abbrev pub order_known : List Order → Good → Bool
order_known orders g = elim g.order_id [
  | none ↦ true
  | some o ↦ is_some g.tx_hash || (count_rows (has_order_id o) orders == 1)
]

abbrev pub free_overdue : ShopConfig → ℕ → List Order → Good → Good
free_overdue c now orders g = if is_overdue c now orders g then clear g else g

held-append :
    (o : String) (before : List Good) (g : Good) (rest : List Good)
    → g.order_id ≡ some o
    → 1 ≤ count_rows (is_ordered o) (before ++ g ∷ rest)
held-append o [] g rest e = ground (arith, e, eq_iff o o)
held-append o (x ∷ before) g rest e = omega (arith, held-append o before g rest e)

update_first-append :
    (o : String) (before : List Good) (g : Good) (rest : List Good)
    → g.order_id ≡ some o
    → count_rows (is_ordered o) (before ++ g ∷ rest) ≡ 1
    → update_first (is_ordered o) clear (before ++ g ∷ rest) ≡ before ++ clear g ∷ rest
update_first-append o [] g rest e one = ground (arith, e, eq_iff o o)
update_first-append o (x ∷ before) g rest e one = elim (Bool-cases (is_ordered o x)) [
  | inl hit ↦ absurd (ground (arith, hit, held-append o before g rest e))
  | inr miss ↦
      rw miss (ap (λ l. x ∷ l) (update_first-append o before g rest e (ground (arith, miss))))
]

module _ (c : ShopConfig) (now : ℕ) where
  release_at :
      (o : String) (before : List Good) (g : Good) (rest : List Good) (s : Shop)
      → s.goods ≡ before ++ g ∷ rest
      → g.order_id ≡ some o
      → OrdersUnique s.goods
      → after (release_good o) s ≡ record s { goods = before ++ clear g ∷ rest }
  unfolding release_good
  release_at o before g rest s here e unique =
      let one : count_rows (is_ordered o) (before ++ g ∷ rest) ≡ 1 =
        omega (arith, held-append o before g rest e, rw here at (unique o)) in
      let hit : update_first (is_ordered o) clear s.goods ≡ before ++ clear g ∷ rest =
        rw here (update_first-append o before g rest e one) in
      ground (arith, one, hit, here)

  known_order :
      (o : String) (s : Shop)
      → count_rows (has_order_id o) s.orders ≡ 1
      → (x : Order) × (first_row (has_order_id o) s.orders ≡ some x)
        × (has_expired c now o s ≡ (ok (is_stale c now x), s))
  unfolding has_expired
  known_order o s one = elim (Option-cases (first_row (has_order_id o) s.orders)) [
    | inl e ↦ absurd (first_row-of_one (has_order_id o) s.orders one e)
    | inr (x, e) ↦ (x, e, ground (arith, e, one))
  ]

  -- What the loop does to the goods that it has not reached yet.
  Swept : List Good → List Good → ℕ → Shop → Type 0
  Swept before todo released s = sweep c now (select_rows is_unclaimed todo) released s ≡ (
    ok (released + count_rows (is_overdue c now s.orders) todo),
    record s { goods = before ++ map (free_overdue c now s.orders) todo },
  )

  kept :
      (before : List Good) (g : Good) (rest : List Good) (released : ℕ) (s : Shop)
      → is_unclaimed g ≡ false
      → Swept (before ++ g ∷ []) rest released s
      → Swept before (g ∷ rest) released s
  unfolding Swept
  kept before g rest released s skip ih =
      let split = append_assoc before (g ∷ []) (map (free_overdue c now s.orders) rest) in
      elim (Option-cases g.order_id) [
        | inl e ↦ ground (arith, e, ih, split)
        | inr (o, e) ↦ ground (arith, e, ih, split)
      ]

  not_stale :
      (before : List Good) (g : Good) (rest : List Good) (released : ℕ) (s : Shop) (o : String)
      (x : Order)
      → g.order_id ≡ some o
      → g.tx_hash ≡ none
      → first_row (has_order_id o) s.orders ≡ some x
      → has_expired c now o s ≡ (ok (is_stale c now x), s)
      → is_stale c now x ≡ false
      → Swept (before ++ g ∷ []) rest released s
      → Swept before (g ∷ rest) released s
  unfolding Swept sweep
  not_stale before g rest released s o x e unsold row expired fresh ih =
      ground (arith, e, ih, append_assoc before (g ∷ []) (map (free_overdue c now s.orders) rest))

  stale :
      (before : List Good) (g : Good) (rest : List Good) (released : ℕ) (s : Shop) (o : String)
      (x : Order)
      → g.order_id ≡ some o
      → g.tx_hash ≡ none
      → first_row (has_order_id o) s.orders ≡ some x
      → has_expired c now o s ≡ (ok (is_stale c now x), s)
      → is_stale c now x ≡ true
      → after (release_good o) s ≡ record s { goods = before ++ clear g ∷ rest }
      → Swept
          (before ++ clear g ∷ [])
          rest
          (released + 1)
          (record s { goods = before ++ clear g ∷ rest })
      → Swept before (g ∷ rest) released s
  unfolding Swept sweep
  stale before g rest released s o x e unsold row expired old gone ih = ground (
    arith,
    e,
    ih,
    gone,
    append_assoc before (clear g ∷ []) (map (free_overdue c now s.orders) rest),
  )

  known_of :
      (orders : List Order) (g : Good) (o : String)
      → g.order_id ≡ some o
      → g.tx_hash ≡ none
      → order_known orders g ≡ true
      → count_rows (has_order_id o) orders ≡ 1
  known_of orders g o e unsold known = ground arith

  clear-OrdersUnique :
      (o : String) (s : Shop) (goods : List Good)
      → OrdersUnique s.goods
      → after (release_good o) s ≡ record s { goods = goods }
      → OrdersUnique goods
  unfolding release_good
  clear-OrdersUnique o s goods unique gone p =
      let kept : count_rows (is_ordered p) (after (release_good o) s).goods ≤ 1 =
        ground (arith, unique p, ordered-clear_le p o s.goods) in
      rw gone at kept

  sweep_loop :
      (before todo : List Good) (released : ℕ) (s : Shop)
      → s.goods ≡ before ++ todo
      → OrdersUnique s.goods
      → All (λ g. order_known s.orders g ≡ true) todo
      → Swept before todo released s
  unfolding Swept sweep
  sweep_loop before [] released s here unique known = ground (arith, here, append-nil before)
  sweep_loop before (g ∷ rest) released s here unique known =
      let split : s.goods ≡ (before ++ g ∷ []) ++ rest =
        here ∙ sym (append_assoc before (g ∷ []) rest) in
      let ih : Swept (before ++ g ∷ []) rest released s =
        sweep_loop (before ++ g ∷ []) rest released s split unique known.1 in
      elim (Option-cases g.order_id) [
        | inl e ↦ kept before g rest released s (ground (arith, e)) ih
        | inr (o, e) ↦ elim (Option-cases g.tx_hash) [
          | inr (t, sold) ↦ kept before g rest released s (ground (arith, sold)) ih
          | inl unsold ↦
              let (x, row, expired) = known_order o s (known_of s.orders g o e unsold known.0) in
              elim (Bool-cases (is_stale c now x)) [
                | inr fresh ↦ not_stale before g rest released s o x e unsold row expired fresh ih
                | inl old ↦
                    let gone = release_at o before g rest s here e unique in
                    stale before g rest released s o x e unsold row expired old gone (
                      sweep_loop (before ++ clear g ∷ []) rest (released + 1)
                        (record s { goods = before ++ clear g ∷ rest })
                        (sym (append_assoc before (clear g ∷ []) rest))
                        (clear-OrdersUnique o s (before ++ clear g ∷ rest) unique gone) known.1)
              ]
        ]
      ]

  -- If no order id is on two goods, and the order of each unclaimed good is in the table once,
  -- then the sweep does not raise: it returns the number of overdue goods, takes the order id off
  -- exactly those, and changes nothing else.
  pub release_unclaimed_goods_lem :
      (s : Shop)
      → OrdersUnique s.goods
      → All (λ g. order_known s.orders g ≡ true) s.goods
      → release_unclaimed_goods c now s ≡ (
        ok (count_rows (is_overdue c now s.orders) s.goods),
        record s { goods = map (free_overdue c now s.orders) s.goods },
      )
  unfolding release_unclaimed_goods Swept
  release_unclaimed_goods_lem s unique known =
      ground (arith, sweep_loop [] s.goods 0 s refl unique known)

-- ===== src/Shop/Market/Promises.antt =====
-- What is promised: a good that is held under an order id stays held under it, until a sweep finds
-- an order of that id expired. No booking takes it.
use kin_app_server.Common.{
  ℕ, ◌+◌, ◌≤◌, String, ◌≡◌, refl, true, false, Bool, ◌&&◌, Option, some, none, List, [], ◌∷◌, arith,
  inl, inr, eq_iff, Bool-cases, Option-cases, ◌==◌, leb, str_eq, if◌then◌else◌,
}
use kin_app_server.Common.Int.{eqb_ℤ}
use kin_app_server.Common.Table.{
  count_rows, first_row, select_rows, update_first, count-update_first_same, count-delete_le,
}
use kin_app_server.Action.{ok, after, call-cases}
use kin_app_server.Shop.{Good, Order, Shop, ShopConfig}
use kin_app_server.Shop.Goods.{is_free, is_ordered, assign, clear, sell, release_good, create_good}
use kin_app_server.Shop.Orders.{
  has_order_id, is_stale, has_expired, create_order, ChainTx, extract_tx_payment_data,
  get_order_by_memo, redeem_order, process_order,
}
use kin_app_server.Shop.Sweep.{is_unclaimed, sweep, release_unclaimed_goods}
use kin_app_server.Shop.Market.{Step, Reach, book, redeem, restock, time_out, here, next}
use kin_app_server.Shop.Market.Book.{
  given, with_order, unchanged, leaked, done, create_order-Booked,
}
use kin_app_server.Shop.Market.Redeem.{Redeemed, redeem_order-Redeemed}

-- The good `sid` is held under the order id `o`, sold or not.
abbrev pub is_held : ℕ → String → Good → Bool
is_held sid o g = (g.sid == sid) && is_ordered o g

abbrev pub stale_under : ShopConfig → ℕ → String → Order → Bool
stale_under c last o x = has_order_id o x && is_stale c last x

-- How many rows hold the good `sid` under `o`, while no order of that id is stale at `last`.
abbrev pub promises : ShopConfig → ℕ → ℕ → String → Shop → ℕ
promises c last sid o s =
    if count_rows (stale_under c last o) s.orders == 0
    then count_rows (is_held sid o) s.goods
    else 0

-- The last time of the sweeps on the way.
abbrev pub swept_at : {c : ShopConfig} → {s t : Shop} → Step c s t → ℕ
swept_at (Step.sweep now s) = now
swept_at _ = 0

abbrev pub last_sweep : {c : ShopConfig} → {s t : Shop} → Reach c s t → ℕ
last_sweep here = 0
last_sweep (next r step) =
    let last = last_sweep r in if leb last (swept_at step) then swept_at step else last

held_le :
    (sid : ℕ) (o : String) (goods : List Good)
    → count_rows (is_held sid o) goods ≤ count_rows (is_ordered o) goods
held_le sid o [] = omega arith
held_le sid o (g ∷ gs) = ground (arith, held_le sid o gs)

held-assign :
    (sid f : ℕ) (o order_id : String) (goods : List Good)
    → count_rows (is_held sid o) goods
      ≤ count_rows (is_held sid o) (update_first (is_free f) (assign order_id) goods)
held-assign sid f o order_id [] = omega arith
held-assign sid f o order_id (g ∷ gs) = ground (arith, held-assign sid f o order_id gs)

held-clear :
    (sid : ℕ) (o other : String) (goods : List Good)
    → str_eq other o ≡ false
    → count_rows (is_held sid o) goods
      ≤ count_rows (is_held sid o) (update_first (is_ordered other) clear goods)
held-clear sid o other [] h = omega arith
held-clear sid o other (g ∷ gs) h = elim (Option-cases g.order_id) [
  | inl e ↦ ground (arith, e, held-clear sid o other gs h)
  | inr (p, e) ↦
      ground (arith, e, h, held-clear sid o other gs h, eq_iff p o, eq_iff p other, eq_iff other o)
]

stale_count :
    (c : ShopConfig) (now last : ℕ) (o : String) (orders : List Order) (x : Order)
    → now ≤ last
    → first_row (has_order_id o) orders ≡ some x
    → is_stale c now x ≡ true
    → 1 ≤ count_rows (stale_under c last o) orders
stale_count c now last o [] x h e st = cc
stale_count c now last o (y ∷ ys) x h e st = elim (Bool-cases (has_order_id o y)) [
  | inl hit ↦ ground (arith, hit, e, h, st)
  | inr miss ↦ ground (arith, miss, stale_count c now last o ys x h (ground (arith, miss, e)) st)
]

module _ (c : ShopConfig) (last sid : ℕ) (o : String) where
  -- The step breaks no promise.
  abbrev pub Keeps : Shop → Shop → Type 0
  Keeps s u = promises c last sid o s ≤ promises c last sid o u

  Keeps-at : (s t u : Shop) → u ≡ t → Keeps s t → Keeps s u
  Keeps-at s t u e h = rw e h

  Keeps-refl : (s : Shop) → Keeps s s
  Keeps-refl s = omega arith

  book-Keeps :
      (now : ℕ) (order_id : String) (user_id offer_id : ℕ) (s : Shop)
      → Keeps s (after (create_order c now order_id user_id offer_id) s)
  unfolding given with_order
  book-Keeps now order_id user_id offer_id s =
      elim (create_order-Booked c now order_id user_id offer_id s) [
        | unchanged e ↦ rw e (omega arith)
        | leaked g e none_held made ↦
            rw made (ground (arith, held-assign sid offer_id o order_id s.goods))
        | done g p e none_held new made ↦ rw made (
            ground (
              arith,
              held-assign sid offer_id o order_id s.goods,
              held_le sid o s.goods,
              none_held,
              eq_iff order_id o,
            ))
      ]

  -- What a redemption leaves of the promises.
  Redeemed-Keeps : (h : ℕ) (x : Order) (s u : Shop) → Redeemed h x s u → Keeps s u
  Redeemed-Keeps h x s u (Redeemed.unchanged goods orders) = rw (goods, orders) (omega arith)
  Redeemed-Keeps h x s u (Redeemed.done goods orders) =
      rw
        (
          goods,
          orders,
          count-update_first_same (is_held sid o) (is_ordered x.order_id) (sell h) s.goods
              (λ a. refl),
        )
        (ground (arith, count-delete_le (stale_under c last o) (has_order_id x.order_id) s.orders))

  redeem-Keeps :
      (now : ℕ) (sdk : ℕ → ℕ → Option ChainTx) (user_id tx_hash : ℕ) (s : Shop)
      → Keeps s (after (process_order c now sdk user_id tx_hash) s)
  unfolding process_order
  redeem-Keeps now sdk user_id tx_hash s =
      let u : Shop = after (process_order c now sdk user_id tx_hash) s in
      elim (Option-cases (extract_tx_payment_data c (sdk tx_hash))) [
        | inl e ↦ Keeps-at s s u (ground (arith, e)) (Keeps-refl s)
        | inr (t, e) ↦ elim (Option-cases (get_order_by_memo c now t.memo s)) [
          | inl e' ↦ Keeps-at s s u (ground (arith, e, e')) (Keeps-refl s)
          | inr (x, e') ↦
              elim (Bool-cases ((t.destination == x.address) && eqb_ℤ t.amount x.kin_amount)) [
                | inr m ↦ Keeps-at s s u (ground (arith, e, e', m)) (Keeps-refl s)
                | inl m ↦
                    let v : Shop = after (redeem_order c now user_id tx_hash x) s in
                    Keeps-at s v u (ground (arith, e, e', m)) (
                      Redeemed-Keeps tx_hash x s v
                        (redeem_order-Redeemed c now user_id tx_hash x s))
              ]
        ]
      ]

  release-Keeps :
      (now : ℕ) (p : String) (s t : Shop)
      → now ≤ last
      → has_expired c now p s ≡ (ok true, t)
      → Keeps s (after (release_good p) s)
  unfolding has_expired release_good
  release-Keeps now p s t h old = elim (Option-cases (first_row (has_order_id p) s.orders)) [
    | inl e ↦ absurd (ground (arith, e))
    | inr (x, e) ↦ elim (Bool-cases (str_eq p o)) [
      | inr ne ↦ ground (arith, held-clear sid o p s.goods ne)
      | inl eq ↦
          let same : p ≡ o = (eq_iff p o).0 eq in
          let st = stale_count c now last p s.orders x h e (ground (arith, e, old)) in
          let st' : 1 ≤ count_rows (stale_under c last o) s.orders = rw same at st in
          ground (arith, st')
    ]
  ]

  sweep-Keeps :
      (now : ℕ) (goods : List Good) (released : ℕ) (s : Shop)
      → now ≤ last
      → Keeps s (after (sweep c now goods released) s)
  unfolding sweep
  sweep-Keeps now [] released s h = omega arith
  sweep-Keeps now (g ∷ gs) released s h = elim (Option-cases g.order_id) [
    | inl e ↦ ground (arith, e, sweep-Keeps now gs released s h)
    | inr (p, e) ↦ elim (call-cases (has_expired c now p s)) [
      | inr (x, t, stop) ↦ ground (arith, e, stop)
      | inl (false, t, fresh) ↦ ground (arith, e, fresh, sweep-Keeps now gs released s h)
      | inl (true, t, old) ↦
          let v : Shop = after (release_good p) s in
          ground
            (arith, e, old, release-Keeps now p s t h old, sweep-Keeps now gs (released + 1) v h)
    ]
  ]

  Step-Keeps : {s t : Shop} → (step : Step c s t) → swept_at step ≤ last → Keeps s t
  unfolding create_good release_unclaimed_goods
  Step-Keeps (book now order_id user_id offer_id s) h = book-Keeps now order_id user_id offer_id s
  Step-Keeps (redeem now sdk user_id tx_hash s) h = redeem-Keeps now sdk user_id tx_hash s
  Step-Keeps (Step.sweep now s) h = sweep-Keeps now (select_rows is_unclaimed s.goods) 0 s h
  Step-Keeps (restock none good_type value extra_info now s) h = omega arith
  Step-Keeps (restock (some f) good_type value extra_info now s) h = ground arith
  Step-Keeps (time_out user_id s) h = omega arith

  pub Reach-Keeps : (s t : Shop) → (r : Reach c s t) → last_sweep r ≤ last → Keeps s t
  Reach-Keeps s _ here h = omega arith
  Reach-Keeps s _ (next {t = t} {u = u} r step) h =
      omega (arith, Reach-Keeps s t r (ground (arith, h)), Step-Keeps step (ground (arith, h)))

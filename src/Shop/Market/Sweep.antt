-- ===== src/Shop/Market/Sweep.antt =====
-- A sweep, even one that stops with an exception, and a new good keep the invariant and every sale.
use kin_app_server.Common.{
  ℕ, ◌+◌, ◌≤◌, String, ◌≡◌, refl, true, false, Bool, Option, some, none, List, [], ◌∷◌, arith, inl,
  inr, Bool-cases, Option-cases, ◌==◌,
}
use kin_app_server.Common.Table.{count_rows, first_row, select_rows, update_first, first_row-count}
use kin_app_server.Action.{ok, after, call-cases}
use kin_app_server.Shop.{Good, Shop, ShopConfig}
use kin_app_server.Shop.Goods.{
  is_ordered, clear, release_good, create_good, new_good, does_code_exist, has_offer_id,
}
use kin_app_server.Shop.Goods.Rows.{ordered-clear_le}
use kin_app_server.Shop.Orders.{has_order_id, has_expired}
use kin_app_server.Shop.Sweep.{is_unclaimed, sweep, release_unclaimed_goods}
use kin_app_server.Shop.Market.{IsSound, IsSafe}
use kin_app_server.Shop.Market.Rows.{clear-Settled, clear-KeepsSales}

IsSafe-refl : (s : Shop) → IsSound s → IsSafe s s
IsSafe-refl s h = record { sound = h; sales_kept = λ sid o k. omega arith }

pub IsSafe-trans : (s t u : Shop) → IsSafe s t → IsSafe t u → IsSafe s u
IsSafe-trans s t u a b = record {
  sound = b.sound;
  sales_kept = λ sid o k. omega (arith, a.sales_kept sid o k, b.sales_kept sid o k);
}

IsSafe-at : (s t u : Shop) → u ≡ t → IsSafe s t → IsSafe s u
IsSafe-at s t u e h = rw e h

release-IsSafe :
    (o : String) (s : Shop)
    → 1 ≤ count_rows (has_order_id o) s.orders
    → IsSound s
    → IsSafe s (after (release_good o) s)
unfolding release_good
release-IsSafe o s listed h = elim (Bool-cases (count_rows (is_ordered o) s.goods == 1)) [
  | inr e ↦ IsSafe-at s s (after (release_good o) s) (ground (arith, e)) (IsSafe-refl s h)
  | inl e ↦
      IsSafe-at s (record s { goods = update_first (is_ordered o) clear s.goods })
        (after (release_good o) s) (ground (arith, e))
        (record {
          sound = record {
            held_once = λ p. omega (arith, h.held_once p, ordered-clear_le p o s.goods);
            listed_once = h.listed_once;
            sales_settled = clear-Settled o s.orders s.goods listed h.sales_settled;
          };
          sales_kept = clear-KeepsSales o s.orders s.goods listed h.sales_settled;
        })
]

module _ (c : ShopConfig) (now : ℕ) where
  expired-listed :
      (o : String) (s t : Shop) (b : Bool)
      → has_expired c now o s ≡ (ok b, t)
      → 1 ≤ count_rows (has_order_id o) s.orders
  unfolding has_expired
  expired-listed o s t b h = elim (Option-cases (first_row (has_order_id o) s.orders)) [
    | inl e ↦ absurd (ground (arith, e))
    | inr (x, e) ↦ first_row-count (has_order_id o) s.orders x e
  ]

  sweep-IsSafe :
      (goods : List Good) (released : ℕ) (s : Shop)
      → IsSound s
      → IsSafe s (after (sweep c now goods released) s)
  unfolding sweep
  sweep-IsSafe [] released s h = IsSafe-refl s h
  sweep-IsSafe (g ∷ gs) released s h =
      let u : Shop = after (sweep c now (g ∷ gs) released) s in
      elim (Option-cases g.order_id) [
        | inl e ↦
            IsSafe-at s (after (sweep c now gs released) s) u (ground (arith, e))
              (sweep-IsSafe gs released s h)
        | inr (o, e) ↦ elim (call-cases (has_expired c now o s)) [
          | inr (x, t, stop) ↦ IsSafe-at s s u (ground (arith, e, stop)) (IsSafe-refl s h)
          | inl (false, t, fresh) ↦
              IsSafe-at s (after (sweep c now gs released) s) u (ground (arith, e, fresh))
                (sweep-IsSafe gs released s h)
          | inl (true, t, old) ↦
              let v : Shop = after (release_good o) s in
              let w : Shop = after (sweep c now gs (released + 1)) v in
              let step : IsSafe s v = release-IsSafe o s (expired-listed o s t true old) h in
              IsSafe-at s w u (ground (arith, e, old))
                (IsSafe-trans s v w step (sweep-IsSafe gs (released + 1) v step.sound))
        ]
      ]

  pub release_unclaimed_goods-IsSafe :
      (s : Shop) → IsSound s → IsSafe s (after (release_unclaimed_goods c now) s)
  unfolding release_unclaimed_goods
  release_unclaimed_goods-IsSafe s h = sweep-IsSafe (select_rows is_unclaimed s.goods) 0 s h

pub create_good-IsSafe :
    (offer_id : Option ℕ) (good_type value : String) (extra_info : Option ℕ) (now : ℕ) (s : Shop)
    → IsSound s
    → IsSafe s (after (create_good offer_id good_type value extra_info now) s)
unfolding create_good
create_good-IsSafe none good_type value extra_info now s h = IsSafe-refl s h
create_good-IsSafe (some f) good_type value extra_info now s h =
    let run = create_good (some f) good_type value extra_info now in
    elim (Bool-cases (does_code_exist value s)) [
      | inl known ↦ IsSafe-at s s (after run s) (ground (arith, known)) (IsSafe-refl s h)
      | inr new ↦ elim (Bool-cases (count_rows (has_offer_id f) s.offers == 0)) [
        | inl no_offer ↦
            IsSafe-at s s (after run s) (ground (arith, new, no_offer)) (IsSafe-refl s h)
        | inr offer ↦
            let t : Shop = record s {
              goods = new_good f good_type value extra_info now s ∷ s.goods;
              next_sid = s.next_sid + 1;
            } in
            IsSafe-at s t (after run s) (ground (arith, new, offer)) (record {
              sound = record {
                held_once = λ o. omega (arith, h.held_once o);
                listed_once = h.listed_once;
                sales_settled = (refl, h.sales_settled);
              };
              sales_kept = λ sid o k. ground arith;
            })
      ]
    ]

-- ===== src/Blackhawk/Track.antt =====
-- What the tracking of orders does to the goods and the cards.
use kin_app_server.Common.{
  ℕ, ◌≤◌, ◌≡◌, refl, String, Bool, Option, none, some, List, [], ◌∷◌, str_eq, eq_iff, arith,
  Bool-cases, Option-cases, inl, inr,
}
use kin_app_server.Common.Table.{count_rows}
use kin_app_server.Action.{after, call-cases}
use kin_app_server.Account.{get}
use kin_app_server.Shop.{Good, Shop}
use kin_app_server.Shop.Goods.{create_good, does_code_exist}
use kin_app_server.Blackhawk.{
  Vault, Api, set_processed_orders, merchant_code_to_offer_id, add_cards, track_order, track_all,
  track_orders, list_unprocessed_orders,
}

abbrev pub has_code : String → Good → Bool
has_code v g = str_eq g.value v

create_good_unique :
    (o : Option ℕ) (code v : String) (x : Option ℕ) (now : ℕ) (s : Shop)
    → count_rows (has_code v) s.goods ≤ 1
    → count_rows (has_code v) (after (create_good o "code" code x now) s).goods ≤ 1
unfolding create_good does_code_exist
create_good_unique none code v x now s h = h
create_good_unique (some o) code v x now s h = elim (Bool-cases (str_eq code v)) [
  | inr e ↦ ground (arith, h, e)
  | inl e ↦ let p : code ≡ v = ground (arith, e, eq_iff code v) in rw p (ground (arith, h))
]

pub set_processed-shop : (ids : List ℕ) (s : Vault) → (set_processed_orders ids s).shop ≡ s.shop
unfolding set_processed_orders
set_processed-shop [] s = refl
set_processed-shop (c ∷ cs) s = set_processed-shop cs _

-- At most one good has the code.
abbrev pub IsOnce : String → Vault → Type 0
IsOnce v s = count_rows (has_code v) s.shop.goods ≤ 1

add_cards-IsOnce :
    (api : Api) (now : ℕ) (v : String) (order : ℕ) (ids : List ℕ) (s : Vault)
    → IsOnce v s
    → IsOnce v (after (add_cards api now order ids) s)
unfolding add_cards
add_cards-IsOnce api now v order [] s h = h
add_cards-IsOnce api now v order (c ∷ cs) s h = elim (Option-cases (api.egift_get_card c)) [
  | inl e ↦ ground (arith, e, h, add_cards-IsOnce api now v order cs s h)
  | inr (info, e) ↦
      let o = merchant_code_to_offer_id info.merchant_code s.bh_offers in
      let once = create_good_unique o info.code v (some info.id) now s.shop h in
      elim (call-cases (create_good o "code" info.code (some info.id) now s.shop)) [
        | inr (x, d, q) ↦ ground (arith, e, q, once)
        | inl (x, d, q) ↦ ground (
          arith,
          e,
          q,
          once,
          add_cards-IsOnce api now v info.order cs (record s { shop = d })
              (ground (arith, q, once)),
        )
      ]
]

track_order-IsOnce :
    (api : Api) (now : ℕ) (v : String) (orders : List (ℕ × List ℕ)) (order : ℕ) (ids : List ℕ)
    (s : Vault)
    → IsOnce v s
    → IsOnce v (after (track_order api now orders order ids) s)
unfolding track_order
track_order-IsOnce api now v orders order ids s h =
    let k = add_cards-IsOnce api now v order ids s h in
    elim (call-cases (add_cards api now order ids s)) [
      | inr (x, t, q) ↦ ground (arith, q, h, k)
      | inl (key, t, q) ↦ elim (Option-cases (get key orders)) [
        | inl g ↦ ground (arith, q, g, h, k)
        | inr (cards, g) ↦ ground (arith, q, g, h, k, set_processed-shop cards t)
      ]
    ]

track_all-IsOnce :
    (api : Api) (now : ℕ) (v : String) (orders rest : List (ℕ × List ℕ)) (s : Vault)
    → IsOnce v s
    → IsOnce v (after (track_all api now orders rest) s)
unfolding track_all
track_all-IsOnce api now v orders [] s h = h
track_all-IsOnce api now v orders ((order, ids) ∷ rest) s h =
    let k = track_order-IsOnce api now v orders order ids s h in
    elim (call-cases (track_order api now orders order ids s)) [
      | inr (x, t, q) ↦ ground (arith, q, k)
      | inl (n, t, q) ↦
          let r = track_all-IsOnce api now v orders rest t (ground (arith, q, k)) in
          elim (call-cases (track_all api now orders rest t)) [
            | inl (m, t', q') ↦ ground (arith, q, q', r)
            | inr (x, t', q') ↦ ground (arith, q, q', r)
          ]
    ]

-- Tracking the orders, however it ends, makes no second good of a redemption code: where at most
-- one good has the code before, at most one has it after.
pub track_orders-IsOnce :
    (api : Api) (now : ℕ) (v : String) (s : Vault)
    → count_rows (has_code v) s.shop.goods ≤ 1
    → count_rows (has_code v) (after (track_orders api now) s).shop.goods ≤ 1
unfolding track_orders
track_orders-IsOnce api now v s h = elim (Option-cases s.creds.token) [
  | inl e ↦ ground (arith, e, h)
  | inr (token, e) ↦
      let orders = list_unprocessed_orders [] s.cards in
      let k = track_all-IsOnce api now v orders orders s h in
      elim (call-cases (track_all api now orders orders s)) [
        | inl (n, t, q) ↦ ground (arith, e, q, k)
        | inr (x, t, q) ↦ ground (arith, e, q, k)
      ]
]

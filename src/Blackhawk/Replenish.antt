-- ===== src/Blackhawk/Replenish.antt =====
-- When gift cards are ordered.
use kin_app_server.Common.{
  ℕ, ◌+◌, ◌≤◌, ◌≡◌, refl, Bool, true, false, Option, none, some, List, [], ◌∷◌, ltb, ◌==◌,
  if◌then◌else◌, arith, Bool-cases, Option-cases, inl, inr,
}
use kin_app_server.Common.Int.{ℤ, ltb_ℤ}
use kin_app_server.Common.Table.{count_rows, update_first}
use kin_app_server.Action.{Result, ok, err, after, call-cases}
use kin_app_server.Account.{get}
use kin_app_server.Shop.Goods.{create_good, Stock, list_inventory}
use kin_app_server.Blackhawk.{
  BlackhawkOffer, Vault, Api, has_card_id, create_bh_card, create_all, order_gift_cards, stock_of,
  order_missing, track_orders, max_unprocessed, replenish_bh_cards, add_cards, track_order,
  track_all, set_processed_orders, cards_from, list_unprocessed_orders, merchant_code_to_offer_id,
}

-- An offer that has fewer free goods than its threshold.
abbrev pub is_short : List Stock → BlackhawkOffer → Bool
is_short inventory o = elim (stock_of o.offer_id inventory) [
  | none ↦ false
  | some left ↦ ltb left o.minimum_threshold
]

abbrev pub count_started : Vault → ℕ
count_started s = count_rows (λ o. true) s.started

create_bh_card-started :
    (card order : ℕ) (o : BlackhawkOffer) (s : Vault)
    → (after (create_bh_card card order o) s).started ≡ s.started
unfolding create_bh_card
create_bh_card-started card order o s =
    elim (Bool-cases (count_rows (has_card_id card) s.cards == 0)) [
      | inl e ↦ ground (arith, e)
      | inr e ↦ ground (arith, e)
    ]

create_all-started :
    (order : ℕ) (o : BlackhawkOffer) (cs : List ℕ) (s : Vault)
    → (after (create_all order o cs) s).started ≡ s.started
unfolding create_all
create_all-started order o [] s = refl
create_all-started order o (c ∷ cs) s = elim (call-cases (create_bh_card c order o s)) [
  | inr (x, t, q) ↦ ground (arith, q, create_bh_card-started c order o s)
  | inl (b, t, q) ↦
      ground (arith, q, create_bh_card-started c order o s, create_all-started order o cs t)
]

order_gift_cards-started :
    (api : Api) (now : ℕ) (o : BlackhawkOffer) (s : Vault)
    → count_started (after (order_gift_cards api now o) s) ≤ count_started s + 1
unfolding order_gift_cards
order_gift_cards-started api now o s = elim (Option-cases s.creds.token) [
  | inl e ↦ ground (arith, e)
  | inr (k, e) ↦ elim (Option-cases (api.egift_start_order o.offer_id)) [
    | inl e' ↦ ground (arith, e, e')
    | inr (order, e') ↦ elim (Option-cases (cards_from api now order 0 o.batch_size)) [
      | inl f ↦ ground (arith, e, e', f)
      | inr (cs, f) ↦
          let s' : Vault = record s { started = order ∷ s.started } in
          let k = create_all-started order o cs s' in
          elim (call-cases (create_all order o cs s')) [
            | inl (x, t, q) ↦ ground (arith, e, e', f, q, k)
            | inr (x, t, q) ↦ ground (arith, e, e', f, q, k)
          ]
    ]
  ]
]

order_missing-started :
    (api : Api) (now : ℕ) (inventory : List Stock) (os : List BlackhawkOffer) (s : Vault)
    → count_started (after (order_missing api now inventory os) s)
      ≤ count_started s + count_rows (is_short inventory) os
unfolding order_missing
order_missing-started api now inventory [] s = omega arith
order_missing-started api now inventory (o ∷ os) s =
    elim (Option-cases (stock_of o.offer_id inventory)) [
      | inl e ↦ ground (arith, e)
      | inr (left, e) ↦ elim (Bool-cases (ltb left o.minimum_threshold)) [
        | inr l ↦ ground (arith, e, l, order_missing-started api now inventory os s)
        | inl l ↦
            let k = order_gift_cards-started api now o s in
            elim (call-cases (order_gift_cards api now o s)) [
              | inr (x, t, q) ↦ ground (arith, e, l, q, k)
              | inl (true, t, q) ↦
                  ground (arith, e, l, q, k, order_missing-started api now inventory os t)
              | inl (false, t, q) ↦ ground (arith, e, l, q, k)
            ]
      ]
    ]

set_processed-started :
    (ids : List ℕ) (s : Vault) → (set_processed_orders ids s).started ≡ s.started
unfolding set_processed_orders
set_processed-started [] s = refl
set_processed-started (c ∷ cs) s =
    set_processed-started cs (record s {
      cards = update_first (has_card_id c) (λ x. record x { processed = true }) s.cards;
    })

add_cards-started :
    (api : Api) (now order : ℕ) (ids : List ℕ) (s : Vault)
    → (after (add_cards api now order ids) s).started ≡ s.started
unfolding add_cards
add_cards-started api now order [] s = refl
add_cards-started api now order (c ∷ cs) s = elim (Option-cases (api.egift_get_card c)) [
  | inl e ↦ ground (arith, e, add_cards-started api now order cs s)
  | inr (info, e) ↦
      elim (call-cases (
        create_good (merchant_code_to_offer_id info.merchant_code s.bh_offers) "code" info.code
          (some info.id) now s.shop)) [
            | inr (x, d, q) ↦ ground (arith, e, q)
            | inl (x, d, q) ↦
                ground
                  (arith, e, q, add_cards-started api now info.order cs (record s { shop = d }))
          ]
]

track_order-started :
    (api : Api) (now : ℕ) (orders : List (ℕ × List ℕ)) (order : ℕ) (ids : List ℕ) (s : Vault)
    → (after (track_order api now orders order ids) s).started ≡ s.started
unfolding track_order
track_order-started api now orders order ids s =
    let k = add_cards-started api now order ids s in
    elim (call-cases (add_cards api now order ids s)) [
      | inr (x, t, q) ↦ ground (arith, q, k)
      | inl (key, t, q) ↦ elim (Option-cases (get key orders)) [
        | inl g ↦ ground (arith, q, g, k)
        | inr (cards, g) ↦ ground (arith, q, g, k, set_processed-started cards t)
      ]
    ]

track_all-started :
    (api : Api) (now : ℕ) (orders rest : List (ℕ × List ℕ)) (s : Vault)
    → (after (track_all api now orders rest) s).started ≡ s.started
unfolding track_all
track_all-started api now orders [] s = refl
track_all-started api now orders ((order, ids) ∷ rest) s =
    let k = track_order-started api now orders order ids s in
    elim (call-cases (track_order api now orders order ids s)) [
      | inr (x, t, q) ↦ ground (arith, q, k)
      | inl (n, t, q) ↦
          let r = track_all-started api now orders rest t in
          elim (call-cases (track_all api now orders rest t)) [
            | inl (m, t', q') ↦ ground (arith, q, q', k, r)
            | inr (x, t', q') ↦ ground (arith, q, q', k, r)
          ]
    ]

track_orders-started :
    (api : Api) (now : ℕ) (s : Vault) → (after (track_orders api now) s).started ≡ s.started
unfolding track_orders
track_orders-started api now s = elim (Option-cases s.creds.token) [
  | inl e ↦ ground (arith, e)
  | inr (token, e) ↦
      let orders = list_unprocessed_orders [] s.cards in
      let k = track_all-started api now orders orders s in
      elim (call-cases (track_all api now orders orders s)) [
        | inl (n, t, q) ↦ ground (arith, e, q, k)
        | inr (x, t, q) ↦ ground (arith, e, q, k)
      ]
]

-- How many orders a run may start after the tracking, which ends with `r` in the state `t`.
abbrev pub allowed : Api → ℤ → Result (Option ℕ) → Vault → ℕ
allowed api critical (err e) t = 0
allowed api critical (ok none) t = 0
allowed api critical (ok (some n)) t =
    if ltb max_unprocessed n then 0 else elim api.account_balance [
      | none ↦ 0
      | some none ↦ 0
      | some (some balance) ↦
          if ltb_ℤ balance critical
          then 0
          else count_rows (is_short (list_inventory t.shop)) t.bh_offers
    ]

-- A run that does not refresh the token starts no order at Blackhawk where the tracking of the
-- orders fails, where it leaves more than ten orders unprocessed, and where the balance is not had
-- or is below the critical one; and otherwise at most one for each offer that has fewer free goods
-- than its threshold after the tracking.
pub replenish_bh_cards-started :
    (api : Api) (now : ℕ) (critical : ℤ) (s t : Vault) (r : Result (Option ℕ))
    → track_orders api now s ≡ (r, t)
    → count_started (after (replenish_bh_cards api now critical false) s)
      ≤ count_started s + allowed api critical r t
unfolding replenish_bh_cards
replenish_bh_cards-started api now critical s t (err e) h =
    ground (arith, h, track_orders-started api now s)
replenish_bh_cards-started api now critical s t (ok none) h =
    ground (arith, h, track_orders-started api now s)
replenish_bh_cards-started api now critical s t (ok (some n)) h =
    let k = track_orders-started api now s in
    elim (Option-cases api.account_balance) [
      | inl b ↦ ground (arith, h, b, k)
      | inr (none, b) ↦ ground (arith, h, b, k)
      | inr (some balance, b) ↦
          ground
            (arith, h, b, k, order_missing-started api now (list_inventory t.shop) t.bh_offers t)
    ]

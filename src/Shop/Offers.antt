-- ===== src/Shop/Offers.antt =====
-- kinappserver/models/offer.py: an offer's cost, and the offers that a user may not buy again yet.
use kin_app_server.Common.{
  ℕ, ◌+◌, ◌*◌, ◌/◌, ◌-◌, Bool, true, false, not, ◌&&◌, Option, none, some, List, [], ◌∷◌, map, ltb,
  ◌==◌, if◌then◌else◌,
}
use kin_app_server.Common.Int.{ℤ, pos, ◌+ℤ◌, ◌-ℤ◌}
use kin_app_server.Common.Table.{first_row, select_rows, update_first}
use kin_app_server.Action.{Action, ok, err, invalid_usage, uncaught}
use kin_app_server.Shop.{Transaction, for_offer, for_task, Shop, second}
use kin_app_server.Shop.Goods.{has_offer_id}

abbrev pub day : ℕ
day = 86400 * second

unfoldable pub set_offer_active : ℕ → Bool → Action Shop Bool
set_offer_active offer_id active s = elim (first_row (has_offer_id offer_id) s.offers) [
  | none ↦ (err (invalid_usage "no such offer_id"), s)
  | some o ↦ (
    ok true,
    record s {
      offers =
          update_first (has_offer_id offer_id) (λ o'. record o' { is_active = active }) s.offers;
    },
  )
]

-- A missing offer is Python's None, which has no `is_active`.
unfoldable pub get_cost_and_address : ℕ → Action Shop (ℤ × ℕ)
get_cost_and_address offer_id s = elim (first_row (has_offer_id offer_id) s.offers) [
  | none ↦ (err uncaught, s)
  | some o ↦ (
    if o.is_active then ok (o.kin_cost, o.address) else err (invalid_usage "offer is not active"),
    s,
  )
]

-- `sum(amount)` over the user's rows with `incoming_tx` as given
unfoldable pub sum_amounts : ℕ → Bool → List Transaction → ℤ
sum_amounts user_id incoming [] = pos 0
sum_amounts user_id incoming (t ∷ ts) =
    let rest = sum_amounts user_id incoming ts in
    if (t.user_id == user_id) && (if incoming then t.incoming_tx else not t.incoming_tx)
    then t.amount +ℤ rest
    else rest

-- `get_user_inapp_balance` of user.py
unfoldable pub get_user_inapp_balance : ℕ → Shop → ℤ
get_user_inapp_balance user_id s = sum_amounts user_id false s.txs -ℤ sum_amounts user_id true s.txs

-- `dict[key] = value`
abbrev pub put : ℕ → ℕ → List (ℕ × ℕ) → List (ℕ × ℕ)
put k v [] = (k, v) ∷ []
put k v ((j, w) ∷ d) = if j == k then (k, v) ∷ d else (j, w) ∷ put k v d

-- The offers that the user's purchases of the last `days` days name, each with the day of the
-- last of them in the table: midnight of the day `days` days ago is the bound of the query.
-- `none` where a row's `tx_info` has no `offer_id`.
unfoldable pub bought_offers : ℕ → ℕ → List (ℕ × ℕ) → List Transaction → Option (List (ℕ × ℕ))
bought_offers user_id since acc [] = some acc
bought_offers user_id since acc (t ∷ ts) =
    if (t.user_id == user_id) && t.incoming_tx && ltb (since * day) t.update_at
    then elim t.tx_info [
      | for_offer offer_id order_id ↦
          bought_offers user_id since (put offer_id (t.update_at / day) acc) ts
      | for_task task_id memo ↦ none
    ]
    else bought_offers user_id since acc ts

abbrev pub keys : List (ℕ × ℕ) → List ℕ
keys = map (λ e. e.0)

abbrev pub write_locked : ℕ → List (ℕ × ℕ) → Shop → Shop
write_locked user_id d s = record s { locked = λ u. if u == user_id then some d else s.locked u }

unfoldable pub set_locked_offers : ℕ → ℕ → ℕ → Action Shop (List ℕ)
unfolding bought_offers
set_locked_offers user_id days now s = elim (bought_offers user_id (now / day - days) [] s.txs) [
  | none ↦ (err uncaught, s)
  | some d ↦ (ok (keys d), write_locked user_id d s)
]

-- A cached entry is kept while the day of the purchase, plus the limit, is still to come.
abbrev pub still_locked : ℕ → ℕ → ℕ × ℕ → Bool
still_locked days now (offer_id, bought) = ltb now ((bought + days) * day)

unfoldable pub get_locked_offers : ℕ → ℕ → ℕ → Action Shop (List ℕ)
unfolding set_locked_offers
get_locked_offers user_id days now s = elim (s.locked user_id) [
  | none ↦ set_locked_offers user_id days now s
  | some d ↦
      let kept = select_rows (still_locked days now) d in
      (ok (keys kept), write_locked user_id kept s)
]

-- ===== src/Shop/Listing.antt =====
-- The offers that a user is shown, and the adding of an offer: `get_offers_for_user` and
-- `add_offer` of kinappserver/models/offer.py.
pub mod Rules
mod Tests
pub use kin_app_server.Common.Table.{elem}
use kin_app_server.Common.{
  ℕ, String, Bool, true, false, not, ◌&&◌, ◌||◌, Option, none, some, List, [], ◌∷◌, ◌++◌, map, ltb,
  ◌==◌, str_eq, if◌then◌else◌,
}
use kin_app_server.Common.Int.{ℤ, ltb_ℤ}
use kin_app_server.Common.Table.{count_rows, select_rows}
use kin_app_server.Action.{Action, Result, ok, err}
use kin_app_server.Account.{OsType, android, ios, other_os, Older}
use kin_app_server.Shop.{Offer, Shop, ShopConfig}
use kin_app_server.Shop.Goods.{has_offer_id, goods_avilable}
use kin_app_server.Shop.Offers.{get_locked_offers, get_user_inapp_balance, set_offer_active}

pub data Reason : Type 0 where
  sold_out reached_maximum : Reason

-- An offer with the two texts that `offer_to_json` adds to its columns.
pub record Shown : Type 0 where
  pub offer : Offer
  pub unavailable_reason : Option Reason
  pub cannot_buy_reason : Bool

unfoldable pub insert_cheapest : Offer → List Offer → List Offer
insert_cheapest o [] = o ∷ []
insert_cheapest o (p ∷ ps) =
    let rest = insert_cheapest o ps in if ltb_ℤ p.kin_cost o.kin_cost then p ∷ rest else o ∷ p ∷ ps

-- `order_by(Offer.kin_cost.asc())`
unfoldable pub cheapest_first : List Offer → List Offer
unfolding insert_cheapest
cheapest_first [] = []
cheapest_first (o ∷ os) = insert_cheapest o (cheapest_first os)

abbrev pub has_type : String → Offer → Bool
has_type t o = str_eq o.offer_type t

-- What becomes of an offer; None where it is not listed.
unfoldable pub shown_of : Shop → List ℕ → ℤ → Offer → Option Shown
unfolding goods_avilable
shown_of s locked balance o =
    if has_type "p2p" o
    then none
    else if not (goods_avilable o.offer_id s)
    then some (record { offer = o; unavailable_reason = some sold_out; cannot_buy_reason = false })
    else if elem o.offer_id locked
    then some
        (record { offer = o; unavailable_reason = some reached_maximum; cannot_buy_reason = false })
    else some (record {
      offer = o;
      unavailable_reason = none;
      cannot_buy_reason = ltb_ℤ balance o.kin_cost;
    })

abbrev pub is_available : Shown → Bool
is_available x = elim x.unavailable_reason [ none ↦ true | some r ↦ false ]

abbrev pub add_shown : Option Shown → List Shown → List Shown
add_shown none xs = xs
add_shown (some x) xs = x ∷ xs

unfoldable pub all_shown : Shop → List ℕ → ℤ → List Offer → List Shown
unfolding shown_of
all_shown s locked balance [] = []
all_shown s locked balance (o ∷ os) =
    add_shown (shown_of s locked balance o) (all_shown s locked balance os)

-- A client, where `get_user_app_data` and `get_user_os_type` do not raise.
pub record Phone : Type 0 where
  pub os_type : OsType
  pub client_version : String

abbrev pub newer_than : Older → String → Option String → Bool
newer_than older version none = false
newer_than older version (some v) = not (str_eq v "") && older version v

-- The offer wants a newer client.
unfoldable pub is_unsupported : Older → Phone → Shown → Bool
is_unsupported older c x = elim c.os_type [
  | android ↦ newer_than older c.client_version x.offer.min_client_version_android
  | ios ↦ newer_than older c.client_version x.offer.min_client_version_ios
  | other_os ↦ false
]

-- A loop over the list from which it removes: the next offer moves to the place of the removed one
-- and is passed over. `passes` says that this is so for the first offer.
unfoldable pub remove_unsupported : Older → Phone → Bool → List Shown → List Shown
unfolding is_unsupported
remove_unsupported older c passes [] = []
remove_unsupported older c passes (x ∷ xs) =
    let removed = not passes && is_unsupported older c x in
    let rest = remove_unsupported older c removed xs in if removed then rest else x ∷ rest

-- Older clients have no text for an offer that is unavailable.
abbrev pub has_texts : ShopConfig → Older → Phone → Bool
has_texts config older c = elim c.os_type [
  | android ↦ not (older c.client_version config.offer_rate_limit_min_android_version)
  | ios ↦ not (older c.client_version config.offer_rate_limit_min_ios_version)
  | other_os ↦ true
]

unfoldable pub listed : ShopConfig → Older → Option Phone → List Shown → List Shown
unfolding remove_unsupported
listed config older none xs = select_rows is_available xs
listed config older (some c) xs = remove_unsupported older c false (
    if has_texts config older c
    then select_rows is_available xs ++ select_rows (λ x. not (is_available x)) xs
    else select_rows is_available xs)

unfoldable pub get_offers_for_user :
    ShopConfig → Older → Option Phone → ℕ → ℕ → Action Shop (List Shown)
unfolding cheapest_first get_locked_offers get_user_inapp_balance all_shown listed
get_offers_for_user config older phone user_id now s =
    let (r, s') = get_locked_offers user_id config.offer_limit_time_range now s in
    elim r [
      | err e ↦ (err e, s')
      | ok locked ↦ (
        ok (
            listed config older phone (
              all_shown s' locked (get_user_inapp_balance user_id s')
                (cheapest_first (select_rows (λ o. o.is_active) s.offers)))),
        s',
      )
    ]

-- The three urls of an offer that is added, and what `test_image` says of each.
pub record OfferJson : Type 0 where
  pub offer : Offer
  pub skip_image_test : Bool
  pub urls : List String

abbrev pub all_reachable : (String → Bool) → List String → Bool
all_reachable test_image [] = true
all_reachable test_image (u ∷ us) = (str_eq u "" || test_image u) && all_reachable test_image us

-- False where a picture is missing or the id is taken. An offer is added inactive.
unfoldable pub add_offer : (String → Bool) → OfferJson → Bool → Action Shop Bool
unfolding set_offer_active
add_offer test_image j set_active s =
    if not j.skip_image_test && not (all_reachable test_image j.urls)
    then (ok false, s)
    else if not (count_rows (has_offer_id j.offer.offer_id) s.offers == 0)
    then (ok false, s)
    else let added : Shop = record s { offers = record j.offer { is_active = false } ∷ s.offers } in
      if set_active then set_offer_active j.offer.offer_id true added else (ok true, added)

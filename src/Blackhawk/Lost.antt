-- ===== src/Blackhawk/Lost.antt =====
-- What becomes of a card whose info Blackhawk does not tell.
use kin_app_server.Common.{ℕ, ◌≡◌, not, ◌&&◌, Bool, true, false, Option, none, some, ◌==◌, All}
use kin_app_server.Common.Table.{count_rows, first_row}
use kin_app_server.Shop.{Good, Shop}
use kin_app_server.Shop.Goods.{has_offer_id}
use kin_app_server.Blackhawk.{BlackhawkCard, Vault, Api, has_card_id}

-- The good was made of the card.
abbrev pub of_card : ℕ → Good → Bool
of_card c g = elim g.extra_info [ none ↦ false | some i ↦ i == c ]

abbrev pub offer_known : Shop → Option ℕ → Bool
offer_known s o = elim o [ none ↦ true | some f ↦ not (count_rows (has_offer_id f) s.offers == 0) ]

-- The offers that the cards are for are in the table: a foreign key.
abbrev pub OffersKnown : Vault → Type 0
OffersKnown s = All (λ b. offer_known s.shop (some b.offer_id) ≡ true) s.bh_offers

-- What is told of the card is of the card and of its order, if anything is told.
abbrev pub tells_own : Api → ℕ → ℕ → Bool
tells_own api order i = elim (api.egift_get_card i) [
  | none ↦ true
  | some info ↦ (info.id == i) && (info.order == order)
]

-- The card is marked, if it is in the table.
abbrev pub is_processed : ℕ → Vault → Bool
is_processed c s = elim (first_row (has_card_id c) s.cards) [ none ↦ true | some x ↦ x.processed ]

abbrev mark : BlackhawkCard → BlackhawkCard
mark x = record x { processed = true }

-- ===== src/Shop/Goods.antt =====
-- kinappserver/models/good.py: making, counting, allocating, finalizing and releasing goods.
-- Each function is one database transaction: what a rollback undoes is not written.
pub mod Rows
pub mod Allocate
pub mod Release
mod Tests
use kin_app_server.Common.{
  ℕ, suc, ◌+◌, String, ◌≡◌, Bool, true, false, ◌&&◌, Option, none, some, List, [], ◌∷◌, map, ltb,
  ◌==◌, str_eq, if◌then◌else◌, is_none,
}
use kin_app_server.Common.Table.{count_rows, first_row, select_rows, update_first}
use kin_app_server.Action.{Action, Result, ok, err, internal_error}
use kin_app_server.Shop.{Good, Offer, Transaction, Shop}

-- Good.offer_id == offer_id and Good.order_id == None
abbrev pub is_free : ℕ → Good → Bool
is_free offer_id g = (g.offer_id == offer_id) && is_none g.order_id

-- Good.order_id == order_id, which a null is not
abbrev pub is_ordered : String → Good → Bool
is_ordered order_id g = elim g.order_id [ none ↦ false | some o ↦ str_eq o order_id ]

abbrev pub of_offer : ℕ → Good → Bool
of_offer offer_id g = g.offer_id == offer_id

abbrev pub has_offer_id : ℕ → Offer → Bool
has_offer_id offer_id o = o.offer_id == offer_id

abbrev pub has_tx_hash : ℕ → Transaction → Bool
has_tx_hash tx_hash t = t.tx_hash == tx_hash

-- `does_code_exist`
unfoldable pub does_code_exist : String → Shop → Bool
does_code_exist code s = ltb 0 (count_rows (λ g. str_eq g.value code) s.goods)

abbrev pub new_good : ℕ → String → String → Option ℕ → ℕ → Shop → Good
new_good offer_id good_type value extra_info now s = record {
  sid = s.next_sid;
  offer_id = offer_id;
  order_id = none;
  value = value;
  good_type = good_type;
  tx_hash = none;
  created_at = now;
  extra_info = extra_info;
}

-- An absent `offer_id` and a known code are refused; so is, by its foreign key, an offer that is
-- not in the table.
unfoldable pub create_good : Option ℕ → String → String → Option ℕ → ℕ → Action Shop Bool
create_good none good_type value extra_info now s = (ok false, s)
create_good (some offer_id) good_type value extra_info now s =
    if does_code_exist value s
    then (ok false, s)
    else if count_rows (has_offer_id offer_id) s.offers == 0
    then (err (internal_error "failed to create a new good"), s)
    else (
      ok true,
      record s {
        goods = new_good offer_id good_type value extra_info now s ∷ s.goods;
        next_sid = s.next_sid + 1;
      },
    )

unfoldable pub count_total_goods : ℕ → Shop → ℕ
count_total_goods offer_id s = count_rows (of_offer offer_id) s.goods

unfoldable pub count_available_goods : ℕ → Shop → ℕ
count_available_goods offer_id s = count_rows (is_free offer_id) s.goods

-- `goods_avilable`
unfoldable pub goods_avilable : ℕ → Shop → Bool
goods_avilable offer_id s = ltb 0 (count_rows (is_free offer_id) s.goods)

pub record Stock : Type 0 where
  pub offer : ℕ
  pub total : ℕ
  pub unallocated : ℕ

unfoldable pub list_inventory : Shop → List Stock
unfolding count_total_goods count_available_goods
list_inventory s =
    map
      (λ (o : Offer). record {
        offer = o.offer_id;
        total = count_total_goods o.offer_id s;
        unallocated = count_available_goods o.offer_id s;
      })
      s.offers

abbrev pub assign : String → Good → Good
assign order_id g = record g { order_id = some order_id }

abbrev pub clear : Good → Good
clear g = record g { order_id = none }

abbrev pub sell : ℕ → Good → Good
sell tx_hash g = record g { tx_hash = some tx_hash }

-- The column `order_id` is unique, so a second good with the same order id does not commit.
unfoldable pub allocate_good : ℕ → String → Action Shop (Option ℕ)
allocate_good offer_id order_id s = elim (first_row (is_free offer_id) s.goods) [
  | none ↦ (ok none, s)
  | some g ↦
      if ltb 0 (count_rows (is_ordered order_id) s.goods)
      then (err (internal_error "cant allocate good for order_id"), s)
      else (
        ok (some g.sid),
        record s { goods = update_first (is_free offer_id) (assign order_id) s.goods },
      )
]

-- `.one()` wants exactly one row; `tx_hash` is a foreign key into the transactions.
unfoldable pub finalize_good : String → ℕ → Action Shop (String × String)
finalize_good order_id tx_hash s = elim (first_row (is_ordered order_id) s.goods) [
  | none ↦ (err (internal_error "cant finalize good for order_id"), s)
  | some g ↦
      if (count_rows (is_ordered order_id) s.goods == 1)
        && ltb 0 (count_rows (has_tx_hash tx_hash) s.txs)
      then (
        ok (g.good_type, g.value),
        record s { goods = update_first (is_ordered order_id) (sell tx_hash) s.goods },
      )
      else (err (internal_error "cant finalize good for order_id"), s)
]

-- False where `.one()` raises.
unfoldable pub release_good : String → Action Shop Bool
release_good order_id s =
    if count_rows (is_ordered order_id) s.goods == 1
    then (ok true, record s { goods = update_first (is_ordered order_id) clear s.goods })
    else (ok false, s)

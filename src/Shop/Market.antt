-- ===== src/Shop/Market.antt =====
-- What the server does to the goods and the orders, in any order and at any times: bookings,
-- redemptions, sweeps, new goods, and the timing out of a Redis entry. The deletion of a user's
-- data by an administrator is not among the steps.
pub mod Rows
pub mod Book
pub mod Redeem
pub mod Sweep
pub mod Promises
pub mod Once
pub mod Safety
mod Tests
use kin_app_server.Common.{
  ℕ, ◌≤◌, String, ◌≡◌, Bool, true, false, ◌&&◌, ◌||◌, Option, none, some, List, ◌==◌, if◌then◌else◌,
  is_none, All,
}
use kin_app_server.Common.Table.{count_rows}
use kin_app_server.Action.{after}
use kin_app_server.Shop.{Good, Order, Shop, ShopConfig}
use kin_app_server.Shop.Goods.{is_ordered, create_good}
use kin_app_server.Shop.Goods.Rows.{OrdersUnique}
use kin_app_server.Shop.Orders.{has_order_id, create_order, process_order, ChainTx}
use kin_app_server.Shop.Sweep.{release_unclaimed_goods}

-- One call, whether it returns or raises.
pub data Step (c : ShopConfig) : Shop → Shop → Type 0 where
  book :
      (now : ℕ) (order_id : String) (user_id offer_id : ℕ) (s : Shop)
      → Step c s (after (create_order c now order_id user_id offer_id) s)
  redeem :
      (now : ℕ) (sdk : ℕ → ℕ → Option ChainTx) (user_id tx_hash : ℕ) (s : Shop)
      → Step c s (after (process_order c now sdk user_id tx_hash) s)
  sweep : (now : ℕ) (s : Shop) → Step c s (after (release_unclaimed_goods c now) s)
  restock :
      (offer_id : Option ℕ) (good_type value : String) (extra_info : Option ℕ) (now : ℕ) (s : Shop)
      → Step c s (after (create_good offer_id good_type value extra_info now) s)
  time_out :
      (user_id : ℕ) (s : Shop)
      → Step c s (record s { locked = λ u. if u == user_id then none else s.locked u })

pub data Reach (c : ShopConfig) (s : Shop) : Shop → Type 0 where
  here : Reach c s s
  next : {t u : Shop} → Reach c s t → Step c t u → Reach c s u

-- A good that is sold names the order it was sold under, and that order is gone.
abbrev pub is_settled : List Order → Good → Bool
is_settled orders g =
    is_none g.tx_hash
    || elim g.order_id [ none ↦ false | some o ↦ count_rows (has_order_id o) orders == 0 ]

abbrev pub Settled : List Order → List Good → Type 0
Settled orders goods = All (λ g. is_settled orders g ≡ true) goods

pub record IsSound (s : Shop) : Type 0 where
  pub held_once : OrdersUnique s.goods
  pub listed_once : (o : String) → count_rows (has_order_id o) s.orders ≤ 1
  pub sales_settled : Settled s.orders s.goods

-- The good `sid`, sold under the order `o` for the payment `h`.
abbrev pub is_sale : ℕ → String → ℕ → Good → Bool
is_sale sid o h g =
    (g.sid == sid) && is_ordered o g && elim g.tx_hash [ none ↦ false | some k ↦ k == h ]

abbrev pub KeepsSales : List Good → List Good → Type 0
KeepsSales before later =
    (sid : ℕ) (o : String) (h : ℕ)
    → count_rows (is_sale sid o h) before ≤ count_rows (is_sale sid o h) later

-- What each step keeps, given what it starts from.
pub record IsSafe (s s' : Shop) : Type 0 where
  pub sound : IsSound s'
  pub sales_kept : KeepsSales s.goods s'.goods

-- ===== src/Shop.antt =====
-- The tables behind the offers that a user buys: the columns of kinappserver/models/good.py,
-- offer.py, order.py and transaction.py that the server's logic reads, and the Redis entry of the
-- offers that a user has reached the limit of.
-- User ids, offer ids, transaction hashes and public addresses are opaque keys, only compared:
-- they are numbers here. Order ids and memos are texts, since the code slices them.
-- A time is a number of microseconds since the epoch.
pub mod Goods
pub mod Offers
pub mod Orders
pub mod Sweep
pub mod Market
pub mod Transactions
pub mod Listing
use kin_app_server.Common.{ℕ, ◌*◌, String, Bool, Option, none, List}
use kin_app_server.Common.Int.{ℤ}

-- One instance of something that can be bought.
pub record Good : Type 0 where
  pub sid : ℕ
  pub offer_id : ℕ
  pub order_id : Option String
  pub value : String
  pub good_type : String
  pub tx_hash : Option ℕ
  pub created_at : ℕ
  pub extra_info : Option ℕ

pub record Offer : Type 0 where
  pub offer_id : ℕ
  pub offer_type : String
  pub is_active : Bool
  pub title : String
  pub kin_cost : ℤ
  pub address : ℕ
  pub min_client_version_ios : Option String
  pub min_client_version_android : Option String

pub record Order : Type 0 where
  pub order_id : String
  pub offer_id : ℕ
  pub user_id : ℕ
  pub kin_amount : ℤ
  pub address : ℕ
  pub created_at : ℕ

-- The JSON that the server writes into `tx_info`.
pub data TxInfo : Type 0 where
  for_offer : ℕ → String → TxInfo
  for_task : ℕ → Option String → TxInfo

pub record Transaction : Type 0 where
  pub tx_hash : ℕ
  pub user_id : ℕ
  pub amount : ℤ
  pub incoming_tx : Bool
  pub remote_address : ℕ
  pub tx_info : TxInfo
  pub update_at : ℕ

-- `locked` holds what `USER_LOCKED_OFFERS_REDIS_KEY % user_id` is set to: for each user a dict
-- from offer ids to the day of the purchase, or nothing once the entry has timed out.
-- `next_sid` is the sequence of the sids; `users` are the ids that a foreign key may name.
pub record Shop : Type 0 where
  pub goods : List Good
  pub next_sid : ℕ
  pub offers : List Offer
  pub orders : List Order
  pub txs : List Transaction
  pub locked : ℕ → Option (List (ℕ × ℕ))
  pub users : List ℕ

-- The values of kinappserver/config.py that these components read.
pub record ShopConfig : Type 0 where
  pub max_simultaneous_orders_per_user : ℕ
  pub order_expiration_secs : ℕ
  pub offer_limit_time_range : ℕ
  pub stellar_timeout_sec : ℕ
  pub offer_rate_limit_min_ios_version : String
  pub offer_rate_limit_min_android_version : String

abbrev pub second : ℕ
second = 1000000

-- ===== src/Transfers.antt =====
-- Transfers between users, and the history of a user's transactions:
-- kinappserver/models/p2p_transaction.py, with `report_p2p_tx_api`, `report_app2app_tx_api` and
-- `get_transactions_api` of kinappserver/views_public.py. Transaction hashes are opaque numbers;
-- the texts that go with an entry are left out.
pub mod Reports
pub mod History
mod Tests
use kin_app_server.Common.{
  ℕ, ◌/◌, String, Bool, true, false, not, ◌&&◌, ◌||◌, Option, none, some, List, [], ◌∷◌, ◌++◌, map,
  length, take, ltb, ◌==◌, if◌then◌else◌, is_none, is_some,
}
use kin_app_server.Common.Int.{ℤ}
use kin_app_server.Common.Table.{count_rows, first_row, select_rows}
use kin_app_server.Action.{Action, Result, ok, err, uncaught, invalid_usage}
use kin_app_server.Users.{UserDb, User, is_user, elem}
use kin_app_server.Users.Phones.{get_userid_by_address}
use kin_app_server.Shop.{Transaction, TxInfo, for_offer, for_task, second}
use kin_app_server.Shop.Transactions.{list_user_transactions}

pub record P2pTransaction : Type 0 where
  pub tx_hash : ℕ
  pub sender_user_id : ℕ
  pub receiver_user_id : Option ℕ
  pub receiver_app_sid : Option ℕ
  pub amount : ℤ
  pub sender_address : ℕ
  pub receiver_address : ℕ
  pub update_at : ℕ

-- `apps` are the sids of the discovery apps, and `told` the users who were sent a push, the last
-- one first.
pub record Peers : Type 0 where
  pub db : UserDb
  pub apps : List ℕ
  pub p2p : List P2pTransaction
  pub told : List ℕ

abbrev pub has_hash : ℕ → P2pTransaction → Bool
has_hash h t = t.tx_hash == h

unfoldable pub get_address_by_userid : ℕ → UserDb → Option ℕ
get_address_by_userid uid db = elim (first_row (is_user uid) db.users) [
  | none ↦ none
  | some u ↦ u.public_address
]

abbrev pub is_app : Option ℕ → List ℕ → Bool
is_app none apps = true
is_app (some sid) apps = elem sid apps

-- A row that the table refuses, for its hash or for an app that is not there, is dropped without a
-- word. The answer says whether the session can still be used: after a failed commit it refuses
-- every query.
unfoldable pub create_p2p_tx : P2pTransaction → Peers → Bool × Peers
create_p2p_tx t s =
    if (count_rows (has_hash t.tx_hash) s.p2p == 0) && is_app t.receiver_app_sid s.apps
    then (true, record s { p2p = t ∷ s.p2p })
    else (false, s)

-- What the two functions return: True with a dict, False with None, or False with nothing beside it.
pub data Added : Type 0 where
  added failed bare_false : Added

-- What a client reports of a transfer, and the time.
pub record Report : Type 0 where
  pub tx_hash : ℕ
  pub sender_id : ℕ
  pub destination_address : ℕ
  pub amount : ℤ
  pub now : ℕ

abbrev pub row_of : Report → ℕ → Option ℕ → Option ℕ → P2pTransaction
row_of r address receiver app = record {
  tx_hash = r.tx_hash;
  sender_user_id = r.sender_id;
  receiver_user_id = receiver;
  receiver_app_sid = app;
  amount = r.amount;
  sender_address = address;
  receiver_address = r.destination_address;
  update_at = r.now;
}

-- The push asks for the receiver's data, and raises on a session that cannot be used.
unfoldable pub add_p2p_tx : Report → Peers → Added × Peers
unfolding get_userid_by_address get_address_by_userid create_p2p_tx
add_p2p_tx r s = elim (get_userid_by_address r.destination_address s.db) [
  | none ↦ (bare_false, s)
  | some receiver ↦ elim (get_address_by_userid r.sender_id s.db) [
    | none ↦ (bare_false, s)
    | some address ↦
        let (usable, s') = create_p2p_tx (row_of r address (some receiver) none) s in
        if usable then (added, record s' { told = receiver ∷ s'.told }) else (failed, s')
  ]
]

-- The dict is made of the app's row, outside the try: it raises on a session that cannot be used,
-- and for an app that is not there.
unfoldable pub add_app2app_tx : ℕ → Report → Action Peers Added
unfolding get_address_by_userid create_p2p_tx
add_app2app_tx app r s = elim (get_address_by_userid r.sender_id s.db) [
  | none ↦ (ok bare_false, s)
  | some address ↦
      let (usable, s') = create_p2p_tx (row_of r address none (some app)) s in
      (if usable && elem app s.apps then ok added else err uncaught, s')
]

-- `res, tx_dict = ...`: a bare False cannot be unpacked.
abbrev pub unpacked : Added → Result (Unit {0})
unpacked added = ok tt
unpacked failed = err (invalid_usage "failed to add p2ptx")
unpacked bare_false = err uncaught

unfoldable pub report_p2p_tx_api : Bool → Report → Action Peers (Unit {0})
unfolding add_p2p_tx
report_p2p_tx_api enabled r s =
    if not enabled
    then (err (invalid_usage "api-disabled"), s)
    else (let (a, s') = add_p2p_tx r s in (unpacked a, s'))

unfoldable pub report_app2app_tx_api : ℕ → Report → Action Peers (Unit {0})
unfolding add_app2app_tx
report_app2app_tx_api app r s =
    let (a, s') = add_app2app_tx app r s in
    elim a [ err e ↦ (err e, s') | ok a' ↦ (unpacked a', s') ]

-- An entry of the history.
pub record Entry : Type 0 where
  pub is_p2p : Bool
  pub tx_hash : ℕ
  pub amount : ℤ
  pub client_received : Bool
  pub date : ℕ

abbrev pub server_entry : Transaction → Entry
server_entry t = record {
  is_p2p = false;
  tx_hash = t.tx_hash;
  amount = t.amount;
  client_received = not t.incoming_tx;
  date = t.update_at / second;
}

-- The details of what the user spent are those of an offer, and of what the user got those of a
-- task: another `tx_info` raises.
unfoldable pub server_entries : List Transaction → Option (List Entry)
server_entries [] = some []
server_entries (t ∷ ts) = elim (server_entries ts) [
  | none ↦ none
  | some es ↦ elim t.tx_info [
    | for_offer o m ↦ if t.incoming_tx then some (server_entry t ∷ es) else none
    | for_task k m ↦ if t.incoming_tx then none else some (server_entry t ∷ es)
  ]
]

abbrev pub is_receiver : ℕ → P2pTransaction → Bool
is_receiver uid t = elim t.receiver_user_id [ none ↦ false | some r ↦ r == uid ]

abbrev pub p2p_entry : ℕ → P2pTransaction → Entry
p2p_entry uid t = record {
  is_p2p = true;
  tx_hash = t.tx_hash;
  amount = t.amount;
  client_received = is_receiver uid t;
  date = t.update_at / second;
}

unfoldable pub insert_p2p : P2pTransaction → List P2pTransaction → List P2pTransaction
insert_p2p t [] = t ∷ []
insert_p2p t (u ∷ us) =
    let rest = insert_p2p t us in if ltb t.update_at u.update_at then u ∷ rest else t ∷ u ∷ us

abbrev pub by_time : List P2pTransaction → List P2pTransaction
by_time [] = []
by_time (t ∷ ts) = insert_p2p t (by_time ts)

-- What the user got, and then what the user sent; the length is trimmed where `max_txs` exceeds it.
unfoldable pub list_p2p_transactions_for_user_id :
    ℕ → Option ℕ → List P2pTransaction → List P2pTransaction
unfolding insert_p2p
list_p2p_transactions_for_user_id uid max_txs txs =
    let mine =
      by_time (select_rows (is_receiver uid) txs)
      ++ by_time (select_rows (λ t. t.sender_user_id == uid) txs) in
    elim max_txs [
      | none ↦ mine
      | some n ↦ if not (n == 0) && ltb (length mine) n then take n mine else mine
    ]

-- A transfer to an app that is not there raises.
unfoldable pub p2p_entries : ℕ → List ℕ → List P2pTransaction → Option (List Entry)
p2p_entries uid apps [] = some []
p2p_entries uid apps (t ∷ ts) = elim (p2p_entries uid apps ts) [
  | none ↦ none
  | some es ↦ if is_app t.receiver_app_sid apps then some (p2p_entry uid t ∷ es) else none
]

unfoldable pub insert_entry : Entry → List Entry → List Entry
insert_entry t [] = t ∷ []
insert_entry t (u ∷ us) =
    let rest = insert_entry t us in if ltb t.date u.date then u ∷ rest else t ∷ u ∷ us

-- `sorted(..., key=date, reverse=True)`, which keeps entries of one second in their order
unfoldable pub by_date : List Entry → List Entry
unfolding insert_entry
by_date [] = []
by_date (t ∷ ts) = insert_entry t (by_date ts)

abbrev pub max_txs_per_user : ℕ
max_txs_per_user = 100

abbrev pub keep_newest : ℕ → List Entry → List Entry
keep_newest n es = if ltb n (length es) then take n es else es

-- None where the answer is an error.
unfoldable pub get_transactions_api : ℕ → List Transaction → Peers → Option (List Entry)
unfolding list_user_transactions server_entries list_p2p_transactions_for_user_id p2p_entries
    by_date
get_transactions_api uid txs s =
    elim (server_entries (list_user_transactions uid (some max_txs_per_user) txs)) [
      | none ↦ none
      | some es ↦
          elim (p2p_entries uid s.apps
            (list_p2p_transactions_for_user_id uid (some max_txs_per_user) s.p2p)) [
              | none ↦ none
              | some ps ↦ some (keep_newest max_txs_per_user (by_date (es ++ ps)))
            ]
    ]

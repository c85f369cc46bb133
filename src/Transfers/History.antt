-- ===== src/Transfers/History.antt =====
-- The order and the length of a user's history.
use mathlib.Core.Path.{subst}
use kin_app_server.Common.{
  ℕ, zero, suc, ◌+◌, ◌≤◌, ◌≡◌, ◌∙◌, ◌⊎◌, refl, ap, sym, Bool, some, List, [], ◌∷◌, ◌++◌, length,
  take, ltb, arith, one_if, Bool-cases, inl, inr, All, All-map,
}
use kin_app_server.Common.Table.{count-append, count_rows}
use kin_app_server.Shop.{Transaction}
use kin_app_server.Shop.Transactions.{list_user_transactions}
use kin_app_server.Transfers.{
  Peers, Entry, server_entries, p2p_entries, list_p2p_transactions_for_user_id, insert_entry,
  by_date, max_txs_per_user, keep_newest, get_transactions_api,
}

-- No entry is older than one after it.
abbrev pub NewestFirst : List Entry → Type 0
NewestFirst [] = Unit
NewestFirst (t ∷ ts) = All (λ u. u.date ≤ t.date) ts × NewestFirst ts

All-insert :
    (P : Entry → Type 0) (t : Entry) (ts : List Entry) → P t → All P ts → All P (insert_entry t ts)
unfolding insert_entry
All-insert P t [] p h = (p, tt)
All-insert P t (u ∷ us) p h = elim (Bool-cases (ltb t.date u.date)) [
  | inl e ↦ rw e (h.0, All-insert P t us p h.1)
  | inr e ↦ rw e (p, h)
]

insert-NewestFirst :
    (t : Entry) (ts : List Entry) → NewestFirst ts → NewestFirst (insert_entry t ts)
unfolding insert_entry
insert-NewestFirst t [] h = (tt, tt)
insert-NewestFirst t (u ∷ us) h = elim (Bool-cases (ltb t.date u.date)) [
  | inl e ↦
      rw e (
        All-insert (λ v. v.date ≤ u.date) t us (ground (arith, e)) h.0,
        insert-NewestFirst t us h.1,
      )
  | inr e ↦ rw e ((ground (arith, e), All-map us (λ v k. ground (arith, e, k)) h.0), h)
]

by_date-NewestFirst : (ts : List Entry) → NewestFirst (by_date ts)
unfolding by_date
by_date-NewestFirst [] = tt
by_date-NewestFirst (t ∷ ts) = insert-NewestFirst t (by_date ts) (by_date-NewestFirst ts)

count-insert :
    (q : Entry → Bool) (t : Entry) (ts : List Entry)
    → count_rows q (insert_entry t ts) ≡ one_if (q t) + count_rows q ts
unfolding insert_entry
count-insert q t [] = refl
count-insert q t (u ∷ us) = ground (arith, count-insert q t us)

count-by_date : (q : Entry → Bool) (ts : List Entry) → count_rows q (by_date ts) ≡ count_rows q ts
unfolding by_date
count-by_date q [] = refl
count-by_date q (t ∷ ts) = ground (arith, count-insert q t (by_date ts), count-by_date q ts)

-- the rest of a list after its first `n`
abbrev pub beyond : ℕ → List Entry → List Entry
beyond zero xs = xs
beyond (suc n) [] = []
beyond (suc n) (x ∷ xs) = beyond n xs

take-beyond : (n : ℕ) (xs : List Entry) → take n xs ++ beyond n xs ≡ xs
take-beyond zero xs = refl
take-beyond (suc n) [] = refl
take-beyond (suc n) (x ∷ xs) = ap (λ t. x ∷ t) (take-beyond n xs)

length-take_le : (n : ℕ) (xs : List Entry) → length (take n xs) ≤ n
length-take_le zero xs = omega arith
length-take_le (suc n) [] = omega arith
length-take_le (suc n) (x ∷ xs) = omega (arith, length-take_le n xs)

length-take_full : (n : ℕ) (xs : List Entry) → n ≤ length xs → length (take n xs) ≡ n
length-take_full zero xs h = refl
length-take_full (suc n) [] h = absurd (omega (arith, h))
length-take_full (suc n) (x ∷ xs) h = ap suc (length-take_full n xs (omega (arith, h)))

append_nil : (xs : List Entry) → xs ++ [] ≡ xs
append_nil [] = refl
append_nil (x ∷ xs) = ap (λ t. x ∷ t) (append_nil xs)

keep_newest_lem :
    (n : ℕ) (es : List Entry)
    → (rest : List Entry) × (keep_newest n es ++ rest ≡ es)
      × (length (keep_newest n es) ≤ n)
      × ((rest ≡ []) ⊎ (length (keep_newest n es) ≡ n))
keep_newest_lem n es = elim (Bool-cases (ltb n (length es))) [
  | inl e ↦ rw e (
    beyond n es,
    take-beyond n es,
    length-take_le n es,
    inr (length-take_full n es (ground (arith, e))),
  )
  | inr e ↦ rw e ([], append_nil es, ground (arith, e), inl refl)
]

-- Where it is no error, the answer has at most a hundred entries, which together with the ones left
-- out are the entries of the user's transactions and transfers, each as often, and no entry is
-- older than one that comes after it or is left out. Entries are left out only of an answer with a
-- hundred.
pub get_transactions_api_lem :
    (uid : ℕ) (txs : List Transaction) (s : Peers) (es ps xs : List Entry) (q : Entry → Bool)
    → server_entries (list_user_transactions uid (some max_txs_per_user) txs) ≡ some es
    → p2p_entries uid s.apps (list_p2p_transactions_for_user_id uid (some max_txs_per_user) s.p2p)
      ≡ some ps
    → get_transactions_api uid txs s ≡ some xs
    → (rest : List Entry) × NewestFirst (xs ++ rest)
      × (count_rows q (xs ++ rest) ≡ count_rows q es + count_rows q ps)
      × (length xs ≤ max_txs_per_user)
      × ((rest ≡ []) ⊎ (length xs ≡ max_txs_per_user))
unfolding get_transactions_api
get_transactions_api_lem uid txs s es ps xs q he hp h =
    let all = by_date (es ++ ps) in
    let g : xs ≡ keep_newest max_txs_per_user all = ground (arith, he, hp, h) in
    let k = keep_newest_lem max_txs_per_user all in
    (
      k.0,
      rw g (subst NewestFirst (sym k.1) (by_date-NewestFirst (es ++ ps))),
      rw g (ap (count_rows q) k.1 ∙ count-by_date q (es ++ ps) ∙ count-append q es ps),
      rw g k.2,
      rw g k.3,
    )

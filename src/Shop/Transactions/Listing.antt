-- ===== src/Shop/Transactions/Listing.antt =====
-- What the listing returns, whatever number of transactions is asked for.
use mathlib.Core.Path.{subst}
use kin_app_server.Common.{
  ℕ, zero, suc, ◌≡◌, ◌≤◌, refl, ap, sym, not, ◌&&◌, Option, none, some, List, [], ◌∷◌, length, take,
  ltb, ◌==◌, arith, All, All-map, Bool-cases, inl, inr,
}
use kin_app_server.Common.Table.{select_rows}
use kin_app_server.Shop.{Transaction}
use kin_app_server.Shop.Transactions.{insert_newest, newest_first, trim, list_user_transactions}

take-all : (n : ℕ) (txs : List Transaction) → length txs ≤ n → take n txs ≡ txs
take-all zero [] h = refl
take-all zero (t ∷ ts) h = absurd (omega (arith, h))
take-all (suc n) [] h = refl
take-all (suc n) (t ∷ ts) h = ap (λ l. t ∷ l) (take-all n ts (omega (arith, h)))

abbrev pub NewestFirst : List Transaction → Type 0
NewestFirst [] = Unit
NewestFirst (t ∷ ts) = All (λ u. u.update_at ≤ t.update_at) ts × NewestFirst ts

All-insert :
    (P : Transaction → Type 0) (t : Transaction) (ts : List Transaction)
    → P t
    → All P ts
    → All P (insert_newest t ts)
unfolding insert_newest
All-insert P t [] p h = (p, tt)
All-insert P t (u ∷ us) p h = elim (Bool-cases (ltb t.update_at u.update_at)) [
  | inl e ↦
      subst (All P) {x = u ∷ insert_newest t us} (ground (arith, e)) (h.0, All-insert P t us p h.1)
  | inr e ↦ subst (All P) {x = t ∷ u ∷ us} (ground (arith, e)) (p, h)
]

insert-NewestFirst :
    (t : Transaction) (ts : List Transaction) → NewestFirst ts → NewestFirst (insert_newest t ts)
unfolding insert_newest
insert-NewestFirst t [] h = (tt, tt)
insert-NewestFirst t (u ∷ us) h = elim (Bool-cases (ltb t.update_at u.update_at)) [
  | inl e ↦ subst NewestFirst {x = u ∷ insert_newest t us} (ground (arith, e)) (
    All-insert (λ v. v.update_at ≤ u.update_at) t us (ground (arith, e)) h.0,
    insert-NewestFirst t us h.1,
  )
  | inr e ↦
      subst NewestFirst {x = t ∷ u ∷ us} (ground (arith, e))
        ((ground (arith, e), All-map us (λ v k. ground (arith, e, k)) h.0), h)
]

newest_first-NewestFirst : (ts : List Transaction) → NewestFirst (newest_first ts)
unfolding newest_first
newest_first-NewestFirst [] = tt
newest_first-NewestFirst (t ∷ ts) =
    insert-NewestFirst t (newest_first ts) (newest_first-NewestFirst ts)

trim-all : (max_txs : Option ℕ) (txs : List Transaction) → trim max_txs txs ≡ txs
unfolding trim
trim-all none txs = refl
trim-all (some n) txs = elim (Bool-cases (not (n == 0) && ltb (length txs) n)) [
  | inl e ↦ ground (arith, e, take-all n txs (ground (arith, e)))
  | inr e ↦ ground (arith, e)
]

-- The newest transaction comes first, and all of them are returned, whatever number is asked for:
-- the listing is never trimmed.
pub list_user_transactions_lem :
    (user_id : ℕ) (max_txs : Option ℕ) (txs : List Transaction)
    → NewestFirst (list_user_transactions user_id max_txs txs)
      × (list_user_transactions user_id max_txs txs
          ≡ newest_first (select_rows (λ t. t.user_id == user_id) txs))
unfolding list_user_transactions
list_user_transactions_lem user_id max_txs txs =
    let mine : List Transaction = newest_first (select_rows (λ t. t.user_id == user_id) txs) in
    let whole = trim-all max_txs mine in
    (
      subst NewestFirst (sym whole)
          (newest_first-NewestFirst (select_rows (λ t. t.user_id == user_id) txs)),
      whole,
    )

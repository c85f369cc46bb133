-- ===== src/Tasks/Next/Order.antt =====
-- The order of the tasks of a category.
use mathlib.Core.Path.{subst}
use kin_app_server.Common.{
  ◌≡◌, Bool, true, false, List, [], ◌∷◌, arith, All, All-map, Bool-cases, inl, inr,
}
use kin_app_server.Common.Table.{select_rows}
use kin_app_server.Tasks.{Task2}
use kin_app_server.Tasks.Next.{is_before, insert, ordered}

is_before_trans :
    (a b c : Task2) → is_before a b ≡ false → is_before b c ≡ false → is_before a c ≡ false
unfolding is_before
is_before_trans a b c h k = ground (arith, h, k)

is_before_asym : (a b : Task2) → is_before a b ≡ true → is_before b a ≡ false
unfolding is_before
is_before_asym a b h = ground (arith, h)

-- No task is before one that stands to its left.
abbrev pub Sorted : List Task2 → Type 0
Sorted [] = Unit
Sorted (t ∷ ts) = All (λ u. is_before u t ≡ false) ts × Sorted ts

module _ (P : Task2 → Type 0) where
  All-insert : (t : Task2) (ts : List Task2) → P t → All P ts → All P (insert t ts)
  unfolding insert
  All-insert t [] p h = (p, tt)
  All-insert t (u ∷ us) p h = elim (Bool-cases (is_before u t)) [
    | inl e ↦ subst (All P) {x = u ∷ insert t us} (ground (arith, e)) (h.0, All-insert t us p h.1)
    | inr e ↦ subst (All P) {x = t ∷ u ∷ us} (ground (arith, e)) (p, h)
  ]

  All-of_insert : (t : Task2) (ts : List Task2) → All P (insert t ts) → P t × All P ts
  unfolding insert
  All-of_insert t [] h = h
  All-of_insert t (u ∷ us) h = elim (Bool-cases (is_before u t)) [
    | inl e ↦
        let k = subst (All P) {y = u ∷ insert t us} (ground (arith, e)) h in
        let rest = All-of_insert t us k.1 in (rest.0, (k.0, rest.1))
    | inr e ↦ subst (All P) {y = t ∷ u ∷ us} (ground (arith, e)) h
  ]

  pub All-ordered : (ts : List Task2) → All P ts → All P (ordered ts)
  unfolding ordered
  All-ordered [] h = tt
  All-ordered (t ∷ ts) h = All-insert t (ordered ts) h.0 (All-ordered ts h.1)

  pub All-of_ordered : (ts : List Task2) → All P (ordered ts) → All P ts
  unfolding ordered
  All-of_ordered [] h = tt
  All-of_ordered (t ∷ ts) h = let k = All-of_insert t (ordered ts) h in (k.0, All-of_ordered ts k.1)

  pub All-of_selected :
      (p : Task2 → Bool) (ts : List Task2)
      → All P (select_rows p ts)
      → All (λ t. p t ≡ true → P t) ts
  All-of_selected p [] h = tt
  All-of_selected p (t ∷ ts) h = elim (Bool-cases (p t)) [
    | inl e ↦
        let k = subst (All P) {y = t ∷ select_rows p ts} (ground (arith, e)) h in
        (λ _. k.0, All-of_selected p ts k.1)
    | inr e ↦
        let k = subst (All P) {y = select_rows p ts} (ground (arith, e)) h in
        (λ q. absurd (ground (arith, e, q)), All-of_selected p ts k)
  ]

insert-Sorted : (t : Task2) (ts : List Task2) → Sorted ts → Sorted (insert t ts)
unfolding insert
insert-Sorted t [] h = (tt, tt)
insert-Sorted t (u ∷ us) h = elim (Bool-cases (is_before u t)) [
  | inl e ↦ subst Sorted {x = u ∷ insert t us} (ground (arith, e)) (
    All-insert (λ v. is_before v u ≡ false) t us (is_before_asym u t e) h.0,
    insert-Sorted t us h.1,
  )
  | inr e ↦
      subst Sorted {x = t ∷ u ∷ us} (ground (arith, e))
        ((e, All-map us (λ v k. is_before_trans v u t k e) h.0), h)
]

pub ordered-Sorted : (ts : List Task2) → Sorted (ordered ts)
unfolding ordered
ordered-Sorted [] = tt
ordered-Sorted (t ∷ ts) = insert-Sorted t (ordered ts) (ordered-Sorted ts)

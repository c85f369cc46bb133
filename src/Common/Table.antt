-- ===== src/Common/Table.antt =====
-- A database table as the list of its rows, and the queries and updates that the source makes.
-- A query with no `order_by` is answered in the order of the list.
use Prim.Native.Nat.{ℕ, ◌+◌, ◌<◌, ◌≤◌}
use mathlib.Core.Path.{◌≡◌, refl}
use mathlib.Core.Logic.{◌≢◌, inl, inr}
use mathlib.Core.Bool.{Bool, true, false, ◌||◌}
use mathlib.Core.Option.{Option, none, some}
use mathlib.Core.List.{List, [], ◌∷◌, ◌++◌}
use native.Mathlib.Omega.{arith}
use kin_app_server.Common.Tests.{◌==◌, if◌then◌else◌, one_if, Bool-cases}
use kin_app_server.Common.Lists.{All, All-map}

-- `x in xs`
abbrev pub elem : ℕ → List ℕ → Bool
elem x [] = false
elem x (y ∷ ys) = (y == x) || elem x ys

module _ {ℓ} {A : Type ℓ} where
  -- `.filter(p).count()`
  abbrev pub count_rows : (A → Bool) → List A → ℕ
  count_rows p [] = 0
  count_rows p (x ∷ xs) = one_if (p x) + count_rows p xs

  -- `.filter(p).first()`
  abbrev pub first_row : (A → Bool) → List A → Option A
  first_row p [] = none
  first_row p (x ∷ xs) = if p x then some x else first_row p xs

  -- `.filter(p).all()`
  abbrev pub select_rows : (A → Bool) → List A → List A
  select_rows p [] = []
  select_rows p (x ∷ xs) = let rest = select_rows p xs in if p x then x ∷ rest else rest

  -- The row that `first_row` finds is written back as `f` leaves it.
  abbrev pub update_first : (A → Bool) → (A → A) → List A → List A
  update_first p f [] = []
  update_first p f (x ∷ xs) = if p x then f x ∷ xs else x ∷ update_first p f xs

  -- `update ... where p`
  abbrev pub update_rows : (A → Bool) → (A → A) → List A → List A
  update_rows p f [] = []
  update_rows p f (x ∷ xs) = (if p x then f x else x) ∷ update_rows p f xs

  -- `delete ... where p`
  abbrev pub delete_rows : (A → Bool) → List A → List A
  delete_rows p [] = []
  delete_rows p (x ∷ xs) = let rest = delete_rows p xs in if p x then rest else x ∷ rest

module _ {ℓ} {A : Type ℓ} where
  pub first_row-holds : (p : A → Bool) (xs : List A) (a : A) → first_row p xs ≡ some a → p a ≡ true
  first_row-holds p [] a h = cc
  first_row-holds p (x ∷ xs) a h = elim (Bool-cases (p x)) [
    | inl e ↦ ground arith
    | inr e ↦ first_row-holds p xs a (rw e at h)
  ]

  -- One row changes, so a count changes by what it says of that row.
  pub count-update_first :
      (q p : A → Bool) (f : A → A) (xs : List A) (a : A)
      → first_row p xs ≡ some a
      → count_rows q (update_first p f xs) + one_if (q a) ≡ count_rows q xs + one_if (q (f a))
  count-update_first q p f [] a h = cc
  count-update_first q p f (x ∷ xs) a h = elim (Bool-cases (p x)) [
    | inl e ↦ ground arith
    | inr e ↦ rw e (ground (arith, count-update_first q p f xs a (rw e at h)))
  ]

  pub first_row-none : (p : A → Bool) (xs : List A) → first_row p xs ≡ none → count_rows p xs ≡ 0
  first_row-none p [] h = refl
  first_row-none p (x ∷ xs) h = ground (arith, first_row-none p xs)

  pub first_row-of_count :
      (p : A → Bool) (xs : List A) → 0 < count_rows p xs → first_row p xs ≢ none
  first_row-of_count p xs h e = omega (arith, first_row-none p xs e)

  pub count-update_rows :
      (q p : A → Bool) (f : A → A) (xs : List A)
      → ((a : A) → q (f a) ≡ q a)
      → count_rows q (update_rows p f xs) ≡ count_rows q xs
  count-update_rows q p f [] h = refl
  count-update_rows q p f (x ∷ xs) h = ground (arith, count-update_rows q p f xs h, h x)

  pub All-update_first {κ} :
      {P : A → Type κ} (p : A → Bool) (f : A → A) (xs : List A)
      → ((a : A) → P a → p a ≡ true → P (f a))
      → All P xs
      → All P (update_first p f xs)
  All-update_first p f [] k h = tt
  All-update_first p f (x ∷ xs) k h = elim (Bool-cases (p x)) [
    | inl e ↦ rw e (k x h.0 e, h.1)
    | inr e ↦ rw e (h.0, All-update_first p f xs k h.1)
  ]

  pub count-update_first_same :
      (q p : A → Bool) (f : A → A) (xs : List A)
      → ((a : A) → q (f a) ≡ q a)
      → count_rows q (update_first p f xs) ≡ count_rows q xs
  count-update_first_same q p f [] h = refl
  count-update_first_same q p f (x ∷ xs) h = ground (arith, count-update_first_same q p f xs h, h x)

  pub first_row-of_one : (p : A → Bool) (xs : List A) → count_rows p xs ≡ 1 → first_row p xs ≢ none
  first_row-of_one p xs h e = omega (arith, first_row-none p xs e)

  -- Undoing the change of the one row that holds after it: every other row is passed over.
  pub update_first-undo :
      (p q : A → Bool) (f g : A → A) (xs : List A)
      → count_rows q xs ≡ 0
      → ((a : A) → p a ≡ true → q (f a) ≡ true)
      → ((a : A) → p a ≡ true → g (f a) ≡ a)
      → 0 < count_rows p xs
      → update_first q g (update_first p f xs) ≡ xs
  update_first-undo p q f g [] none_held held back n = refl
  update_first-undo p q f g (x ∷ xs) none_held held back n = elim (Bool-cases (p x)) [
    | inl e ↦ rw (e, held x e, back x e)
    | inr e ↦
        ground (arith, e, update_first-undo p q f g xs (ground arith) held back (ground arith))
  ]

  pub count-delete_rows : (p : A → Bool) (xs : List A) → count_rows p (delete_rows p xs) ≡ 0
  count-delete_rows p [] = refl
  count-delete_rows p (x ∷ xs) = ground (arith, count-delete_rows p xs)

  pub first_row-of_zero : (p : A → Bool) (xs : List A) → count_rows p xs ≡ 0 → first_row p xs ≡ none
  first_row-of_zero p [] h = refl
  first_row-of_zero p (x ∷ xs) h = ground (arith, first_row-of_zero p xs)

  pub count-delete_le :
      (q p : A → Bool) (xs : List A) → count_rows q (delete_rows p xs) ≤ count_rows q xs
  count-delete_le q p [] = omega arith
  count-delete_le q p (x ∷ xs) = ground (arith, count-delete_le q p xs)

  pub first_row-count :
      (p : A → Bool) (xs : List A) (a : A) → first_row p xs ≡ some a → 1 ≤ count_rows p xs
  first_row-count p [] a h = cc
  first_row-count p (x ∷ xs) a h = elim (Bool-cases (p x)) [
    | inl e ↦ ground (arith, e)
    | inr e ↦ ground (arith, e, first_row-count p xs a (rw e at h))
  ]

  pub first_row-update_self :
      (p : A → Bool) (f : A → A) (xs : List A) (a : A)
      → p (f a) ≡ true
      → first_row p xs ≡ some a
      → first_row p (update_first p f xs) ≡ some (f a)
  first_row-update_self p f [] a k h = cc
  first_row-update_self p f (x ∷ xs) a k h = elim (Bool-cases (p x)) [
    | inl e ↦ ground (arith, e)
    | inr e ↦ ground (arith, e, first_row-update_self p f xs a k (rw e at h))
  ]

  pub first_row-update_other :
      (q p : A → Bool) (f : A → A) (xs : List A)
      → ((a : A) → p a ≡ true → (q a ≡ false) × (q (f a) ≡ false))
      → first_row q (update_first p f xs) ≡ first_row q xs
  first_row-update_other q p f [] k = refl
  first_row-update_other q p f (x ∷ xs) k = elim (Bool-cases (p x)) [
    | inl e ↦ ground (arith, e, k x e)
    | inr e ↦ ground (arith, e, first_row-update_other q p f xs k)
  ]

  -- Where each row that is counted after an update stands for one that is counted before it.
  pub count-update_rows_le :
      (q r p : A → Bool) (f : A → A) (xs : List A)
      → All (λ x. one_if (q (if p x then f x else x)) ≤ one_if (r x)) xs
      → count_rows q (update_rows p f xs) ≤ count_rows r xs
  count-update_rows_le q r p f [] h = omega arith
  count-update_rows_le q r p f (x ∷ xs) h = omega (arith, h.0, count-update_rows_le q r p f xs h.1)

  pub count_le :
      (q r : A → Bool) (xs : List A)
      → All (λ x. one_if (q x) ≤ one_if (r x)) xs
      → count_rows q xs ≤ count_rows r xs
  count_le q r [] h = omega arith
  count_le q r (x ∷ xs) h = omega (arith, h.0, count_le q r xs h.1)

  pub count-update_first_le :
      (q r p : A → Bool) (f : A → A) (xs : List A)
      → All (λ x. (one_if (q x) ≤ one_if (r x)) × (p x ≡ true → one_if (q (f x)) ≤ one_if (r x))) xs
      → count_rows q (update_first p f xs) ≤ count_rows r xs
  count-update_first_le q r p f [] h = omega arith
  count-update_first_le q r p f (x ∷ xs) h = elim (Bool-cases (p x)) [
    | inl e ↦ ground (arith, e, h.0.1 e, count_le q r xs (All-map xs (λ a k. k.0) h.1))
    | inr e ↦ ground (arith, e, h.0.0, count-update_first_le q r p f xs h.1)
  ]

  pub All-rows {κ} : {P : A → Type κ} (xs : List A) → ((a : A) → P a) → All P xs
  All-rows [] f = tt
  All-rows (x ∷ xs) f = (f x, All-rows xs f)

  pub All-none : (p : A → Bool) (xs : List A) → count_rows p xs ≡ 0 → All (λ x. p x ≡ false) xs
  All-none p [] h = tt
  All-none p (x ∷ xs) h = (ground (arith, h), All-none p xs (ground (arith, h)))

  -- The row of a key that no two rows have.
  pub All-unique :
      (p : A → Bool) (xs : List A) (a : A)
      → count_rows p xs ≤ 1
      → first_row p xs ≡ some a
      → All (λ x. p x ≡ true → x ≡ a) xs
  All-unique p [] a h k = tt
  All-unique p (x ∷ xs) a h k = elim (Bool-cases (p x)) [
    | inl e ↦ (
      λ _. ground (arith, e, k),
      All-map xs (λ y n t. absurd (ground (arith, n, t))) (All-none p xs (ground (arith, e, h))),
    )
    | inr e ↦ (
      λ t. absurd (ground (arith, e, t)),
      All-unique p xs a (ground (arith, e, h)) (ground (arith, e, k)),
    )
  ]

module _ {ℓ} {A : Type ℓ} where
  pub count-append :
      (p : A → Bool) (xs ys : List A) → count_rows p (xs ++ ys) ≡ count_rows p xs + count_rows p ys
  count-append p [] ys = omega arith
  count-append p (x ∷ xs) ys = ground (arith, count-append p xs ys)

pub elem-delete :
    (x t : ℕ) (xs : List ℕ) → (t == x) ≡ false → elem x (delete_rows (λ y. y == t) xs) ≡ elem x xs
elem-delete x t [] h = refl
elem-delete x t (y ∷ ys) h = ground (arith, h, elem-delete x t ys h)

-- ===== src/Categories/Shown.antt =====
-- What the table of categories answers.
use kin_app_server.Common.{
  ℕ, ◌+◌, ◌≡◌, ◌∙◌, refl, String, Bool, true, false, not, ◌&&◌, ◌||◌, none, some, List, [], ◌∷◌,
  ◌==◌, arith, one_if, Bool-cases, Option-cases, inl, inr, is_some,
}
use kin_app_server.Common.Table.{count_rows, first_row, select_rows, delete_rows, count-delete_rows}
use kin_app_server.Action.{ok}
use kin_app_server.Account.{OsType, get}
use kin_app_server.Categories.{
  Platform, Category, CatJson, has_cat_id, get_cat_by_id, category_of, add_category, supports,
  insert_by_id, by_id, list_categories, with_counts, Shelf, get_categories_for_user,
}

first-delete_other :
    (id other : ℕ) (cs : List Category)
    → (id == other) ≡ false
    → first_row (has_cat_id other) (delete_rows (has_cat_id id) cs)
      ≡ first_row (has_cat_id other) cs
first-delete_other id other [] h = refl
first-delete_other id other (c ∷ cs) h = elim (Bool-cases (has_cat_id id c)) [
  | inl e ↦ ground (arith, e, h, first-delete_other id other cs h)
  | inr e ↦ ground (arith, e, h, first-delete_other id other cs h)
]

-- A category with a known platform, whose pictures can be had or are not tested, and whose id is
-- new or may be overwritten, is added: it is then the only one with its id, found under it with all
-- it was given, and any other category is found as before.
pub add_category-get_cat_by_id :
    (test_image : String → Bool) (j : CatJson) (os : Platform) (other : ℕ) (cs : List Category)
    → j.supported_os ≡ some os
    → is_some (get_cat_by_id j.id cs) && not j.overwrite ≡ false
    → j.skip_image_test || (test_image j.image_url && test_image j.header_image_url) ≡ true
    → (j.id == other) ≡ false
    → let cs' = (add_category test_image j cs).1 in
      ((add_category test_image j cs).0 ≡ ok true)
      × (get_cat_by_id j.id cs' ≡ some (category_of j os))
      × (count_rows (has_cat_id j.id) cs' ≡ 1)
      × (get_cat_by_id other cs' ≡ get_cat_by_id other cs)
unfolding add_category get_cat_by_id
add_category-get_cat_by_id test_image j os other cs h1 h2 h3 h4 = (
  ground (arith, h1, h2, h3),
  ground (arith, h1, h2, h3),
  ground (arith, h1, h2, h3, count-delete_rows (has_cat_id j.id) cs),
  ground (arith, h1, h2, h3, h4, first-delete_other j.id other cs h4),
)

count-insert :
    (q : Category → Bool) (c : Category) (cs : List Category)
    → count_rows q (insert_by_id c cs) ≡ one_if (q c) + count_rows q cs
unfolding insert_by_id
count-insert q c [] = refl
count-insert q c (d ∷ ds) = ground (arith, count-insert q c ds)

count-by_id : (q : Category → Bool) (cs : List Category) → count_rows q (by_id cs) ≡ count_rows q cs
unfolding by_id
count-by_id q [] = refl
count-by_id q (c ∷ cs) = ground (arith, count-insert q c (by_id cs), count-by_id q cs)

count-supported :
    (os : OsType) (q : Category → Bool) (cs : List Category)
    → count_rows q (select_rows (λ c. supports os c.supported_os) cs)
      ≡ count_rows (λ c. q c && supports os c.supported_os) cs
count-supported os q [] = refl
count-supported os q (c ∷ cs) = ground (arith, count-supported os q cs)

count-with_counts :
    (counts : List (ℕ × ℕ)) (q : Category → Bool) (cs : List Category) (xs : List (Category × ℕ))
    → with_counts counts cs ≡ some xs
    → count_rows (λ x. q x.0) xs ≡ count_rows q cs
unfolding with_counts
count-with_counts counts q [] xs h = ground (arith, h)
count-with_counts counts q (c ∷ cs) xs h = elim (Option-cases (get c.category_id counts)) [
  | inl e ↦ ground (arith, e, h)
  | inr (n, e) ↦ elim (Option-cases (with_counts counts cs)) [
    | inl e' ↦ ground (arith, e, e', h)
    | inr (rest, e') ↦
        let g : xs ≡ (c, n) ∷ rest = ground (arith, e, e', h) in
        rw g (ground (arith, count-with_counts counts q cs rest e'))
  ]
]

-- Without a cached answer the user is listed each category that the platform supports, as often as
-- the table holds it, and no other, where the answer is no error.
pub get_categories_for_user_lem :
    (os : OsType) (counts : List (ℕ × ℕ)) (q : Category → Bool) (s : Shelf)
    (xs : List (Category × ℕ))
    → s.cached ≡ none
    → (get_categories_for_user (some os) counts s).0 ≡ ok xs
    → count_rows (λ x. q x.0) xs ≡ count_rows (λ c. q c && supports os c.supported_os) s.categories
unfolding get_categories_for_user list_categories
get_categories_for_user_lem os counts q s xs h k =
    let cs = by_id (select_rows (λ c. supports os c.supported_os) s.categories) in
    elim (Option-cases (with_counts counts cs)) [
      | inl e ↦ ground (arith, e, h, k)
      | inr (ys, e) ↦
          let g : xs ≡ ys = ground (arith, e, h, k) in
          rw g (
            count-with_counts counts q cs ys e
            ∙ count-by_id q (select_rows (λ c. supports os c.supported_os) s.categories)
            ∙ count-supported os q s.categories)
    ]

-- ===== src/Categories.antt =====
-- The categories of tasks: kinappserver/models/category.py. Category ids are opaque numbers, in the
-- order of their texts. The cached answer of `get_categories_for_user` is that of one user.
pub mod Shown
mod Tests
use kin_app_server.Common.{
  ℕ, String, Bool, true, false, not, ◌&&◌, ◌||◌, Option, none, some, List, [], ◌∷◌, map, ltb, ◌==◌,
  str_eq, if◌then◌else◌, is_none, is_some,
}
use kin_app_server.Common.Table.{count_rows, first_row, select_rows, delete_rows}
use kin_app_server.Action.{Action, Result, ok, err, uncaught, invalid_usage}
use kin_app_server.Account.{OsType, android, ios, other_os, get}

pub data Platform : Type 0 where
  only_android only_ios all_platforms no_platform : Platform

pub record Category : Type 0 where
  pub category_id : ℕ
  pub title : String
  pub image_url : String
  pub header_image_url : String
  pub supported_os : Platform

-- The JSON of a category; None for a platform that is missing or unknown.
pub record CatJson : Type 0 where
  pub id : ℕ
  pub title : String
  pub image_url : String
  pub header_image_url : String
  pub supported_os : Option Platform
  pub overwrite : Bool
  pub skip_image_test : Bool

abbrev pub has_cat_id : ℕ → Category → Bool
has_cat_id id c = c.category_id == id

unfoldable pub get_cat_by_id : ℕ → List Category → Option Category
get_cat_by_id id cs = first_row (has_cat_id id) cs

unfoldable pub get_all_cat_ids : List Category → List ℕ
get_all_cat_ids cs = map (λ c. c.category_id) cs

abbrev pub category_of : CatJson → Platform → Category
category_of j os = record {
  category_id = j.id;
  title = j.title;
  image_url = j.image_url;
  header_image_url = j.header_image_url;
  supported_os = os;
}

unfoldable pub add_category : (String → Bool) → CatJson → Action (List Category) Bool
unfolding get_cat_by_id
add_category test_image j cs = elim j.supported_os [
  | none ↦ (err (invalid_usage "cant add category - missing or invalid supported_os"), cs)
  | some os ↦
      if is_some (get_cat_by_id j.id cs) && not j.overwrite
      then (err (invalid_usage "cant overwrite category"), cs)
      else if not j.skip_image_test && not (test_image j.image_url && test_image j.header_image_url)
      then (err (invalid_usage "bad urls. bad!"), cs)
      else (ok true, category_of j os ∷ delete_rows (has_cat_id j.id) cs)
]

abbrev pub supports : OsType → Platform → Bool
supports os all_platforms = true
supports android only_android = true
supports ios only_ios = true
supports os p = false

unfoldable pub insert_by_id : Category → List Category → List Category
insert_by_id c [] = c ∷ []
insert_by_id c (d ∷ ds) =
    let rest = insert_by_id c ds in if ltb d.category_id c.category_id then d ∷ rest else c ∷ d ∷ ds

-- `order_by(Category.category_id)`
unfoldable pub by_id : List Category → List Category
unfolding insert_by_id
by_id [] = []
by_id (c ∷ cs) = insert_by_id c (by_id cs)

unfoldable pub list_categories : OsType → List Category → List Category
unfolding by_id
list_categories os cs = by_id (select_rows (λ c. supports os c.supported_os) cs)

unfoldable pub list_all_categories : List Category → List Category
unfolding by_id
list_all_categories cs = by_id cs

-- A category with its count of available tasks; a category without a count raises.
unfoldable pub with_counts : List (ℕ × ℕ) → List Category → Option (List (Category × ℕ))
with_counts counts [] = some []
with_counts counts (c ∷ cs) = elim (get c.category_id counts) [
  | none ↦ none
  | some n ↦ elim (with_counts counts cs) [ none ↦ none | some rest ↦ some ((c, n) ∷ rest) ]
]

pub record Shelf : Type 0 where
  pub categories : List Category
  pub cached : Option (List (Category × ℕ))

-- `counts` is what `count_immediate_tasks` returns, and `os` the platform of the user, None where
-- there is no such user.
unfoldable pub get_categories_for_user :
    Option OsType → List (ℕ × ℕ) → Action Shelf (List (Category × ℕ))
unfolding list_categories with_counts
get_categories_for_user none counts s = (err (invalid_usage "no such user_id"), s)
get_categories_for_user (some os) counts s = elim s.cached [
  | some answer ↦ (ok answer, s)
  | none ↦ elim (with_counts counts (list_categories os s.categories)) [
    | none ↦ (err uncaught, s)
    | some answer ↦ (ok answer, record s { cached = some answer })
  ]
]

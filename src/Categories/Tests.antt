-- ===== src/Categories/Tests.antt =====
-- Three categories, of which one is for Android and one for iOS.
use kin_app_server.Common.{
  ℕ, String, ◌≡◌, refl, Bool, true, false, not, ◌&&◌, none, some, List, [], ◌∷◌, is_some,
}
use kin_app_server.Common.Table.{count_rows}
use kin_app_server.Action.{ok}
use kin_app_server.Account.{android}
use kin_app_server.Categories.{
  Platform, all_platforms, only_android, only_ios, Category, CatJson, has_cat_id, get_cat_by_id,
  category_of, add_category, supports, Shelf, get_categories_for_user,
}
use kin_app_server.Categories.Shown.{add_category-get_cat_by_id, get_categories_for_user_lem}

abbrev category : ℕ → Platform → Category
category id os = record {
  category_id = id;
  title = "surveys";
  image_url = "a";
  header_image_url = "b";
  supported_os = os;
}

abbrev categories : List Category
categories = category 3 only_ios ∷ category 2 all_platforms ∷ category 1 only_android ∷ []

abbrev json : CatJson
json = record {
  id = 2;
  title = "quizzes";
  image_url = "c";
  header_image_url = "d";
  supported_os = some only_ios;
  overwrite = true;
  skip_image_test = false;
}

abbrev reachable : String → Bool
reachable url = true

is_allowed : (is_some (get_cat_by_id 2 categories) && not json.overwrite) ≡ false
unfolding get_cat_by_id
is_allowed = refl

add_category_example :
    ((add_category reachable json categories).0 ≡ ok true)
    × (get_cat_by_id 2 (add_category reachable json categories).1
        ≡ some (category_of json only_ios))
    × (count_rows (has_cat_id 2) (add_category reachable json categories).1 ≡ 1)
    × (get_cat_by_id 3 (add_category reachable json categories).1 ≡ get_cat_by_id 3 categories)
add_category_example =
    add_category-get_cat_by_id reachable json only_ios 3 categories refl is_allowed refl refl

abbrev shelf : Shelf
shelf = record { categories = categories; cached = none }

abbrev listing : List (Category × ℕ)
listing = (category 1 only_android, 0) ∷ (category 2 all_platforms, 1) ∷ []

listing_lem :
    (get_categories_for_user (some android) ((1, 0) ∷ (2, 1) ∷ (3, 1) ∷ []) shelf).0 ≡ ok listing
unfolding get_categories_for_user
listing_lem = refl

listing_example :
    count_rows (λ x. has_cat_id 2 x.0) listing
    ≡ count_rows (λ c. has_cat_id 2 c && supports android c.supported_os) categories
listing_example =
    get_categories_for_user_lem android ((1, 0) ∷ (2, 1) ∷ (3, 1) ∷ []) (has_cat_id 2) shelf listing
      refl listing_lem

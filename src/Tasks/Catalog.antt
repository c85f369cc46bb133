-- ===== src/Tasks/Catalog.antt =====
-- Adding and deleting tasks: `add_task`, `delete_task` and `set_delay_days` of
-- kinappserver/models/task2.py.
pub mod Valid
pub mod Add
mod Tests
use kin_app_server.Common.{
  ℕ, ◌+◌, String, Bool, true, false, not, ◌&&◌, ◌||◌, Option, none, some, List, [], ◌∷◌, ltb, ◌==◌,
  str_eq, if◌then◌else◌, is_none, is_some,
}
use kin_app_server.Common.Int.{ℤ, negsuc, eqb_ℤ}
use kin_app_server.Common.Table.{count_rows, first_row, update_rows, delete_rows}
use kin_app_server.Action.{
  Action, Result, ok, err, uncaught, invalid_usage, internal_error, ◌>>=◌, ◌>>◌, pure, raise,
  raise_if, gets, modify, or_raise,
}
use kin_app_server.Tasks.{
  TaskType, quiz, video_questionnaire, truex, questionnaire, ItemType, QuizData, ItemAnswer, Item,
  Task2,
}

-- The table `task2`, and the categories that its foreign key may name.
pub record Catalog : Type 0 where
  pub tasks : List Task2
  pub categories : List ℕ

-- An item as it is sent: no type stands for one that is not known.
pub record JsonItem : Type 0 where
  pub id : ℕ
  pub type : Option ItemType
  pub quiz_data : Option QuizData
  pub results : List ItemAnswer

pub record TaskJson : Type 0 where
  pub id : Option ℕ
  pub cat_id : ℕ
  pub position : ℤ
  pub type : TaskType
  pub price : ℕ
  pub items : List JsonItem
  pub video_url : Option String
  pub excluded_country_codes : List String
  pub task_start_date : Option ℕ
  pub task_expiration_date : Option ℕ
  pub delay_days : ℕ
  pub min_client_version_android : String
  pub min_client_version_ios : String
  pub overwrite : Bool
  pub skip_image_test : Bool

abbrev pub has_id : ℕ → Task2 → Bool
has_id task_id t = t.task_id == task_id

abbrev pub is_at : ℕ → ℤ → Task2 → Bool
is_at cat_id position t = (t.category_id == cat_id) && eqb_ℤ t.position position

abbrev pub is_adhoc : ℤ → Bool
is_adhoc position = eqb_ℤ position (negsuc 0)

abbrev max : ℕ → ℕ → ℕ
max a b = if ltb a b then b else a

unfoldable pub highest_id : List Task2 → ℕ
highest_id [] = 0
highest_id (t ∷ ts) = max t.task_id (highest_id ts)

unfoldable pub get_next_task_id : List Task2 → ℕ
unfolding highest_id
get_next_task_id [] = 0
get_next_task_id (t ∷ ts) = highest_id (t ∷ ts) + 1

-- All ad-hoc tasks share the position -1.
unfoldable pub is_position_taken : ℕ → ℤ → List Task2 → Bool
is_position_taken cat_id position tasks =
    is_adhoc position || not (count_rows (is_at cat_id position) tasks == 0)

abbrev pub is_quiz : TaskType → Bool
is_quiz quiz = true
is_quiz t = false

abbrev pub is_answer : ℕ → List ItemAnswer → Bool
is_answer aid [] = false
is_answer aid (a ∷ answers) = (a.id == aid) || is_answer aid answers

-- The test of a quiz question: it stands in a quiz, has an explanation, and its answer is one of
-- those on offer.
unfoldable pub is_quiz_data_valid : TaskType → QuizData → List ItemAnswer → Bool
is_quiz_data_valid type q answers =
    is_quiz type && not (str_eq q.explanation "") && is_answer q.answer_id answers

-- The sanity test of the items; where it passes, the items with their types.
unfoldable pub verify_items : TaskType → List JsonItem → Result (List Item)
unfolding is_quiz_data_valid
verify_items type [] = ok []
verify_items type (i ∷ is) = elim i.type [
  | none ↦ err (invalid_usage "cant add task with invalid item-type")
  | some item_type ↦
      let rest = verify_items type is in
      if elim i.quiz_data [ none ↦ true | some q ↦ is_quiz_data_valid type q i.results ]
      then elim rest [
        | err e ↦ err e
        | ok items ↦ ok (
            record { id = i.id; type = item_type; quiz_data = i.quiz_data; results = i.results }
            ∷ items)
      ]
      else err (invalid_usage "cant verify quiz data for task_id")
]

abbrev pub is_video : TaskType → Bool
is_video video_questionnaire = true
is_video t = false

abbrev pub task_of : TaskJson → ℕ → List Item → Task2
task_of j task_id items = record {
  task_id = task_id;
  category_id = j.cat_id;
  position = j.position;
  task_type = j.type;
  price = j.price;
  items = items;
  excluded_country_codes = some j.excluded_country_codes;
  task_start_date = j.task_start_date;
  task_expiration_date = j.task_expiration_date;
  delay_days = j.delay_days;
  min_client_version_android = j.min_client_version_android;
  min_client_version_ios = j.min_client_version_ios;
}

abbrev pub given_id : TaskJson → List Task2 → ℕ
given_id j tasks = elim j.id [ none ↦ get_next_task_id tasks | some i ↦ i ]

-- The guards before the items, in their order.
unfoldable pub check_place : TaskJson → ℕ → List Task2 → Result (Unit {0})
unfolding is_position_taken
check_place j task_id tasks =
    if is_some (first_row (has_id task_id) tasks) && not j.overwrite
    then err (invalid_usage "task_id already exists")
    else if is_adhoc j.position
    then if is_none j.task_start_date || is_none j.task_expiration_date
      then err (invalid_usage "cant add ad-hoc task w/o start/expiration dates")
      else ok tt
    else if is_position_taken j.cat_id j.position tasks && not j.overwrite
    then err (invalid_usage "cant insert task - position taken")
    else ok tt

-- The guards after the items; `urls_fail` says whether a url could not be fetched.
unfoldable pub check_urls : TaskJson → Bool → Result (Unit {0})
check_urls j urls_fail =
    if is_video j.type && is_none j.video_url
    then err (invalid_usage "no video_url field in the video_questionnaire!")
    else if urls_fail && not j.skip_image_test
    then err (invalid_usage "cant verify images")
    else ok tt

-- The first row with the id goes, where there is one.
abbrev pub delete_first : (Task2 → Bool) → List Task2 → List Task2
delete_first p [] = []
delete_first p (t ∷ ts) = if p t then ts else t ∷ delete_first p ts

-- A category that does not exist makes the commit fail, which is answered False.
unfoldable pub insert_task : Task2 → Action Catalog Bool
insert_task t s =
    if count_rows (λ cat_id. cat_id == t.category_id) s.categories == 0
    then (ok false, s)
    else (ok true, record s { tasks = t ∷ delete_first (has_id t.task_id) s.tasks })

abbrev pub lift : {A : Type 0} → Result A → Action Catalog A
lift r s = (r, s)

unfoldable pub add_task : TaskJson → Bool → Action Catalog Bool
unfolding get_next_task_id check_place verify_items check_urls insert_task
add_task j urls_fail = do
  task_id ← gets (λ s. given_id j s.tasks)
  place ← gets (λ s. check_place j task_id s.tasks)
  lift place
  items ← lift (verify_items j.type j.items)
  lift (check_urls j urls_fail)
  insert_task (task_of j task_id items)

unfoldable pub delete_task : ℕ → Action Catalog (Unit {0})
delete_task task_id = do
  found ← gets (λ s. is_some (first_row (has_id task_id) s.tasks))
  raise_if (not found) (invalid_usage "task_id doesnt exist - cant delete")
  modify (λ s. record s { tasks = delete_first (has_id task_id) s.tasks })

-- On every task, or on one; the id 0 counts as none given.
unfoldable pub set_delay_days : ℕ → Option ℕ → Catalog → Catalog
set_delay_days delay_days task_id s =
    let is_meant : Task2 → Bool =
      λ t. elim task_id [ none ↦ true | some i ↦ (i == 0) || has_id i t ] in
    record s { tasks = update_rows is_meant (λ t. record t { delay_days = delay_days }) s.tasks }

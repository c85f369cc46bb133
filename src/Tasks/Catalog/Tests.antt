-- ===== src/Tasks/Catalog/Tests.antt =====
-- A catalogue with one task, and a second that is sent.
use kin_app_server.Common.{◌≡◌, refl, arith, true, false, none, some, [], ◌∷◌}
use kin_app_server.Common.Int.{pos}
use kin_app_server.Action.{ok, after}
use kin_app_server.Tasks.{quiz, text, Task2}
use kin_app_server.Tasks.Catalog.{Catalog, TaskJson, add_task}
use kin_app_server.Tasks.Catalog.Add.{
  IsSound, PlacesUnique, add_task-IsSound, add_task-PlacesUnique,
}

abbrev first : Task2
first = record {
  task_id = 0;
  category_id = 3;
  position = pos 0;
  task_type = quiz;
  price = 4;
  items = [];
  excluded_country_codes = some [];
  task_start_date = none;
  task_expiration_date = none;
  delay_days = 0;
  min_client_version_android = "1";
  min_client_version_ios = "1";
}

abbrev catalog : Catalog
catalog = record { tasks = first ∷ []; categories = 3 ∷ [] }

abbrev sent : TaskJson
sent = record {
  id = none;
  cat_id = 3;
  position = pos 1;
  type = quiz;
  price = 5;
  items =
      record {
        id = 1;
        type = some text;
        quiz_data = some (record { answer_id = 10; explanation = "why"; reward = 2 });
        results = record { id = 10; tip_value = none } ∷ [];
      }
      ∷ [];
  video_url = none;
  excluded_country_codes = [];
  task_start_date = none;
  task_expiration_date = none;
  delay_days = 1;
  min_client_version_android = "1";
  min_client_version_ios = "1";
  overwrite = false;
  skip_image_test = true;
}

-- It is added.
sent-added : (add_task sent false catalog).0 ≡ ok true
unfolding add_task
sent-added = refl

catalog-IsSound : IsSound catalog.tasks
catalog-IsSound = record {
  ids = λ i. ground arith;
  valid = (record { dated = λ e. absurd (ground (arith, e)); items = tt }, tt);
}

add_task-IsSound_example : IsSound (after (add_task sent false) catalog).tasks
add_task-IsSound_example = add_task-IsSound sent false catalog catalog-IsSound

add_task-PlacesUnique_example : PlacesUnique (after (add_task sent false) catalog).tasks
add_task-PlacesUnique_example =
    add_task-PlacesUnique sent false catalog refl (λ cat_id position a. ground arith)

-- ===== src/Tasks/Next/Tests.antt =====
-- A category of three tasks, of which one is solved and one is over.
use kin_app_server.Common.{◌≡◌, refl, true, false, none, some, List, [], ◌∷◌}
use kin_app_server.Common.Int.{pos, negsuc}
use kin_app_server.Account.{android, Older}
use kin_app_server.Tasks.{questionnaire, Task2}
use kin_app_server.Tasks.Next.{Clock, Client, next_task_id_for_category, is_before}
use kin_app_server.Tasks.Next.Least.{IsNext, next_task_id_for_category_lem}

abbrev clock : Clock
clock = record { now = 100; of_none = 100 }

abbrev client : Client
client = record { user_id = 7; os_type = android; app_ver = "1.4.0"; country_code = some "IL" }

abbrev never_older : Older
never_older a b = false

abbrev static : Task2
static = record {
  task_id = 1;
  category_id = 3;
  position = pos 1;
  task_type = questionnaire;
  price = 4;
  items = [];
  excluded_country_codes = some ("US" ∷ []);
  task_start_date = none;
  task_expiration_date = none;
  delay_days = 0;
  min_client_version_android = "1";
  min_client_version_ios = "1";
}

abbrev tasks : List Task2
tasks =
    static
    ∷ record static { task_id = 2; position = pos 0 }
    ∷ record static {
      task_id = 3;
      position = negsuc 0;
      task_start_date = some 10;
      task_expiration_date = some 50;
    }
    ∷ []

-- The ad-hoc task comes first by its position, but it is over; task 2 is solved.
next_task_id_for_category_example :
    (t : Task2) × (t.task_id ≡ 1)
    × IsNext clock [] never_older client true tasks ((3, 2 ∷ []) ∷ []) 3 t
unfolding next_task_id_for_category is_before
next_task_id_for_category_example =
    next_task_id_for_category_lem clock [] never_older client true tasks ((3, 2 ∷ []) ∷ []) 3 1 []
      refl

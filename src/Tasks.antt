-- ===== src/Tasks.antt =====
-- kinappserver/models/task2.py and the endpoint of kinappserver/views_public.py that takes the
-- results of a task: the tasks, which of them is next for a user, and what a user is paid.
-- Task, question and answer ids are opaque numbers. The price of a task, the rewards of its quizzes
-- and the values of its tips are natural numbers: an assumption, since the source only tests that
-- they are integers.
pub mod Reward
pub mod Next
pub mod Catalog
pub mod Results
pub mod Payment
pub mod Serving
pub mod Truex
use kin_app_server.Common.{ℕ, String, Option, List}
use kin_app_server.Common.Int.{ℤ}

pub data TaskType : Type 0 where
  questionnaire quiz video_questionnaire truex : TaskType

-- the types of an item that `add_task` lets in
pub data ItemType : Type 0 where
  textimage text textmultiple textemoji rating tip dual_image : ItemType

pub record QuizData : Type 0 where
  pub answer_id : ℕ
  pub explanation : String
  pub reward : ℕ

-- An answer that can be chosen; only those of a tipping question have a value.
pub record ItemAnswer : Type 0 where
  pub id : ℕ
  pub tip_value : Option ℕ

pub record Item : Type 0 where
  pub id : ℕ
  pub type : ItemType
  pub quiz_data : Option QuizData
  pub results : List ItemAnswer

-- What the user answered to a question: the ids of the chosen answers.
pub record Submitted : Type 0 where
  pub qid : ℕ
  pub aid : List ℕ

pub record Task2 : Type 0 where
  pub task_id : ℕ
  pub category_id : ℕ
  pub position : ℤ
  pub task_type : TaskType
  pub price : ℕ
  pub items : List Item
  pub excluded_country_codes : Option (List String)
  pub task_start_date : Option ℕ
  pub task_expiration_date : Option ℕ
  pub delay_days : ℕ
  pub min_client_version_android : String
  pub min_client_version_ios : String

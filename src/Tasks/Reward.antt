-- ===== src/Tasks/Reward.antt =====
-- How much a user is paid for a task: the quiz and the tip of `post_user_task_results_endpoint`
-- in kinappserver/views_public.py, and the amount of `reward_address_for_task_internal`.
pub mod Bounds
pub mod Full
mod Tests
use kin_app_server.Common.{
  ℕ, ◌+◌, Bool, true, false, Option, none, some, List, [], ◌∷◌, ◌==◌, if◌then◌else◌,
}
use kin_app_server.Common.Int.{ℤ, pos, ◌+ℤ◌, ◌-ℤ◌}
use kin_app_server.Account.{get, put}
use kin_app_server.Tasks.{
  TaskType, quiz, ItemType, tip, QuizData, ItemAnswer, Item, Submitted, Task2,
}

-- {qid: {'aid', 'reward'}}
unfoldable pub correct_answers_onto : List (ℕ × QuizData) → List Item → List (ℕ × QuizData)
correct_answers_onto d [] = d
correct_answers_onto d (item ∷ items) = elim item.quiz_data [
  | none ↦ correct_answers_onto d items
  | some q ↦ correct_answers_onto (put item.id q d) items
]

-- {qid: the first answer}; an answer without any raises.
unfoldable pub actual_results_onto : List (ℕ × ℕ) → List Submitted → Option (List (ℕ × ℕ))
actual_results_onto d [] = some d
actual_results_onto d (r ∷ rs) = elim r.aid [
  | [] ↦ none
  | aid ∷ _ ↦ actual_results_onto (put r.qid aid d) rs
]

-- A question that was not answered raises, which ends the loop with what was added before.
unfoldable pub add_rewards : List (ℕ × QuizData) → List (ℕ × ℕ) → ℕ → ℕ
add_rewards [] actual total = total
add_rewards ((qid, q) ∷ correct) actual total = elim (get qid actual) [
  | none ↦ total
  | some aid ↦
      let more = add_rewards correct actual (total + q.reward) in
      let same = add_rewards correct actual total in if q.answer_id == aid then more else same
]

unfoldable pub total_quiz_reward : List Item → List Submitted → ℕ
unfolding correct_answers_onto actual_results_onto add_rewards
total_quiz_reward items results = elim (actual_results_onto [] results) [
  | none ↦ 0
  | some actual ↦ add_rewards (correct_answers_onto [] items) actual 0
]

-- The loop over the answers of the tipping question, for one result of the user: None where it
-- raises, as an answer without a value does, and the tip so far is kept where none matches.
unfoldable pub tip_of_answer : ℕ → List ItemAnswer → ℕ → Option ℕ
tip_of_answer aid [] so_far = some so_far
tip_of_answer aid (a ∷ answers) so_far =
    if a.id == aid then a.tip_value else tip_of_answer aid answers so_far

abbrev is_empty : {A : Type 0} → List A → Bool
is_empty [] = true
is_empty (_ ∷ _) = false

-- The loop over the user's results. An exception leaves the tip found so far.
unfoldable pub tip_of_results : Item → List Submitted → ℕ → ℕ
unfolding tip_of_answer
tip_of_results question [] so_far = so_far
tip_of_results question (r ∷ rs) so_far =
    if r.qid == question.id
    then elim r.aid [
      | [] ↦ if is_empty question.results then tip_of_results question rs so_far else so_far
      | aid ∷ _ ↦ elim (tip_of_answer aid question.results so_far) [
        | none ↦ so_far
        | some t ↦ tip_of_results question rs t
      ]
    ]
    else tip_of_results question rs so_far

unfoldable pub last_item : List Item → Option Item
last_item [] = none
last_item (item ∷ []) = some item
last_item (_ ∷ item ∷ items) = last_item (item ∷ items)

unfoldable pub tip_given : Item → List Submitted → ℕ
unfolding tip_of_results
tip_given item results = elim item.type [ tip ↦ tip_of_results item results 0 | _ ↦ 0 ]

unfoldable pub quiz_part : TaskType → List Item → List Submitted → ℕ
unfolding total_quiz_reward
quiz_part quiz items results = total_quiz_reward items results
quiz_part task_type items results = 0

-- What the results add to the price. A task without items raises.
unfoldable pub delta : Task2 → List Submitted → Option ℤ
unfolding quiz_part tip_given last_item
delta task results = elim (last_item task.items) [
  | none ↦ none
  | some item ↦
      some (pos (quiz_part task.task_type task.items results) -ℤ pos (tip_given item results))
]

-- `amount` of `reward_address_for_task_internal`; a task without a price raises.
unfoldable pub amount : Task2 → ℤ → Option ℤ
amount task d = if task.price == 0 then none else some (pos task.price +ℤ d)

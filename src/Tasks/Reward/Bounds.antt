-- ===== src/Tasks/Reward/Bounds.antt =====
-- The bounds of what a user is paid for a task, and when the quiz pays in full.
use kin_app_server.Common.{
  ℕ, ◌+◌, ◌≤◌, ◌≡◌, none, some, List, [], ◌∷◌, ◌==◌, arith, ltb, Bool-cases, Option-cases,
  List-cases, inl, inr, if◌then◌else◌,
}
use kin_app_server.Common.Int.{ℤ, pos, ◌+ℤ◌, ◌-ℤ◌, ◌≤ℤ◌}
use kin_app_server.Account.{put}
use kin_app_server.Tasks.{quiz, QuizData, ItemAnswer, Item, Submitted, Task2}
use kin_app_server.Tasks.Reward.{
  correct_answers_onto, actual_results_onto, add_rewards, total_quiz_reward, tip_of_answer,
  tip_of_results, tip_given, last_item, quiz_part, delta, amount,
}

-- The rewards of all the quiz questions of a task.
abbrev pub sum_rewards : List Item → ℕ
sum_rewards [] = 0
sum_rewards (item ∷ items) =
    elim item.quiz_data [ none ↦ 0 | some q ↦ q.reward ] + sum_rewards items

abbrev pub sum_dict : List (ℕ × QuizData) → ℕ
sum_dict [] = 0
sum_dict ((qid, q) ∷ d) = q.reward + sum_dict d

sum-put :
    (k : ℕ) (q : QuizData) (d : List (ℕ × QuizData)) → sum_dict (put k q d) ≤ sum_dict d + q.reward
sum-put k q [] = omega arith
sum-put k q ((j, r) ∷ d) = ground (arith, sum-put k q d)

sum-correct_answers :
    (d : List (ℕ × QuizData)) (items : List Item)
    → sum_dict (correct_answers_onto d items) ≤ sum_dict d + sum_rewards items
unfolding correct_answers_onto
sum-correct_answers d [] = omega arith
sum-correct_answers d (item ∷ items) = elim (Option-cases item.quiz_data) [
  | inl e ↦ ground (arith, e, sum-correct_answers d items)
  | inr (q, e) ↦ ground (arith, e, sum-correct_answers (put item.id q d) items, sum-put item.id q d)
]

add_rewards-le :
    (correct : List (ℕ × QuizData)) (actual : List (ℕ × ℕ)) (total : ℕ)
    → add_rewards correct actual total ≤ total + sum_dict correct
unfolding add_rewards
add_rewards-le [] actual total = omega arith
add_rewards-le ((qid, q) ∷ correct) actual total =
    ground
      (arith, add_rewards-le correct actual (total + q.reward), add_rewards-le correct actual total)

pub total_quiz_reward_le :
    (items : List Item) (results : List Submitted)
    → total_quiz_reward items results ≤ sum_rewards items
unfolding total_quiz_reward
total_quiz_reward_le items results = elim (Option-cases (actual_results_onto [] results)) [
  | inl e ↦ ground (arith, e)
  | inr (actual, e) ↦ ground (
    arith,
    e,
    add_rewards-le (correct_answers_onto [] items) actual 0,
    sum-correct_answers [] items,
  )
]

-- The largest of the values.
abbrev max : ℕ → ℕ → ℕ
max a b = if ltb a b then b else a

abbrev pub max_tip : List ItemAnswer → ℕ
max_tip [] = 0
max_tip (a ∷ answers) = max (elim a.tip_value [ none ↦ 0 | some t ↦ t ]) (max_tip answers)

tip_of_answer-le :
    (aid : ℕ) (answers : List ItemAnswer) (so_far cap t : ℕ)
    → so_far ≤ cap
    → max_tip answers ≤ cap
    → tip_of_answer aid answers so_far ≡ some t
    → t ≤ cap
unfolding tip_of_answer
tip_of_answer-le aid [] so_far cap t h k e = ground (arith, e)
tip_of_answer-le aid (a ∷ answers) so_far cap t h k e = elim (Bool-cases (a.id == aid)) [
  | inl q ↦ ground (arith, e, q, k)
  | inr q ↦ tip_of_answer-le aid answers so_far cap t h (ground (arith, k)) (ground (arith, q, e))
]

tip_of_results-le :
    (question : Item) (rs : List Submitted) (so_far : ℕ)
    → so_far ≤ max_tip question.results
    → tip_of_results question rs so_far ≤ max_tip question.results
unfolding tip_of_results
tip_of_results-le question [] so_far h = h
tip_of_results-le question (r ∷ rs) so_far h =
    let more = tip_of_results-le question rs in
    elim (List-cases r.aid) [
      | inl e ↦ ground (arith, e, h, more so_far h)
      | inr (aid, others, e) ↦ elim (Option-cases (tip_of_answer aid question.results so_far)) [
        | inl n ↦ ground (arith, e, n, h, more so_far h)
        | inr (t, n) ↦ ground (
          arith,
          e,
          n,
          more so_far h,
          more t (
              tip_of_answer-le aid question.results so_far (max_tip question.results) t h
                (omega arith) n),
        )
      ]
    ]

pub tip_given_le : (item : Item) (rs : List Submitted) → tip_given item rs ≤ max_tip item.results
unfolding tip_given
tip_given_le item rs = ground (arith, tip_of_results-le item rs 0 (omega arith))

-- What the quiz questions can add; only a quiz has any that count.
abbrev pub reward_cap : Task2 → ℕ
reward_cap task = elim task.task_type [ quiz ↦ sum_rewards task.items | _ ↦ 0 ]

quiz_part_le :
    (task : Task2) (rs : List Submitted) → quiz_part task.task_type task.items rs ≤ reward_cap task
unfolding quiz_part
quiz_part_le task rs = ground (arith, total_quiz_reward_le task.items rs)

paid_low : (p q t m : ℕ) → t ≤ m → pos p ≤ℤ pos p +ℤ (pos q -ℤ pos t) +ℤ pos m
unfolding ◌+ℤ◌ ◌-ℤ◌
paid_low p q t m h = ground arith

paid_high : (p q t m : ℕ) → q ≤ m → pos p +ℤ (pos q -ℤ pos t) ≤ℤ pos (p + m)
unfolding ◌+ℤ◌ ◌-ℤ◌
paid_high p q t m h = ground arith

-- For a task with a price and a last item an amount is always found: at least the price less the
-- largest tip that its last item offers, and at most the price with the rewards of all its quiz
-- questions, whatever the client sends as results.
pub amount_bounds :
    (task : Task2) (item : Item) (results : List Submitted)
    → last_item task.items ≡ some item
    → 1 ≤ task.price
    → (d : ℤ) × (v : ℤ) × (delta task results ≡ some d)
      × (amount task d ≡ some v)
      × (pos task.price ≤ℤ v +ℤ pos (max_tip item.results))
      × (v ≤ℤ pos (task.price + reward_cap task))
unfolding delta amount
amount_bounds task item results h k =
    let d : ℤ = pos (quiz_part task.task_type task.items results) -ℤ pos (tip_given item results) in
    (
      d,
      pos task.price +ℤ d,
      ground (arith, h),
      ground (arith, k),
      paid_low task.price (quiz_part task.task_type task.items results) (tip_given item results)
          (max_tip item.results) (tip_given_le item results),
      paid_high task.price (quiz_part task.task_type task.items results) (tip_given item results)
          (reward_cap task) (quiz_part_le task results),
    )

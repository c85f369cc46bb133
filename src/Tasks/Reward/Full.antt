-- ===== src/Tasks/Reward/Full.antt =====
-- A quiz that is answered right is paid in full.
use mathlib.Core.Path.{subst}
use kin_app_server.Common.{
  ℕ, ◌+◌, ◌≡◌, refl, false, none, some, List, [], ◌∷◌, ◌==◌, arith, All, All-map, All-both,
  Bool-cases, Option-cases, inl, inr,
}
use kin_app_server.Account.{get, put}
use kin_app_server.Tasks.{QuizData, Item, Submitted}
use kin_app_server.Tasks.Reward.{
  correct_answers_onto, actual_results_onto, add_rewards, total_quiz_reward,
}
use kin_app_server.Tasks.Reward.Bounds.{sum_rewards, sum_dict}

-- No two items have one id.
abbrev pub Distinct : List Item → Type 0
Distinct [] = Unit
Distinct (item ∷ items) = All (λ other. (item.id == other.id) ≡ false) items × Distinct items

-- Each question of the dictionary is answered as it should be.
abbrev Right : List (ℕ × ℕ) → List (ℕ × QuizData) → Type 0
Right actual d = All (λ (qid, q). get qid actual ≡ some q.answer_id) d

-- Each quiz question is answered as it should be.
abbrev pub AllRight : List (ℕ × ℕ) → List Item → Type 0
AllRight actual items =
    All (λ item. (q : QuizData) → item.quiz_data ≡ some q → get item.id actual ≡ some q.answer_id)
      items

add_rewards-full :
    (actual : List (ℕ × ℕ)) (d : List (ℕ × QuizData)) (total : ℕ)
    → Right actual d
    → add_rewards d actual total ≡ total + sum_dict d
unfolding add_rewards
add_rewards-full actual [] total h = omega arith
add_rewards-full actual ((qid, q) ∷ d) total h =
    ground (arith, h.0, add_rewards-full actual d (total + q.reward) h.1)

put-Right :
    (actual : List (ℕ × ℕ)) (k : ℕ) (q : QuizData) (d : List (ℕ × QuizData))
    → get k actual ≡ some q.answer_id
    → Right actual d
    → Right actual (put k q d)
put-Right actual k q [] e h = (e, tt)
put-Right actual k q ((j, r) ∷ d) e h = elim (Bool-cases (j == k)) [
  | inl t ↦ subst (Right actual) {x = (k, q) ∷ d} (ground (arith, t)) (e, h.1)
  | inr f ↦
      subst (Right actual) {x = (j, r) ∷ put k q d} (ground (arith, f))
        (h.0, put-Right actual k q d e h.1)
]

correct_answers-Right :
    (actual : List (ℕ × ℕ)) (d : List (ℕ × QuizData)) (items : List Item)
    → Right actual d
    → AllRight actual items
    → Right actual (correct_answers_onto d items)
unfolding correct_answers_onto
correct_answers-Right actual d [] h k = h
correct_answers-Right actual d (item ∷ items) h k = elim (Option-cases item.quiz_data) [
  | inl n ↦
      subst (Right actual) {x = correct_answers_onto d items} (ground (arith, n))
        (correct_answers-Right actual d items h k.1)
  | inr (q, n) ↦
      subst (Right actual) {x = correct_answers_onto (put item.id q d) items} (ground (arith, n)) (
        correct_answers-Right actual (put item.id q d) items
          (put-Right actual item.id q d (k.0 q n) h) k.1)
]

abbrev Fresh : List (ℕ × QuizData) → List Item → Type 0
Fresh d items = All (λ item. get item.id d ≡ none) items

sum-put_fresh :
    (k : ℕ) (q : QuizData) (d : List (ℕ × QuizData))
    → get k d ≡ none
    → sum_dict (put k q d) ≡ sum_dict d + q.reward
sum-put_fresh k q [] h = omega arith
sum-put_fresh k q ((j, r) ∷ d) h = ground (arith, h, sum-put_fresh k q d)

get-put_other :
    (k j : ℕ) (q : QuizData) (d : List (ℕ × QuizData))
    → (k == j) ≡ false
    → get j d ≡ none
    → get j (put k q d) ≡ none
get-put_other k j q [] h e = ground (arith, h)
get-put_other k j q ((i, r) ∷ d) h e = ground (arith, h, e, get-put_other k j q d h)

sum-correct_full :
    (d : List (ℕ × QuizData)) (items : List Item)
    → Distinct items
    → Fresh d items
    → sum_dict (correct_answers_onto d items) ≡ sum_dict d + sum_rewards items
unfolding correct_answers_onto
sum-correct_full d [] h f = omega arith
sum-correct_full d (item ∷ items) h f = elim (Option-cases item.quiz_data) [
  | inl n ↦ ground (arith, n, sum-correct_full d items h.1 f.1)
  | inr (q, n) ↦
      let fresh : Fresh (put item.id q d) items =
        All-map items (λ j b. get-put_other item.id j.id q d b.0 b.1)
          (All-both (λ j. (item.id == j.id) ≡ false) (λ j. get j.id d ≡ none) items h.0 f.1) in
      ground (
        arith,
        n,
        sum-correct_full (put item.id q d) items h.1 fresh,
        sum-put_fresh item.id q d f.0,
      )
]

all-Fresh : (items : List Item) → Fresh [] items
all-Fresh [] = tt
all-Fresh (item ∷ items) = (refl, all-Fresh items)

-- Results that can be read and that answer each quiz question right are paid the sum of all the
-- questions' rewards, where no two items of the task have one id.
pub total_quiz_reward-full :
    (items : List Item) (results : List Submitted) (actual : List (ℕ × ℕ))
    → Distinct items
    → actual_results_onto [] results ≡ some actual
    → AllRight actual items
    → total_quiz_reward items results ≡ sum_rewards items
unfolding total_quiz_reward
total_quiz_reward-full items results actual h e k =
    let d : List (ℕ × QuizData) = correct_answers_onto [] items in
    ground (
      arith,
      e,
      add_rewards-full actual d 0 (correct_answers-Right actual [] items tt k),
      sum-correct_full [] items h (all-Fresh items),
    )

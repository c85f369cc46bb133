-- ===== src/Tasks/Reward/Tests.antt =====
-- A quiz of two questions that ends in a tip.
use kin_app_server.Common.{◌≡◌, refl, ◌+◌, arith, none, some, List, [], ◌∷◌}
use kin_app_server.Common.Int.{ℤ, pos, ◌≤ℤ◌, ◌+ℤ◌, ◌-ℤ◌}
use kin_app_server.Tasks.{quiz, text, tip, Item, Submitted, Task2}
use kin_app_server.Tasks.Reward.{total_quiz_reward, delta, amount, actual_results_onto, last_item}
use kin_app_server.Tasks.Reward.Bounds.{sum_rewards, max_tip, reward_cap, amount_bounds}
use kin_app_server.Tasks.Reward.Full.{total_quiz_reward-full}

abbrev question : Item
question = record {
  id = 1;
  type = text;
  quiz_data = some (record { answer_id = 10; explanation = "why"; reward = 5 });
  results = record { id = 10; tip_value = none } ∷ record { id = 11; tip_value = none } ∷ [];
}

abbrev tipping : Item
tipping = record {
  id = 2;
  type = tip;
  quiz_data = none;
  results = record { id = 20; tip_value = some 3 } ∷ [];
}

abbrev items : List Item
items = question ∷ tipping ∷ []

abbrev task : Task2
task = record {
  task_id = 7;
  category_id = 1;
  position = pos 0;
  task_type = quiz;
  price = 4;
  items = items;
  excluded_country_codes = some [];
  task_start_date = none;
  task_expiration_date = none;
  delay_days = 0;
  min_client_version_android = "1";
  min_client_version_ios = "1";
}

abbrev results : List Submitted
results = record { qid = 1; aid = 10 ∷ [] } ∷ record { qid = 2; aid = 20 ∷ [] } ∷ []

-- 5 for the right answer, less the tip of 3
delta-7 : delta task results ≡ some (pos 2)
unfolding delta ◌-ℤ◌
delta-7 = refl

amount_example :
    (d : ℤ) × (v : ℤ) × (delta task results ≡ some d)
    × (amount task d ≡ some v)
    × (pos 4 ≤ℤ v +ℤ pos (max_tip tipping.results))
    × (v ≤ℤ pos (4 + reward_cap task))
unfolding last_item
amount_example = amount_bounds task tipping results refl (omega arith)

total_quiz_reward_example : total_quiz_reward items results ≡ sum_rewards items
unfolding actual_results_onto
total_quiz_reward_example =
    total_quiz_reward-full items results ((1, 10) ∷ (2, 20) ∷ []) ((refl, tt), (tt, tt)) refl
      (λ q e. ground (arith, e), (λ q e. absurd (ground (arith, e)), tt))

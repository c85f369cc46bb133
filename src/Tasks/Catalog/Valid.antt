-- ===== src/Tasks/Catalog/Valid.antt =====
-- The well-formed tasks, and that the sanity tests of `add_task` let in no other.
use mathlib.Core.Path.{subst}
use kin_app_server.Common.{
  ℕ, ◌≡◌, Bool, true, none, some, List, [], ◌∷◌, is_some, arith, All, Bool-cases, Option-cases, inl,
  inr,
}
use kin_app_server.Action.{ok, Result-cases}
use kin_app_server.Tasks.{TaskType, Item, Task2}
use kin_app_server.Tasks.Catalog.{
  JsonItem, TaskJson, is_adhoc, is_quiz_data_valid, verify_items, check_place,
}

abbrev pub is_item_valid : TaskType → Item → Bool
is_item_valid type i = elim i.quiz_data [
  | none ↦ true
  | some q ↦ is_quiz_data_valid type q i.results
]

-- An ad-hoc task has both dates; each quiz question stands in a quiz, with an explanation, and with
-- an answer that is on offer.
pub record IsValid (t : Task2) : Type 0 where
  pub dated :
      is_adhoc t.position ≡ true
      → (is_some t.task_start_date ≡ true) × (is_some t.task_expiration_date ≡ true)
  pub items : All (λ i. is_item_valid t.task_type i ≡ true) t.items

pub verify_items-valid :
    (type : TaskType) (is : List JsonItem) (items : List Item)
    → verify_items type is ≡ ok items
    → All (λ i. is_item_valid type i ≡ true) items
unfolding verify_items
verify_items-valid type [] items e =
    subst (All (λ i. is_item_valid type i ≡ true)) {x = []} (ground (arith, e)) tt
verify_items-valid type (i ∷ is) items e = elim (Option-cases i.type) [
  | inl n ↦ absurd (ground (arith, e, n))
  | inr (item_type, n) ↦ elim (Result-cases (verify_items type is)) [
    | inl (rest, r) ↦
        let item : Item = record {
          id = i.id;
          type = item_type;
          quiz_data = i.quiz_data;
          results = i.results;
        } in
        elim (Bool-cases (is_item_valid type item)) [
          | inl v ↦
              subst (All (λ k. is_item_valid type k ≡ true)) {x = item ∷ rest}
                (ground (arith, e, n, r, v)) (v, verify_items-valid type is rest r)
          | inr v ↦ absurd (ground (arith, e, n, r, v))
        ]
    | inr (x, r) ↦ absurd (ground (arith, e, n, r))
  ]
]

pub check_place-dated :
    (j : TaskJson) (task_id : ℕ) (tasks : List Task2)
    → check_place j task_id tasks ≡ ok tt
    → is_adhoc j.position ≡ true
    → (is_some j.task_start_date ≡ true) × (is_some j.task_expiration_date ≡ true)
unfolding check_place
check_place-dated j task_id tasks e a = ground (arith, e, a)

-- ===== src/Tasks/Results/Completed.antt =====
-- A task whose results are stored is done with.
use mathlib.Core.Path.{subst}
use kin_app_server.Common.{
  ℕ, ◌≡◌, ◌≢◌, ap, sym, ◌∙◌, String, Bool, true, some, List, [], ◌∷◌, ◌++◌, arith, Option-cases,
  inl, inr,
}
use kin_app_server.Action.{ok, after}
use kin_app_server.Account.{UserAppData, get, put, Older}
use kin_app_server.Tasks.{Task2, Submitted}
use kin_app_server.Tasks.Next.{Clock, Client, elem, completed_in, Pushes, next_task_id_for_category}
use kin_app_server.Tasks.Next.Least.{next_task_id_for_category_lem}
use kin_app_server.Tasks.Results.{
  Desk, Surroundings, get_cat_id_for_task_id, add_completed, get_next_task_delay_days,
  get_next_task_memo, store_task_results,
}
use kin_app_server.Tasks.Results.Cooldown.{stored_row, completed_row, store_task_results-stored}

get-put_self : (k : ℕ) (v : List ℕ) (d : List (ℕ × List ℕ)) → get k (put k v d) ≡ some v
get-put_self k v [] = ground arith
get-put_self k v ((j, w) ∷ d) = ground (arith, get-put_self k v d)

get-put_other : (k j : ℕ) (v : List ℕ) (d : List (ℕ × List ℕ)) → k ≢ j → get j (put k v d) ≡ get j d
get-put_other k j v [] h = ground (arith, h)
get-put_other k j v ((i, w) ∷ d) h = ground (arith, h, get-put_other k j v d h)

elem-append : (x : ℕ) (xs : List ℕ) → elem x (xs ++ x ∷ []) ≡ true
elem-append x [] = ground arith
elem-append x (y ∷ ys) = ground (arith, elem-append x ys)

elem-add_completed :
    (cat_id task_id : ℕ) (d : List (ℕ × List ℕ))
    → elem task_id (completed_in cat_id (add_completed cat_id task_id d)) ≡ true
unfolding add_completed
elem-add_completed cat_id task_id d = elim (Option-cases (get cat_id d)) [
  | inl n ↦ ground (arith, n, get-put_self cat_id (task_id ∷ []) d)
  | inr (ids, n) ↦
      ground (arith, n, get-put_self cat_id (ids ++ task_id ∷ []) d, elem-append task_id ids)
]

completed-next_delay :
    (u : Surroundings) (now cat_id : ℕ) (fresh : String) (row : UserAppData)
    → (get_next_task_delay_days u now cat_id fresh row).1.completed_tasks_dict
      ≡ row.completed_tasks_dict
unfolding get_next_task_delay_days get_next_task_memo
completed-next_delay u now cat_id fresh row = ground arith

add_completed-other :
    (cat_id task_id other : ℕ) (d : List (ℕ × List ℕ))
    → cat_id ≢ other
    → get other (add_completed cat_id task_id d) ≡ get other d
unfolding add_completed
add_completed-other cat_id task_id other d h = elim (Option-cases (get cat_id d)) [
  | inl n ↦ ground (arith, n, get-put_other cat_id other (task_id ∷ []) d h)
  | inr (ids, n) ↦ ground (arith, n, get-put_other cat_id other (ids ++ task_id ∷ []) d h)
]

-- No task with the id is next, once the id is among the completed ones of the category.
next-completed :
    (clock : Clock) (blacklisted : List ℕ) (older : Older) (c : Client) (send_push : Bool)
    (tasks : List Task2) (completed : List (ℕ × List ℕ)) (cat_id task_id : ℕ) (s : Pushes)
    → elem task_id (completed_in cat_id completed) ≡ true
    → (next_task_id_for_category clock blacklisted older c send_push tasks completed cat_id s).0
      ≢ ok (task_id ∷ [])
next-completed clock blacklisted older c send_push tasks completed cat_id task_id s h e =
    let (t, same, next) =
      next_task_id_for_category_lem clock blacklisted older c send_push tasks completed cat_id
        task_id s e in
    let solved : elem t.task_id (completed_in cat_id completed) ≡ true =
      subst (λ i. elem i (completed_in cat_id completed) ≡ true) (sym same) h in
    absurd (ground (arith, solved, next.unsolved))

-- Once results for a known task are stored, the task is never again the next of its category for
-- this user's completed tasks: whatever the time, the client, the country, the other tasks and the
-- configuration. What is completed in other categories is as it was.
pub store_task_results-done :
    (u : Surroundings) (now : ℕ) (fresh : String) (task_id cat_id : ℕ) (results : List Submitted)
    (row : UserAppData) (s : Desk)
    → s.row ≡ some row
    → get_cat_id_for_task_id task_id u.tasks ≡ some cat_id
    → (later : UserAppData) × ((after (store_task_results u now fresh task_id results) s).row
        ≡ some later)
      × ((clock : Clock) (blacklisted : List ℕ) (older : Older) (c : Client) (send_push : Bool)
            (tasks : List Task2) (p : Pushes)
          → (next_task_id_for_category clock blacklisted older c send_push tasks
              later.completed_tasks_dict cat_id p).0
            ≢ ok (task_id ∷ []))
      × ((other : ℕ)
          → cat_id ≢ other
          → get other later.completed_tasks_dict ≡ get other row.completed_tasks_dict)
store_task_results-done u now fresh task_id cat_id results row s h e =
    let stored = store_task_results-stored u now fresh task_id cat_id results row s h e in
    let done : UserAppData = completed_row cat_id task_id row in
    let same = completed-next_delay u now cat_id fresh done in
    let d : List (ℕ × List ℕ) = add_completed cat_id task_id row.completed_tasks_dict in
    (
      stored_row u now fresh task_id cat_id row,
      ap (λ r. r.1.row) stored,
      λ clock blacklisted older c send_push tasks p.
          next-completed clock blacklisted older c send_push tasks
            (stored_row u now fresh task_id cat_id row).completed_tasks_dict cat_id task_id p
            (subst (λ k. elem task_id (completed_in cat_id k) ≡ true) (sym same)
              (elem-add_completed cat_id task_id row.completed_tasks_dict)),
      λ other n.
          ap (get other) same ∙ add_completed-other cat_id task_id other row.completed_tasks_dict n,
    )

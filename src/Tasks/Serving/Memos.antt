-- ===== src/Tasks/Serving/Memos.antt =====
-- The memo of a task that is served is the one that the task is paid with.
use kin_app_server.Common.{
  ℕ, ◌≡◌, String, Bool, Option, some, List, [], ◌∷◌, arith, Option-cases, List-cases, inl, inr,
}
use kin_app_server.Action.{ok, call-cases}
use kin_app_server.Account.{get, put}
use kin_app_server.Tasks.Next.{next_task_id_for_category}
use kin_app_server.Tasks.Results.{Surroundings, client_of, get_next_task_memo}
use kin_app_server.Tasks.Payment.{without_app, get_and_replace_next_task_memo}
use kin_app_server.Tasks.Serving.{Served, Board, plant, serve_category}

get-put : {V : Type 0} (k : ℕ) (v : V) (d : List (ℕ × V)) → get k (put k v d) ≡ some v
get-put k v [] = ground arith
get-put k v ((j, w) ∷ d) = ground (arith, get-put k v d)

plant-memo :
    (cat_id : ℕ) (fresh : String) (task_id : ℕ) (s s' : Board) (t : Served) (ts : List Served)
    → plant cat_id fresh task_id s ≡ (t ∷ ts, s')
    → get cat_id s'.row.next_task_memo_dict ≡ some t.memo
unfolding get_next_task_memo
plant-memo cat_id fresh task_id s s' t ts h =
    elim (Option-cases (get cat_id s.row.next_task_memo_dict)) [
      | inl e ↦ ground (arith, e, h, get-put cat_id fresh s.row.next_task_memo_dict)
      | inr (m, e) ↦ ground (arith, e, h)
    ]

-- The memo with which a category's task is served is the one that paying for that task takes, less
-- the app's prefix, and it is taken once: the next memo of the category is then the fresh one.
pub serve_category-get_and_replace_next_task_memo :
    (u : Surroundings) (now : ℕ) (all_cat_ids : List ℕ) (fresh : ℕ → String)
    (country : Option String) (p : Bool) (cat_id : ℕ) (fresh_memo : String) (s s' : Board)
    (t : Served) (ts : List Served)
    → serve_category u now all_cat_ids fresh country p cat_id s ≡ (ok (t ∷ ts), s')
    → ((get_and_replace_next_task_memo cat_id fresh_memo s'.row).0 ≡ ok (without_app t.memo))
      × (get cat_id (get_and_replace_next_task_memo cat_id fresh_memo s'.row).1.next_task_memo_dict
          ≡ some fresh_memo)
unfolding serve_category get_and_replace_next_task_memo
serve_category-get_and_replace_next_task_memo u now all_cat_ids fresh country p cat_id fresh_memo s
      s' t ts h =
    let call =
      next_task_id_for_category (record { now = now; of_none = u.of_none })
        u.truex_blacklisted_taskids u.older (client_of (record u { country_code = country }) s.row)
        p u.tasks s.row.completed_tasks_dict cat_id s.pushes in
    elim (call-cases call) [
      | inr (x, q, e) ↦ ground (arith, e, h)
      | inl (ids, q, e) ↦ elim (List-cases ids) [
        | inl e' ↦ ground (arith, e, e', h)
        | inr (task_id, rest, e') ↦
            let g : plant cat_id (fresh cat_id) task_id (record s { pushes = q }) ≡ (t ∷ ts, s') =
              ground (arith, e, e', h) in
            let m = plant-memo cat_id (fresh cat_id) task_id (record s { pushes = q }) s' t ts g in
            ground (arith, m, get-put cat_id fresh_memo s'.row.next_task_memo_dict)
      ]
    ]

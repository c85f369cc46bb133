-- ===== src/Tasks/Catalog/Add.antt =====
-- Adding, deleting and delaying tasks keeps the catalogue sound.
use mathlib.Core.Path.{subst, subst₂}
use kin_app_server.Common.{
  ℕ, ◌≡◌, ◌≤◌, refl, Bool, true, false, List, [], ◌∷◌, ◌==◌, one_if, arith, All, Bool-cases,
  Option-cases, ◌⊎◌, inl, inr, sym,
}
use kin_app_server.Common.Int.{ℤ, eq_of_parts}
use kin_app_server.Common.Table.{count_rows, first_row}
use kin_app_server.Action.{ok, Result-cases, after}
use kin_app_server.Tasks.{Item, Task2}
use kin_app_server.Tasks.Catalog.{
  Catalog, TaskJson, has_id, is_at, is_adhoc, given_id, verify_items, check_place, check_urls,
  task_of, delete_first, insert_task, add_task, delete_task, is_position_taken,
}
use kin_app_server.Tasks.Catalog.Valid.{IsValid, verify_items-valid, check_place-dated}

-- No two tasks of the list have one id, or one place of a category; ad-hoc tasks have no place.
pub record IsSound (ts : List Task2) : Type 0 where
  pub ids : (task_id : ℕ) → count_rows (has_id task_id) ts ≤ 1
  pub valid : All IsValid ts

abbrev pub PlacesUnique : List Task2 → Type 0
PlacesUnique ts =
    (cat_id : ℕ) (position : ℤ)
    → is_adhoc position ≡ false
    → count_rows (is_at cat_id position) ts ≤ 1

All-delete_first :
    (P : Task2 → Type 0) (p : Task2 → Bool) (ts : List Task2) → All P ts → All P (delete_first p ts)
All-delete_first P p [] h = tt
All-delete_first P p (t ∷ ts) h = elim (Bool-cases (p t)) [
  | inl e ↦ subst (All P) {x = ts} (ground (arith, e)) h.1
  | inr e ↦
      subst (All P) {x = t ∷ delete_first p ts} (ground (arith, e))
        (h.0, All-delete_first P p ts h.1)
]

count-delete_first :
    (q p : Task2 → Bool) (ts : List Task2) → count_rows q (delete_first p ts) ≤ count_rows q ts
count-delete_first q p [] = omega arith
count-delete_first q p (t ∷ ts) = ground (arith, count-delete_first q p ts)

-- The one row with the id is gone.
count-delete_self :
    (p : Task2 → Bool) (ts : List Task2)
    → count_rows p ts ≤ 1
    → count_rows p (delete_first p ts) ≡ 0
count-delete_self p [] h = refl
count-delete_self p (t ∷ ts) h = elim (Bool-cases (p t)) [
  | inl e ↦ ground (arith, e, h)
  | inr e ↦ ground (arith, e, h, count-delete_self p ts (ground (arith, e, h)))
]

delete-IsSound : (p : Task2 → Bool) (ts : List Task2) → IsSound ts → IsSound (delete_first p ts)
delete-IsSound p ts h = record {
  ids = λ i. omega (arith, h.ids i, count-delete_first (has_id i) p ts);
  valid = All-delete_first IsValid p ts h.valid;
}

put-IsSound :
    (t : Task2) (ts : List Task2)
    → IsValid t
    → IsSound ts
    → IsSound (t ∷ delete_first (has_id t.task_id) ts)
put-IsSound t ts v h = record {
  ids = λ i. ground (
    arith,
    h.ids i,
    count-delete_first (has_id i) (has_id t.task_id) ts,
    count-delete_self (has_id t.task_id) ts (h.ids t.task_id),
  );
  valid = (v, All-delete_first IsValid (has_id t.task_id) ts h.valid);
}

one_if_le : (b : Bool) → one_if b ≤ 1
one_if_le b = ground arith

place_free :
    (j : TaskJson) (task_id : ℕ) (ts : List Task2)
    → j.overwrite ≡ false
    → check_place j task_id ts ≡ ok tt
    → is_adhoc j.position ≡ false
    → count_rows (is_at j.cat_id j.position) ts ≡ 0
unfolding check_place is_position_taken
place_free j task_id ts o p a = ground (arith, o, p, a)

place_free_at :
    (j : TaskJson) (task_id : ℕ) (items : List Item) (ts : List Task2) (cat_id : ℕ) (position : ℤ)
    → j.overwrite ≡ false
    → check_place j task_id ts ≡ ok tt
    → is_adhoc position ≡ false
    → is_at cat_id position (task_of j task_id items) ≡ true
    → count_rows (is_at cat_id position) ts ≡ 0
place_free_at j task_id items ts cat_id position o p a e =
    let same_cat : j.cat_id ≡ cat_id = ground (arith, e) in
    let same_place : j.position ≡ position = eq_of_parts j.position position (ground (arith, e)) in
    subst₂ (λ c q. is_adhoc q ≡ false → count_rows (is_at c q) ts ≡ 0) same_cat same_place
      (place_free j task_id ts o p) a

-- A call of `add_task` leaves the table alone, or has passed every test and puts the task there.
abbrev pub Added : TaskJson → List Task2 → List Task2 → Type 0
Added j ts later =
    (later ≡ ts)
    ⊎ ((items : List Item) × (check_place j (given_id j ts) ts ≡ ok tt)
        × (verify_items j.type j.items ≡ ok items)
        × (later ≡ task_of j (given_id j ts) items ∷ delete_first (has_id (given_id j ts)) ts))

module _ (j : TaskJson) (urls_fail : Bool) (s : Catalog) where
  abbrev added_id : ℕ
  added_id = given_id j s.tasks

  -- Whatever is sent.
  pub add_task-Added : Added j s.tasks (after (add_task j urls_fail) s).tasks
  unfolding add_task insert_task
  add_task-Added = elim (Result-cases (check_place j added_id s.tasks)) [
    | inr (x, p) ↦ inl (ground (arith, p))
    | inl (u, p) ↦ elim (Result-cases (verify_items j.type j.items)) [
      | inr (x, v) ↦ inl (ground (arith, p, v))
      | inl (items, v) ↦ elim (Result-cases (check_urls j urls_fail)) [
        | inr (x, w) ↦ inl (ground (arith, p, v, w))
        | inl (x, w) ↦ elim (Bool-cases (count_rows (λ c. c == j.cat_id) s.categories == 0)) [
          | inl c ↦ inl (ground (arith, p, v, w, c))
          | inr c ↦ inr (items, p, v, ground (arith, p, v, w, c))
        ]
      ]
    ]
  ]

  -- Whatever is sent to `add_task`, overwriting or not, and however the call ends: task ids stay
  -- unique, each ad-hoc task has both dates, and each quiz question stands in a quiz with an
  -- explanation and an answer that is on offer.
  pub add_task-IsSound : IsSound s.tasks → IsSound (after (add_task j urls_fail) s).tasks
  add_task-IsSound h = elim add_task-Added [
    | inl e ↦ subst IsSound (sym e) h
    | inr (items, p, v, e) ↦ subst IsSound (sym e) (
        put-IsSound (task_of j added_id items) s.tasks
          (record {
            dated = check_place-dated j added_id s.tasks p;
            items = verify_items-valid j.type j.items items v;
          })
          h)
  ]

  -- Without the overwrite flag no two tasks come to share a place of a category.
  pub add_task-PlacesUnique :
      j.overwrite ≡ false
      → PlacesUnique s.tasks
      → PlacesUnique (after (add_task j urls_fail) s).tasks
  add_task-PlacesUnique o h = elim add_task-Added [
    | inl e ↦ subst PlacesUnique (sym e) h
    | inr (items, p, v, e) ↦ subst PlacesUnique (sym e) (λ cat_id position a.
        let taken : Bool = is_at cat_id position (task_of j added_id items) in
        let rest = count-delete_first (is_at cat_id position) (has_id added_id) s.tasks in
        elim (Bool-cases taken) [
          | inl t ↦
              let free = place_free_at j added_id items s.tasks cat_id position o p a t in
              omega (arith, one_if_le taken, rest, free)
          | inr f ↦ ground (arith, f, h cat_id position a, rest)
        ])
  ]

-- A task that is deleted leaves the others sound.
pub delete_task-IsSound :
    (task_id : ℕ) (s : Catalog) → IsSound s.tasks → IsSound (after (delete_task task_id) s).tasks
unfolding delete_task
delete_task-IsSound task_id s h = elim (Option-cases (first_row (has_id task_id) s.tasks)) [
  | inl e ↦ subst IsSound {x = s.tasks} (ground (arith, e)) h
  | inr (t, e) ↦
      subst IsSound {x = delete_first (has_id task_id) s.tasks} (ground (arith, e))
        (delete-IsSound (has_id task_id) s.tasks h)
]

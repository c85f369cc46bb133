-- ===== src/Tasks/Next/Least.antt =====
-- The task that `next_task_id_for_category` returns is the first that fits.
use mathlib.Core.Path.{subst}
use kin_app_server.Common.{
  ℕ, ◌≡◌, refl, Bool, true, false, not, ◌&&◌, none, some, List, [], ◌∷◌, arith, All, All-map,
  Bool-cases, Option-cases, ◌⊎◌, inl, inr,
}
use kin_app_server.Common.Table.{select_rows}
use kin_app_server.Action.{Result, ok}
use kin_app_server.Account.{Older}
use kin_app_server.Tasks.{Task2}
use kin_app_server.Tasks.Next.{
  Clock, Client, can_client_support_task, is_country_excluded, is_before, ordered, is_unsolved,
  completed_in, is_passed_over, Pushes, first_valid, next_task_id_for_category,
}
use kin_app_server.Tasks.Next.Order.{
  Sorted, All-ordered, All-of_ordered, All-of_selected, ordered-Sorted,
}

-- One of the rows.
abbrev pub Among : Task2 → List Task2 → Type 0
Among t [] = false ≡ true
Among t (u ∷ us) = (u ≡ t) ⊎ Among t us

All-selected :
    (p : Task2 → Bool) (ts : List Task2) → All (λ t. (p t ≡ true) × Among t ts) (select_rows p ts)
All-selected p [] = tt
All-selected p (t ∷ ts) =
    let rest : All (λ u. (p u ≡ true) × Among u (t ∷ ts)) (select_rows p ts) =
      All-map (select_rows p ts) (λ u k. (k.0, inr k.1)) (All-selected p ts) in
    elim (Bool-cases (p t)) [
      | inl e ↦
          subst (All (λ u. (p u ≡ true) × Among u (t ∷ ts))) {x = t ∷ select_rows p ts}
            (ground (arith, e)) ((e, inl refl), rest)
      | inr e ↦
          subst (All (λ u. (p u ≡ true) × Among u (t ∷ ts))) {x = select_rows p ts}
            (ground (arith, e)) rest
    ]

is_before_irrefl : (t : Task2) → is_before t t ≡ false
unfolding is_before
is_before_irrefl t = ground arith

-- Active, not of the kind that is skipped, and open to the user's country.
abbrev pub is_offered : Clock → List ℕ → Client → Task2 → Bool
is_offered clock blacklisted c t =
    not (is_passed_over clock blacklisted t)
    && elim (is_country_excluded c.country_code t.excluded_country_codes) [
      | none ↦ false
      | some b ↦ not b
    ]

module _ (clock : Clock) (blacklisted : List ℕ) (older : Older) (c : Client)
    (send_push : Bool) where
  abbrev run : List Task2 → Pushes → Result (List ℕ) × Pushes
  run = first_valid clock blacklisted older c send_push

  -- What is chosen of a list in order.
  record IsChosen (ts : List Task2) (t : Task2) : Type 1 where
    offered : is_offered clock blacklisted c t ≡ true
    supported : can_client_support_task older c t ≡ true
    of_list : (P : Task2 → Type 0) → All P ts → P t
    least : All (λ u. is_offered clock blacklisted c u ≡ true → is_before u t ≡ false) ts

  skip_unoffered :
      (t : Task2) (ts : List Task2) (s : Pushes) (ids : List ℕ)
      → is_offered clock blacklisted c t ≡ false
      → (run (t ∷ ts) s).0 ≡ ok ids
      → (run ts s).0 ≡ ok ids
  unfolding first_valid
  skip_unoffered t ts s ids o e = elim (Bool-cases (is_passed_over clock blacklisted t)) [
    | inl p ↦ ground (arith, p, e)
    | inr p ↦ elim (Option-cases (is_country_excluded c.country_code t.excluded_country_codes)) [
      | inl n ↦ absurd (ground (arith, p, n, e))
      | inr (b, n) ↦ ground (arith, p, n, o, e)
    ]
  ]

  take_offered :
      (t : Task2) (ts : List Task2) (s : Pushes) (task_id : ℕ)
      → is_offered clock blacklisted c t ≡ true
      → (run (t ∷ ts) s).0 ≡ ok (task_id ∷ [])
      → (t.task_id ≡ task_id) × (can_client_support_task older c t ≡ true)
  unfolding first_valid
  take_offered t ts s task_id o e =
      elim (Option-cases (is_country_excluded c.country_code t.excluded_country_codes)) [
        | inl n ↦ absurd (ground (arith, n, o))
        | inr (b, n) ↦ elim (Bool-cases (can_client_support_task older c t)) [
          | inl q ↦ ground (arith, n, o, q, e)
          | inr q ↦ absurd (ground (arith, n, o, q, e))
        ]
      ]

  first_valid-IsChosen :
      (ts : List Task2) (s : Pushes) (task_id : ℕ)
      → Sorted ts
      → (run ts s).0 ≡ ok (task_id ∷ [])
      → (t : Task2) × (t.task_id ≡ task_id) × IsChosen ts t
  unfolding first_valid
  first_valid-IsChosen [] s task_id h e = cc
  first_valid-IsChosen (t ∷ ts) s task_id h e =
      elim (Bool-cases (is_offered clock blacklisted c t)) [
        | inl o ↦
            let (same, supported) = take_offered t ts s task_id o e in
            (
              t,
              same,
              record {
                offered = o;
                supported = supported;
                of_list = λ P k. k.0;
                least = (λ _. is_before_irrefl t, All-map ts (λ u k _. k) h.0);
              },
            )
        | inr o ↦
            let (u, same, chosen) =
              first_valid-IsChosen ts s task_id h.1 (skip_unoffered t ts s (task_id ∷ []) o e) in
            (
              u,
              same,
              record {
                offered = chosen.offered;
                supported = chosen.supported;
                of_list = λ P k. chosen.of_list P k.1;
                least = (λ q. absurd (ground (arith, o, q)), chosen.least);
              },
            )
      ]

  -- A row of the category that the user has not solved, that is offered and supported, and that no
  -- other offered row of the category which the user has not solved is before.
  pub record IsNext (tasks : List Task2) (completed : List (ℕ × List ℕ)) (cat_id : ℕ) (t : Task2)
      : Type 0 where
    pub row : Among t tasks
    pub unsolved : is_unsolved cat_id (completed_in cat_id completed) t ≡ true
    pub offered : is_offered clock blacklisted c t ≡ true
    pub supported : can_client_support_task older c t ≡ true
    pub least :
        All
          (λ u.
            is_unsolved cat_id (completed_in cat_id completed) u ≡ true
            → is_offered clock blacklisted c u ≡ true
            → is_before u t ≡ false)
          tasks

  -- A task id that the server returns as the next of a category is that of a task in the category
  -- that the user has not solved, that is active, not skipped, open to the user's country and
  -- supported by the client; and no other such task of the category, supported or not, comes
  -- before it by position and then by start date.
  pub next_task_id_for_category_lem :
      (tasks : List Task2) (completed : List (ℕ × List ℕ)) (cat_id task_id : ℕ) (s : Pushes)
      → (next_task_id_for_category clock blacklisted older c send_push tasks completed cat_id s).0
        ≡ ok (task_id ∷ [])
      → (t : Task2) × (t.task_id ≡ task_id) × IsNext tasks completed cat_id t
  unfolding next_task_id_for_category
  next_task_id_for_category_lem tasks completed cat_id task_id s e =
      let p : Task2 → Bool = is_unsolved cat_id (completed_in cat_id completed) in
      let rows = select_rows p tasks in
      let (t, same, chosen) =
        first_valid-IsChosen (ordered rows) s task_id (ordered-Sorted rows) e in
      let Q : Task2 → Type 0 = λ u. (p u ≡ true) × Among u tasks in
      let R : Task2 → Type 0 =
        λ u. is_offered clock blacklisted c u ≡ true → is_before u t ≡ false in
      let found = chosen.of_list Q (All-ordered Q rows (All-selected p tasks)) in
      (
        t,
        same,
        record {
          row = found.1;
          unsolved = found.0;
          offered = chosen.offered;
          supported = chosen.supported;
          least = All-of_selected R p tasks (All-of_ordered R rows chosen.least);
        },
      )

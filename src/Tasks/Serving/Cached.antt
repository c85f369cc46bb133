-- ===== src/Tasks/Serving/Cached.antt =====
-- What the cache answers.
use kin_app_server.Common.{
  ℕ, ◌≡◌, refl, String, Bool, true, Option, none, List, [], ◌∷◌, arith, Option-cases, inl, inr,
}
use kin_app_server.Common.Table.{first_row}
use kin_app_server.Action.{ok, call-cases}
use kin_app_server.Tasks.Results.{Surroundings}
use kin_app_server.Tasks.Serving.{
  ByCategory, Board, same, is_key, or_all, serve, get_next_tasks_for_user, count_immediate_tasks,
}

same_refl : (xs : List ℕ) → same xs xs ≡ true
same_refl [] = refl
same_refl (x ∷ xs) = ground (arith, same_refl xs)

module _ (u : Surroundings) (now later : ℕ) (all_cat_ids : List ℕ) (fresh fresh' : ℕ → String) where
  -- Until Redis forgets it, the answer for a list of categories is the one that was worked out for
  -- the first request, whatever the address and the time of a later one, and the later one changes
  -- nothing.
  pub get_next_tasks_for_user-cached :
      (country country' : Option String) (cat_ids : List ℕ) (p p' : Bool) (s s' : Board)
      (answer : ByCategory)
      → get_next_tasks_for_user u now all_cat_ids fresh country cat_ids p true s ≡ (ok answer, s')
      → get_next_tasks_for_user u later all_cat_ids fresh' country' cat_ids p' true s'
        ≡ (ok answer, s')
  unfolding get_next_tasks_for_user
  get_next_tasks_for_user-cached country country' cat_ids p p' s s' answer h =
      elim (Option-cases (first_row (is_key cat_ids) s.cache)) [
        | inr ((k, a), e) ↦ ground (arith, e, h)
        | inl e ↦
            elim (call-cases
              (serve u now all_cat_ids fresh country p (or_all all_cat_ids cat_ids) s)) [
                | inl (a, t, e') ↦ ground (arith, e, e', h, same_refl cat_ids)
                | inr (x, t, e') ↦ ground (arith, e, e', h)
              ]
      ]

  -- Where the cache holds no answer for all categories, counting the available tasks leaves one
  -- there that was worked out for no address, so that no country is excluded; and a request
  -- for the tasks of all categories, whatever its address, is answered it.
  pub count_immediate_tasks-get_next_tasks_for_user :
      (country : Option String) (p p' : Bool) (s s' : Board) (cs : List (ℕ × ℕ))
      → first_row (is_key []) s.cache ≡ none
      → count_immediate_tasks u now all_cat_ids fresh none p s ≡ (ok cs, s')
      → (get_next_tasks_for_user u later all_cat_ids fresh' country [] p' true s').0
        ≡ (serve u now all_cat_ids fresh none p all_cat_ids s).0
  unfolding count_immediate_tasks get_next_tasks_for_user
  count_immediate_tasks-get_next_tasks_for_user country p p' s s' cs n h =
      elim (call-cases (serve u now all_cat_ids fresh none p all_cat_ids s)) [
        | inl (a, t, e) ↦ ground (arith, n, e, h)
        | inr (x, t, e) ↦ ground (arith, n, e, h)
      ]

-- ===== src/Tasks/Truex/Lost.antt =====
-- What becomes of a completed activity.
use kin_app_server.Common.{
  ℕ, ◌≡◌, refl, String, Bool, true, false, none, List, [], ◌∷◌, arith, inl, inr, ◌⊎◌,
}
use kin_app_server.Common.Table.{first_row}
use kin_app_server.Action.{Error, ok, err, uncaught, call-cases}
use kin_app_server.Account.Captcha.{CaptchaConfig}
use kin_app_server.Users.{elem, user_deactivated}
use kin_app_server.Users.Access.{is_user_phone_verified}
use kin_app_server.Tasks.Results.{Surroundings}
use kin_app_server.Tasks.Serving.{
  Board, ByCategory, Served, is_key, serve, serve_category, get_next_tasks_for_user,
}
use kin_app_server.Tasks.Truex.{
  Callbacks, Engagement, recoverable_error, dup_engagement_id, user_exists, truex_cat_id,
  compensate_truex_activity, truex_callback,
}

module _ (u : Surroundings) (c : CaptchaConfig) (v : Bool) (now later : ℕ) (all_cat_ids : List ℕ)
    (fresh : ℕ → String) where
  tasks-first :
      (s : Board)
      → first_row (is_key (truex_cat_id ∷ [])) s.cache ≡ none
      → (x : Error) × (t : Board) × ((get_next_tasks_for_user u now all_cat_ids fresh none
              (truex_cat_id ∷ [])
              true
              true
              s
            ≡ (err x, t))
          ⊎ ((b : ℕ × List Served) × (rest : ByCategory) × (get_next_tasks_for_user u now
                  all_cat_ids fresh none
                  (truex_cat_id ∷ [])
                  true
                  true
                  s
                ≡ (ok (b ∷ rest), t))))
  unfolding get_next_tasks_for_user serve
  tasks-first s h =
      elim (call-cases (serve_category u now all_cat_ids fresh none true truex_cat_id s)) [
        | inl (x, t, q) ↦ (
          uncaught,
          record t { cache = (truex_cat_id ∷ [], (truex_cat_id, x) ∷ []) ∷ t.cache },
          inr ((truex_cat_id, x), [], ground (arith, h, q)),
        )
        | inr (x, t, q) ↦ (x, t, inl (ground (arith, h, q)))
      ]

  compensate-raises :
      (uid : ℕ) (s : Callbacks)
      → user_exists uid s.db ≡ true
      → is_user_phone_verified uid s.db ≡ true
      → user_deactivated uid s.db ≡ false
      → first_row (is_key (truex_cat_id ∷ [])) s.board.cache ≡ none
      → (x : Error) × (t : Callbacks) × (compensate_truex_activity u c v now all_cat_ids fresh uid s
          ≡ (err x, t))
        × (t.engagements ≡ s.engagements)
  unfolding compensate_truex_activity
  compensate-raises uid s h4 h5 h6 h7 =
      let k = tasks-first s.board h7 in
      elim (k.2) [
        | inl q ↦ (k.0, record s { board = k.1 }, ground (arith, h4, h5, h6, q), refl)
        | inr (b, rest, q) ↦
            (uncaught, record s { board = k.1 }, ground (arith, h4, h5, h6, q), refl)
      ]

  -- A new engagement of a user who exists, is not deactivated and has a verified number, in a
  -- signed request from TrueX, is answered as an error that is to be tried again, and the next try
  -- as a duplicate, where the cache holds no tasks of TrueX's category.
  pub truex_callback-lost :
      (e : Engagement) (s : Callbacks)
      → e.is_from_truex ≡ true
      → e.has_good_sig ≡ true
      → elem e.eng_id s.engagements ≡ false
      → user_exists e.user_id s.db ≡ true
      → is_user_phone_verified e.user_id s.db ≡ true
      → user_deactivated e.user_id s.db ≡ false
      → first_row (is_key (truex_cat_id ∷ [])) s.board.cache ≡ none
      → ((truex_callback u c v now all_cat_ids fresh e s).0 ≡ recoverable_error)
        × ((truex_callback u c v later all_cat_ids fresh e
              (truex_callback u c v now all_cat_ids fresh e s).1).0
            ≡ dup_engagement_id)
  unfolding truex_callback
  truex_callback-lost e s h1 h2 h3 h4 h5 h6 h7 =
      let k =
        compensate-raises e.user_id (record s { engagements = e.eng_id ∷ s.engagements }) h4 h5 h6
          h7 in
      (ground (arith, h1, h2, h3, k.2), ground (arith, h1, h2, h3, k.2, k.3))

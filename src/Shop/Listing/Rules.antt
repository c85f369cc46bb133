-- ===== src/Shop/Listing/Rules.antt =====
-- Which offers are listed, and how.
use kin_app_server.Common.{
  ℕ, ◌+◌, ◌≡◌, ◌∙◌, refl, Bool, true, false, not, ◌&&◌, Option, none, some, List, [], ◌∷◌, ◌++◌,
  ◌==◌, arith, one_if, Bool-cases, inl, inr, All, All-append,
}
use kin_app_server.Common.Int.{ℤ, ltb_ℤ}
use kin_app_server.Common.Table.{count-append, count_rows, select_rows}
use kin_app_server.Action.{ok, call-cases}
use kin_app_server.Account.{android, ios, other_os, Older}
use kin_app_server.Shop.{Offer, Shop, ShopConfig}
use kin_app_server.Shop.Goods.{goods_avilable}
use kin_app_server.Shop.Offers.{get_locked_offers, get_user_inapp_balance}
use kin_app_server.Shop.Listing.{
  Shown, insert_cheapest, cheapest_first, elem, has_type, shown_of, is_available, add_shown,
  all_shown, Phone, newer_than, is_unsupported, remove_unsupported, has_texts, listed,
  get_offers_for_user,
}

-- The client's version is too low for the offer.
abbrev pub wants_newer : Older → Phone → Offer → Bool
wants_newer older c o = elim c.os_type [
  | android ↦ newer_than older c.client_version o.min_client_version_android
  | ios ↦ newer_than older c.client_version o.min_client_version_ios
  | other_os ↦ false
]

-- The offer with the id, for a client that supports it.
abbrev pub is_offer : Older → Phone → ℕ → Shown → Bool
is_offer older c k x = (x.offer.offer_id == k) && not (wants_newer older c x.offer)

abbrev pub is_listable : Older → Phone → ℕ → Offer → Bool
is_listable older c k o =
    (o.offer_id == k) && o.is_active && not (has_type "p2p" o) && not (wants_newer older c o)

count-halves :
    {A : Type 0} (p q : A → Bool) (xs : List A)
    → count_rows p (select_rows q xs) + count_rows p (select_rows (λ x. not (q x)) xs)
      ≡ count_rows p xs
count-halves p q [] = refl
count-halves p q (x ∷ xs) = ground (arith, count-halves p q xs)

count-remove_unsupported :
    (older : Older) (c : Phone) (k : ℕ) (passes : Bool) (xs : List Shown)
    → count_rows (is_offer older c k) (remove_unsupported older c passes xs)
      ≡ count_rows (is_offer older c k) xs
unfolding remove_unsupported is_unsupported
count-remove_unsupported older c k passes [] = refl
count-remove_unsupported older c k passes (x ∷ xs) =
    let removed = not passes && is_unsupported older c x in
    ground (arith, count-remove_unsupported older c k removed xs)

count-insert :
    (p : Offer → Bool) (o : Offer) (os : List Offer)
    → count_rows p (insert_cheapest o os) ≡ one_if (p o) + count_rows p os
unfolding insert_cheapest
count-insert p o [] = refl
count-insert p o (x ∷ os) = ground (arith, count-insert p o os)

count-cheapest_first :
    (p : Offer → Bool) (os : List Offer) → count_rows p (cheapest_first os) ≡ count_rows p os
unfolding cheapest_first
count-cheapest_first p [] = refl
count-cheapest_first p (o ∷ os) =
    ground (arith, count-insert p o (cheapest_first os), count-cheapest_first p os)

abbrev is_wanted : Older → Phone → ℕ → Offer → Bool
is_wanted older c k o = (o.offer_id == k) && not (has_type "p2p" o) && not (wants_newer older c o)

count-all_shown :
    (s : Shop) (locked : List ℕ) (balance : ℤ) (older : Older) (c : Phone) (k : ℕ) (os : List Offer)
    → count_rows (is_offer older c k) (all_shown s locked balance os)
      ≡ count_rows (is_wanted older c k) os
unfolding all_shown shown_of
count-all_shown s locked balance older c k [] = refl
count-all_shown s locked balance older c k (o ∷ os) =
    ground (arith, count-all_shown s locked balance older c k os)

count-active :
    (older : Older) (c : Phone) (k : ℕ) (os : List Offer)
    → count_rows (is_wanted older c k) (select_rows (λ o. o.is_active) os)
      ≡ count_rows (is_listable older c k) os
count-active older c k [] = refl
count-active older c k (o ∷ os) = ground (arith, count-active older c k os)

count-listed :
    (config : ShopConfig) (older : Older) (c : Phone) (k : ℕ) (xs : List Shown)
    → has_texts config older c ≡ true
    → count_rows (is_offer older c k) (listed config older (some c) xs)
      ≡ count_rows (is_offer older c k) xs
unfolding listed
count-listed config older c k xs h =
    let p = is_offer older c k in
    let a = select_rows is_available xs in
    let b = select_rows (λ x. not (is_available x)) xs in
    rw h (
      count-remove_unsupported older c k false (a ++ b)
      ∙ count-append p a b
      ∙ count-halves p is_available xs)

-- A client that has texts for unavailable offers is listed each active offer that is not of the
-- type p2p and that its version supports, exactly once for each row of the table, whether or not it
-- can be bought, unless the look for the locked offers raises.
pub get_offers_for_user_complete :
    (config : ShopConfig) (older : Older) (c : Phone) (user_id now k : ℕ) (s : Shop)
    (xs : List Shown)
    → has_texts config older c ≡ true
    → (get_offers_for_user config older (some c) user_id now s).0 ≡ ok xs
    → count_rows (is_offer older c k) xs ≡ count_rows (is_listable older c k) s.offers
unfolding get_offers_for_user
get_offers_for_user_complete config older c user_id now k s xs ht h =
    elim (call-cases (get_locked_offers user_id config.offer_limit_time_range now s)) [
      | inr (e, s', q) ↦ ground (arith, q, h)
      | inl (locked, s', q) ↦
          let os = select_rows (λ o. o.is_active) s.offers in
          let ys = all_shown s' locked (get_user_inapp_balance user_id s') (cheapest_first os) in
          ground (
            arith,
            q,
            h,
            count-listed config older c k ys ht,
            count-all_shown s' locked (get_user_inapp_balance user_id s') older c k
                (cheapest_first os),
            count-cheapest_first (is_wanted older c k) os,
            count-active older c k s.offers,
          )
    ]

-- An offer that the client does not support is not removed where it follows one that is removed,
-- all offers before which are supported.
pub remove_unsupported-neighbour :
    (older : Older) (c : Phone) (before rest : List Shown) (x y : Shown)
    → All (λ z. wants_newer older c z.offer ≡ false) before
    → wants_newer older c x.offer ≡ true
    → remove_unsupported older c false (before ++ x ∷ y ∷ rest)
      ≡ before ++ y ∷ remove_unsupported older c false rest
unfolding remove_unsupported is_unsupported
remove_unsupported-neighbour older c [] rest x y h hx = ground (arith, hx)
remove_unsupported-neighbour older c (z ∷ zs) rest x y h hx =
    ground (arith, h.0, remove_unsupported-neighbour older c zs rest x y h.1 hx)

-- What is said of a listed offer is right: it is of an active offer that is not of the type p2p, it
-- has no reason to be unavailable only where a good of it is free and the user has not reached its
-- limit, and then it can be bought only with the balance to pay it.
abbrev pub IsRight : Shop → List ℕ → ℤ → Shown → Type 0
IsRight s locked balance x =
    (x.offer.is_active ≡ true)
    × (has_type "p2p" x.offer ≡ false)
    × (is_available x ≡ goods_avilable x.offer.offer_id s && not (elem x.offer.offer_id locked))
    × (x.cannot_buy_reason ≡ is_available x && ltb_ℤ balance x.offer.kin_cost)

insert-All :
    (P : Offer → Type 0) (o : Offer) (os : List Offer)
    → P o
    → All P os
    → All P (insert_cheapest o os)
unfolding insert_cheapest
insert-All P o [] h k = (h, tt)
insert-All P o (x ∷ os) h k = elim (Bool-cases (ltb_ℤ x.kin_cost o.kin_cost)) [
  | inl e ↦ rw e (k.0, insert-All P o os h k.1)
  | inr e ↦ rw e (h, k)
]

cheapest_first-All : (P : Offer → Type 0) (os : List Offer) → All P os → All P (cheapest_first os)
unfolding cheapest_first
cheapest_first-All P [] h = tt
cheapest_first-All P (o ∷ os) h =
    insert-All P o (cheapest_first os) h.0 (cheapest_first-All P os h.1)

active-All : (os : List Offer) → All (λ o. o.is_active ≡ true) (select_rows (λ o. o.is_active) os)
active-All [] = tt
active-All (o ∷ os) = elim (Bool-cases o.is_active) [
  | inl e ↦ rw e (refl, active-All os)
  | inr e ↦ rw e (active-All os)
]

shown_of-IsRight :
    (s : Shop) (locked : List ℕ) (balance : ℤ) (o : Offer) (xs : List Shown)
    → o.is_active ≡ true
    → All (IsRight s locked balance) xs
    → All (IsRight s locked balance) (add_shown (shown_of s locked balance o) xs)
unfolding shown_of
shown_of-IsRight s locked balance o xs ha h = elim (Bool-cases (has_type "p2p" o)) [
  | inl e ↦ rw e h
  | inr e ↦ elim (Bool-cases (goods_avilable o.offer_id s)) [
    | inr g ↦ rw (e, g) ((ha, e, ground (arith, g), refl), h)
    | inl g ↦ elim (Bool-cases (elem o.offer_id locked)) [
      | inl l ↦ rw (e, g, l) ((ha, e, ground (arith, g, l), refl), h)
      | inr l ↦ rw (e, g, l) ((ha, e, ground (arith, g, l), refl), h)
    ]
  ]
]

all_shown-IsRight :
    (s : Shop) (locked : List ℕ) (balance : ℤ) (os : List Offer)
    → All (λ o. o.is_active ≡ true) os
    → All (IsRight s locked balance) (all_shown s locked balance os)
unfolding all_shown
all_shown-IsRight s locked balance [] h = tt
all_shown-IsRight s locked balance (o ∷ os) h =
    shown_of-IsRight s locked balance o (all_shown s locked balance os) h.0
      (all_shown-IsRight s locked balance os h.1)

select-All :
    {A : Type 0} (P : A → Type 0) (p : A → Bool) (xs : List A) → All P xs → All P (select_rows p xs)
select-All P p [] h = tt
select-All P p (x ∷ xs) h = elim (Bool-cases (p x)) [
  | inl e ↦ rw e (h.0, select-All P p xs h.1)
  | inr e ↦ rw e (select-All P p xs h.1)
]

remove-All :
    (P : Shown → Type 0) (older : Older) (c : Phone) (passes : Bool) (xs : List Shown)
    → All P xs
    → All P (remove_unsupported older c passes xs)
unfolding remove_unsupported
remove-All P older c passes [] h = tt
remove-All P older c passes (x ∷ xs) h =
    elim (Bool-cases (not passes && is_unsupported older c x)) [
      | inl e ↦ rw e (remove-All P older c true xs h.1)
      | inr e ↦ rw e (h.0, remove-All P older c false xs h.1)
    ]

listed-All :
    (P : Shown → Type 0) (config : ShopConfig) (older : Older) (phone : Option Phone)
    (xs : List Shown)
    → All P xs
    → All P (listed config older phone xs)
unfolding listed
listed-All P config older none xs h = select-All P is_available xs h
listed-All P config older (some c) xs h =
    let ha = select-All P is_available xs h in
    remove-All P older c false _ (elim (Bool-cases (has_texts config older c)) [
      | inl e ↦ rw e (All-append P _ _ ha (select-All P (λ x. not (is_available x)) xs h))
      | inr e ↦ rw e ha
    ])

-- Where the list of locked offers is had, the user is answered a list of offers of each of which
-- what is said is right at that time: the offer is active and not of the type p2p, it has no
-- reason to be unavailable exactly where a good of it is free and it is not locked, and then it
-- cannot be bought exactly where the user's balance is below its cost.
pub get_offers_for_user-IsRight :
    (config : ShopConfig) (older : Older) (phone : Option Phone) (user_id now : ℕ) (s s' : Shop)
    (locked : List ℕ)
    → get_locked_offers user_id config.offer_limit_time_range now s ≡ (ok locked, s')
    → (xs : List Shown) × (get_offers_for_user config older phone user_id now s ≡ (ok xs, s'))
      × All (IsRight s' locked (get_user_inapp_balance user_id s')) xs
unfolding get_offers_for_user
get_offers_for_user-IsRight config older phone user_id now s s' locked h =
    let balance = get_user_inapp_balance user_id s' in
    let os = cheapest_first (select_rows (λ o. o.is_active) s.offers) in
    (
      listed config older phone (all_shown s' locked balance os),
      ground (arith, h),
      listed-All (IsRight s' locked balance) config older phone (all_shown s' locked balance os) (
          all_shown-IsRight s' locked balance os
            (cheapest_first-All (λ o. o.is_active ≡ true) _ (active-All s.offers))),
    )

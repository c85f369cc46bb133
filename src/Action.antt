-- ===== src/Action.antt =====
-- A call of a server function: the state it reads and writes, and an exception or a result.
-- What was committed before an exception stays committed, so the state comes back with it too.
-- The two exceptions of kinappserver/utils.py carry their message; any other Python exception
-- (an AttributeError, a KeyError, a database error that nothing converts) is `uncaught`.
use kin_app_server.Common.{
  ◌≡◌, ◌⊎◌, inl, inr, refl, Bool, if◌then◌else◌, Option, none, some, String,
}

pub data Error : Type 0 where
  invalid_usage internal_error : String → Error
  uncaught : Error

-- `status_code` of the two classes; anything else is answered by Flask's own 500
pub data Result (A : Type 0) : Type 0 where
  ok : A → Result A
  err : Error → Result A

abbrev pub Action : Type 0 → Type 0 → Type 0
Action S A = S → Result A × S

module _ {S A : Type 0} where
  abbrev pub pure : A → Action S A
  pure a s = (ok a, s)

  abbrev pub raise : Error → Action S A
  raise e s = (err e, s)

  abbrev pub gets : (S → A) → Action S A
  gets f s = (ok (f s), s)

  abbrev pub or_raise : Option A → Error → Action S A
  or_raise none e = raise e
  or_raise (some a) _ = pure a

infixl 5 ◌>>=◌ ◌>>◌
abbrev pub ◌>>=◌ : {S A B : Type 0} → Action S A → (A → Action S B) → Action S B
◌>>=◌ m f s = let (r, s') = m s in elim r [ ok a ↦ f a s' | err e ↦ (err e, s') ]

abbrev pub ◌>>◌ : {S A B : Type 0} → Action S A → Action S B → Action S B
m >> k = m >>= λ _. k

abbrev pub raise_if : {S : Type 0} → Bool → Error → Action S (Unit {0})
raise_if c e s = (if c then err e else ok tt, s)

abbrev pub modify : {S : Type 0} → (S → S) → Action S (Unit {0})
modify f s = (ok tt, f s)

-- `try: m except Exception: handler`
abbrev pub try_except : {S A : Type 0} → Action S A → Action S A → Action S A
try_except m handler s = let (r, s') = m s in elim r [ ok a ↦ (ok a, s') | err e ↦ handler s' ]

-- The state after a call, whichever way it ended.
abbrev pub after : {S A : Type 0} → Action S A → S → S
after m s = (m s).1

-- To split on how a call ended, with the state it left.
pub call-cases :
    {S A : Type 0} (r : Result A × S)
    → ((a : A) × (s : S) × (r ≡ (ok a, s))) ⊎ ((e : Error) × (s : S) × (r ≡ (err e, s)))
call-cases (ok a, s) = inl (a, s, refl)
call-cases (err e, s) = inr (e, s, refl)

pub Result-cases :
    {A : Type 0} (r : Result A) → ((a : A) × (r ≡ ok a)) ⊎ ((e : Error) × (r ≡ err e))
Result-cases (ok a) = inl (a, refl)
Result-cases (err e) = inr (e, refl)

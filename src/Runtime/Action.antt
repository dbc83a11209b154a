-- ===== src/Runtime/Action.antt =====
-- A method call: state and exceptions. What was written before a throw stays written, as in the
-- services, which open no transaction.
use paya.Prelude.{
  ap, true, false, Bool, Option, none, some, String, if◌then◌else◌, ◌≡◌, ◌⊎◌, inl, inr, refl,
}

-- The exceptions of `@nestjs/common` that the services throw, plain `Error`s, and an error of the
-- database driver.
pub data Error : Type 0 where
  not_found : String → Error
  bad_request : String → Error
  conflict : String → Error
  unauthorized : String → Error
  failure : String → Error
  query_failed : Error

pub data Result (A : Type 0) : Type 0 where
  ok : A → Result A
  err : Error → Result A

abbrev pub Action : Type 0 → Type 0 → Type 0
Action S A = S → Result A × S

module _ {S : Type 0} {A : Type 0} where
  abbrev pub pure : A → Action S A
  pure a s = (ok a, s)

  abbrev pub throw : Error → Action S A
  throw e s = (err e, s)

  abbrev pub gets : (S → A) → Action S A
  gets f s = (ok (f s), s)

  -- `if (!value) throw e`
  abbrev pub or_throw : Option A → Error → Action S A
  or_throw none e = throw e
  or_throw (some a) e = pure a

infixl 5 ◌>>=◌ ◌>>◌
abbrev pub ◌>>=◌ : {S A B : Type 0} → Action S A → (A → Action S B) → Action S B
◌>>=◌ m f s = let (r, t) = m s in elim r [ ok a ↦ f a t | err e ↦ (err e, t) ]

abbrev pub ◌>>◌ : {S A B : Type 0} → Action S A → Action S B → Action S B
m >> k = m >>= λ _. k

module _ {S : Type 0} where
  abbrev pub throw_if : Bool → Error → Action S (Unit {0})
  throw_if c e s = (if c then err e else ok tt, s)

  abbrev pub modify : (S → S) → Action S (Unit {0})
  modify f s = (ok tt, f s)

  -- The statements under `if (c) { … }`.
  abbrev pub when : Bool → Action S (Unit {0}) → Action S (Unit {0})
  when c m s = if c then m s else (ok tt, s)

  -- A write that the database may refuse.
  abbrev pub modify_or_throw : (S → Option S) → Error → Action S (Unit {0})
  modify_or_throw f e s = elim (f s) [ none ↦ (err e, s) | some t ↦ (ok tt, t) ]

-- A synchronous helper that returns or throws.
abbrev pub from_result : {S A : Type 0} → Result A → Action S A
from_result (ok a) = pure a
from_result (err e) = throw e

pub Result-cases :
    {A : Type 0} (r : Result A) → ((e : Error) × (r ≡ err e)) ⊎ ((a : A) × (r ≡ ok a))
Result-cases (err e) = inl (e, refl)
Result-cases (ok a) = inr (a, refl)

abbrev pub is_ok : {A : Type 0} → Result A → Bool
is_ok (ok a) = true
is_ok (err e) = false

-- A step that returns hands its value and its state to the next.
pub bind-ok :
    {S A B : Type 0} (m : Action S A) (f : A → Action S B) (s t : S) (a : A)
    → m s ≡ (ok a, t)
    → (m >>= f) s ≡ f a t
bind-ok m f s t a e = ap (λ p. elim p.0 [ ok b ↦ f b p.1 | err x ↦ (err x, p.1) ]) e

-- `try { … } catch (error) { … }`
abbrev pub try_catch : {S A : Type 0} → Action S A → (Error → Action S A) → Action S A
try_catch m handle s = let (r, t) = m s in elim r [ ok a ↦ (ok a, t) | err e ↦ handle e t ]

-- `error.message`, of which `driver_message` is that of the database driver.
abbrev pub message_of : String → Error → String
message_of driver_message (not_found m) = m
message_of driver_message (bad_request m) = m
message_of driver_message (conflict m) = m
message_of driver_message (unauthorized m) = m
message_of driver_message (failure m) = m
message_of driver_message query_failed = driver_message

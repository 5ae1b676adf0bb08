-- ===== src/Prelude/Errors.antt =====
-- Python's exceptions as values, and the monad of code that may raise.
use Prim.Native.String.{String}
use mathlib.Core.Path.{◌≡◌, refl, ap}
use mathlib.Core.Logic.{◌⊎◌, inl, inr}
use mathlib.Core.Option.{Option, none, some}
use mathlib.Core.List.{List, [], ◌∷◌}

-- The classes of exception that the laboratory raises or lets through. A message keeps its
-- constant text; the values interpolated into it are left out.
pub data Error : Type 0 where
  check_failure : String → Error
  assertion_error : String → Error
  attribute_error type_error index_error value_error request_exception recursion_error : Error
  key_error : String → Error

pub data Result {ℓ} (A : Type ℓ) : Type ℓ where
  ok : A → Result A
  err : Error → Result A

infixl 5 ◌>>=◌ ◌>>◌
abbrev pub ◌>>=◌ {κ μ} : {A : Type κ} {C : Type μ} → Result A → (A → Result C) → Result C
err raised >>= next = err raised
ok x >>= next = next x

-- A check, and what follows it if it does not raise.
abbrev pub ◌>>◌ {μ} : {C : Type μ} → Result (Unit {0}) → Result C → Result C
check >> next = check >>= λ done. next

-- `d[k]` on a missing key, `xs[i]` out of range
abbrev pub or_raise {ℓ} : {A : Type ℓ} → Error → Option A → Result A
or_raise e none = err e
or_raise e (some a) = ok a

abbrev pub traverse {ℓ κ} : {A : Type ℓ} {B : Type κ} → (A → Result B) → List A → Result (List B)
traverse f [] = ok []
traverse f (x ∷ xs) = let rest = traverse f xs in f x >>= λ y. rest >>= λ ys. ok (y ∷ ys)

pub Result-cases {ℓ} :
    {A : Type ℓ} (r : Result A) → ((a : A) × (r ≡ ok a)) ⊎ ((e : Error) × (r ≡ err e))
Result-cases (ok a) = inl (a, refl)
Result-cases (err e) = inr (e, refl)

pub ok_inj {ℓ} : {A : Type ℓ} {a b : A} → ok a ≡ ok b → a ≡ b
ok_inj {a} h = ap (λ r. elim r [ ok x ↦ x | err e ↦ a ]) h

-- What a successful chain of two steps did.
pub >>=-eq-ok {κ μ} :
    {A : Type κ} {C : Type μ} (start : Result A) (next : A → Result C) {c : C}
    → (start >>= next) ≡ ok c
    → (x : A) × (start ≡ ok x) × (next x ≡ ok c)
>>=-eq-ok (err raised) next done = cc
>>=-eq-ok (ok x) next done = (x, refl, done)

-- ===== src/Exec.antt =====
-- Go calls that can fail or crash, over a state. An `error` value is a gRPC status, an error made by
-- `fmt.Errorf`, or an error that other code hands in; a message is kept as its format string, and
-- the arguments printed into it are not.
pub mod Steps
use nexentastor_csi_driver_b.Base.{
  Text, String, ℕ, ◌≡◌, ◌⊎◌, inl, inr, refl, Bool, true, false, Option, none, some, if◌then◌else◌,
}

-- The gRPC status codes that the driver uses.
pub data Code : Type 0 where
  invalid_argument not_found already_exists permission_denied failed_precondition : Code
  aborted internal unauthenticated deadline_exceeded unimplemented : Code

-- An error of the operating system or of a library: what tells it apart, and what `Error()` returns.
pub record Foreign : Type 0 where
  pub identity : ℕ
  pub text : Text

pub data Error : Type 0 where
  -- `status.Error(code, …)` and `status.Errorf(code, …)`.
  status : Code → String → Error
  -- `fmt.Errorf(…)`.
  errorf : String → Error
  foreign : Foreign → Error

-- `status.Code(err)`: an error that is no status has the code Unknown, here `none`.
abbrev pub status_code : Error → Option Code
status_code (status c m) = some c
status_code (errorf m) = none
status_code (foreign f) = none

abbrev pub is_code_not_found : Option Code → Bool
is_code_not_found (some not_found) = true
is_code_not_found _ = false

-- A call returns a value, returns an error, or panics.
pub data Outcome {ℓ} (A : Type ℓ) : Type ℓ where
  ok : A → Outcome A
  err : Error → Outcome A
  panic : Outcome A

pub Outcome-cases {ℓ} :
    {A : Type ℓ} (o : Outcome A)
    → (((a : A) × (o ≡ ok a)) ⊎ ((e : Error) × (o ≡ err e))) ⊎ (o ≡ panic)
Outcome-cases (ok a) = inl (inl (a, refl))
Outcome-cases (err e) = inl (inr (e, refl))
Outcome-cases panic = inr refl

-- A result that the caller looks at before it goes on.
pub data Tried {ℓ} (A : Type ℓ) : Type ℓ where
  got : A → Tried A
  failed : Error → Tried A

-- What was written before an error or a panic stays written.
abbrev pub Exec {ℓ} : Type ℓ → Type ℓ → Type ℓ
Exec S A = S → Outcome A × S

module _ {ℓ} {S A : Type ℓ} where
  abbrev pub pure : A → Exec S A
  pure a s = (ok a, s)

  -- `return nil, err`.
  abbrev pub fail : Error → Exec S A
  fail e s = (err e, s)

  -- A nil pointer is dereferenced, or an index is out of range.
  abbrev pub crash : Exec S A
  crash s = (panic, s)

  abbrev pub gets : (S → A) → Exec S A
  gets f s = (ok (f s), s)

  abbrev tried : Outcome A × S → Outcome (Tried A) × S
  tried (ok a, s) = (ok (got a), s)
  tried (err e, s) = (ok (failed e), s)
  tried (panic, s) = (panic, s)

  -- `v, err := m`, where the code goes on with both.
  abbrev pub attempt : Exec S A → Exec S (Tried A)
  attempt m s = tried (m s)

  abbrev mapped : (Error → Error) → Outcome A × S → Outcome A × S
  mapped f (ok a, s) = (ok a, s)
  mapped f (err e, s) = (err (f e), s)
  mapped f (panic, s) = (panic, s)

  -- `if err != nil { return nil, f(err) }`.
  abbrev pub or_fail : (Error → Error) → Exec S A → Exec S A
  or_fail f m s = mapped f (m s)

  -- `*p`.
  abbrev pub deref : Option A → Exec S A
  deref none = crash
  deref (some a) = pure a

  abbrev pub or_missing : Error → Option A → Exec S A
  or_missing e none = fail e
  or_missing e (some a) = pure a

module _ {ℓ} {S A B : Type ℓ} where
  abbrev continue : (A → Exec S B) → Outcome A × S → Outcome B × S
  continue f (ok a, s) = f a s
  continue f (err e, s) = (err e, s)
  continue f (panic, s) = (panic, s)

  infixl 5 ◌>>=◌ ◌>>◌
  abbrev pub ◌>>=◌ : Exec S A → (A → Exec S B) → Exec S B
  ◌>>=◌ m f s = continue f (m s)

  abbrev pub ◌>>◌ : Exec S A → Exec S B → Exec S B
  m >> n = m >>= λ _. n

abbrev pub guard {ℓ} : {S : Type ℓ} → Bool → Error → Exec S Unit
guard b e = if b then fail e else pure tt

abbrev pub modify {ℓ} : {S : Type ℓ} → (S → S) → Exec S Unit
modify f s = (ok tt, f s)

-- ===== src/Exec/Pure.antt =====
-- Go code that returns a value or an `error` and touches nothing else.
use identity_api.Common.{◌≡◌, Bool, if◌then◌else◌, arith, inl, inr}
use identity_api.Types.Errors.{Error}
use identity_api.Exec.{Result, ok, err, Result-cases}

-- The rest of a Go function, run unless an error has been returned.
abbrev pub unless_err : {A B : Type 0} → (A → Result B) → Result A → Result B
unless_err rest (err returned) = err returned
unless_err rest (ok value) = rest value

infixl 10 ◌>>=◌ ◌>>◌
abbrev pub ◌>>=◌ : {A B : Type 0} → Result A → (A → Result B) → Result B
first >>= rest = unless_err rest first

abbrev pub ◌>>◌ : {A B : Type 0} → Result A → Result B → Result B
first >> second = unless_err (λ ignored. second) first

abbrev pub fail_if : Bool → Error → Result (Unit {0})
fail_if b e = if b then err e else ok tt

-- A sequence that has returned a value: each part has.
pub unless_err-eq-ok :
    {A B : Type 0} (rest : A → Result B) (first : Result A) {returned : B}
    → unless_err rest first ≡ ok returned
    → (value : A) × (first ≡ ok value) × (rest value ≡ ok returned)
unless_err-eq-ok rest first h = elim (Result-cases first) [
  | inr (e, failed) ↦ ground (arith, failed, h)
  | inl (value, done) ↦ (value, done, ground (arith, done, h))
]

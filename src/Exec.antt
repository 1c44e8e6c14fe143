-- ===== src/Exec.antt =====
-- Go code that reads and changes the outside world and returns a value or an `error`. What was done
-- before an error stays done, so the world comes back beside the error too.
pub mod Keeps
pub mod Pure
use identity_api.Common.{◌≡◌, refl, ◌⊎◌, inl, inr, Bool, true, false, arith, ap, if◌then◌else◌}
use identity_api.Types.Errors.{Error}

pub data Result {ℓ} (A : Type ℓ) : Type ℓ where
  ok : A → Result A
  err : Error → Result A

abbrev pub Exec : Type 0 → Type 0 → Type 0
Exec W A = W → Result A × W

module _ {W A : Type 0} where
  abbrev pub pure : A → Exec W A
  pure a w = (ok a, w)

  abbrev pub fail : Error → Exec W A
  fail e w = (err e, w)

  -- A computed result, as an action.
  abbrev pub lift : Result A → Exec W A
  lift r w = (r, w)

-- `if b { return e }`
abbrev pub fail_if : {W : Type 0} → Bool → Error → Exec W (Unit {0})
fail_if b e w = (if b then err e else ok tt, w)

module _ {W A B : Type 0} where
  abbrev pub continue : Result A → (A → Exec W B) → Exec W B
  continue (ok a) f w = f a w
  continue (err e) f w = (err e, w)

  abbrev pub recover : Result A → (A → Exec W B) → (Error → Exec W B) → Exec W B
  recover (ok a) f h w = f a w
  recover (err e) f h w = h e w

  infixl 10 ◌>>=◌ ◌>>◌
  abbrev pub ◌>>=◌ : Exec W A → (A → Exec W B) → Exec W B
  ◌>>=◌ m f w = continue (m w).0 f (m w).1

  abbrev pub ◌>>◌ : Exec W A → Exec W B → Exec W B
  m >> n = m >>= λ _. n

  -- `v, err := m` with a branch for each case of `err`.
  abbrev pub branch : Exec W A → (A → Exec W B) → (Error → Exec W B) → Exec W B
  branch m f h w = recover (m w).0 f h (m w).1

-- `if err != nil { return f(err) }`
abbrev pub map_err : {W A : Type 0} → (Error → Error) → Exec W A → Exec W A
map_err f m = branch m pure (λ e. fail (f e))

pub Result-cases {ℓ} :
    {A : Type ℓ} (r : Result A) → ((a : A) × (r ≡ ok a)) ⊎ ((e : Error) × (r ≡ err e))
Result-cases (ok a) = inl (a, refl)
Result-cases (err e) = inr (e, refl)

module _ {W A B : Type 0} where
  -- A sequence that has returned a value is its second part, run where the first part ended.
  abbrev pub Continued : Exec W A → (A → Exec W B) → Result B × W → B → W → Type 0
  Continued m f r b w = (a : A) × ((m w).0 ≡ ok a) × (r ≡ f a (m w).1) × ((f a (m w).1).0 ≡ ok b)

  continue_run :
      (m : Exec W A) (f : A → Exec W B) (w : W) (b : B) (r : Result A)
      → (m w).0 ≡ r
      → (continue r f (m w).1).0 ≡ ok b
      → Continued m f (continue r f (m w).1) b w
  continue_run m f w b (ok a) e k = (a, e, refl, k)
  continue_run m f w b (err g) e k = ground arith

  pub bind_run :
      (m : Exec W A) (f : A → Exec W B) (w : W) (b : B)
      → ((m >>= f) w).0 ≡ ok b
      → Continued m f ((m >>= f) w) b w
  bind_run m f w b h = continue_run m f w b (m w).0 refl h

  pub map_err_run :
      (g : Error → Error) (m : Exec W A) (f : A → Exec W B) (w : W) (b : B)
      → ((map_err g m >>= f) w).0 ≡ ok b
      → Continued m f ((map_err g m >>= f) w) b w
  map_err_run g m f w b h = elim (Result-cases (m w).0) [
    | inl (a, e) ↦ (a, e, ground (arith, e), ground (arith, e, h))
    | inr (x, e) ↦ ground (arith, e, h)
  ]

pub fail_if_run :
    {W : Type 0} (b : Bool) (e : Error) (w : W) (u : Unit {0})
    → (fail_if {W = W} b e w).0 ≡ ok u
    → b ≡ false
fail_if_run true e w u h = ground arith
fail_if_run false e w u h = refl

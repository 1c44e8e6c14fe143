-- ===== src/Exec/Keeps.antt =====
-- A relation between the world before and after, carried through every way to build an action.
use identity_api.Common.{Bool, true, false, if◌then◌else◌}
use identity_api.Types.Errors.{Error}
use identity_api.Exec.{
  Result, ok, err, Exec, pure, fail, lift, continue, recover, ◌>>=◌, branch, map_err, fail_if,
}

-- `m` ends, with a value or an error, in a world that the relation allows.
pub record Keeps {W A : Type 0} (R : W → W → Type 0) (m : Exec W A) : Type 0 where
  pub at : (w : W) → R w (m w).1

-- What a relation needs to pass through sequences.
pub record IsPreorder {W : Type 0} (R : W → W → Type 0) : Type 0 where
  pub stays : (w : W) → R w w
  pub trans : (a b c : W) → R a b → R b c → R a c

module _ {W A : Type 0} {R : W → W → Type 0} (p : IsPreorder R) where
  pub Keeps-pure : (a : A) → Keeps R (pure a)
  Keeps-pure a = record { at = λ w. p.stays w }

  pub Keeps-fail : (e : Error) → Keeps R (fail {A = A} e)
  Keeps-fail e = record { at = λ w. p.stays w }

  pub Keeps-lift : (r : Result A) → Keeps R (lift r)
  Keeps-lift r = record { at = λ w. p.stays w }

module _ {W A B : Type 0} {R : W → W → Type 0} (p : IsPreorder R) where
  continue-at :
      (r : Result A) (f : A → Exec W B)
      → ((a : A) → Keeps R (f a))
      → (w v : W) → R w v
      → R w (continue r f v).1
  continue-at (ok a) f hf w v h = p.trans w v _ h ((hf a).at v)
  continue-at (err e) f hf w v h = h

  recover-at :
      (r : Result A) (f : A → Exec W B) (g : Error → Exec W B)
      → ((a : A) → Keeps R (f a))
      → ((e : Error) → Keeps R (g e))
      → (w v : W) → R w v
      → R w (recover r f g v).1
  recover-at (ok a) f g hf hg w v h = p.trans w v _ h ((hf a).at v)
  recover-at (err e) f g hf hg w v h = p.trans w v _ h ((hg e).at v)

  pub Keeps-bind :
      (m : Exec W A) (f : A → Exec W B) → Keeps R m → ((a : A) → Keeps R (f a)) → Keeps R (m >>= f)
  Keeps-bind m f hm hf = record { at = λ w. continue-at (m w).0 f hf w (m w).1 (hm.at w) }

  pub Keeps-branch :
      (m : Exec W A) (f : A → Exec W B) (g : Error → Exec W B)
      → Keeps R m
      → ((a : A) → Keeps R (f a))
      → ((e : Error) → Keeps R (g e))
      → Keeps R (branch m f g)
  Keeps-branch m f g hm hf hg = record {
    at = λ w. recover-at (m w).0 f g hf hg w (m w).1 (hm.at w);
  }

pub Keeps-if :
    {W A : Type 0} {R : W → W → Type 0} (b : Bool) (m n : Exec W A)
    → Keeps R m
    → Keeps R n
    → Keeps R (if b then m else n)
Keeps-if true m n hm hn = hm
Keeps-if false m n hm hn = hn

-- An action that keeps a relation only observes or changes what the relation lets it.
module _ {W A : Type 0} {R : W → W → Type 0} (p : IsPreorder R) where
  pub Keeps-map_err : (f : Error → Error) (m : Exec W A) → Keeps R m → Keeps R (map_err f m)
  Keeps-map_err f m hm =
      Keeps-branch p m pure (λ e. fail (f e)) hm (Keeps-pure p) (λ e. Keeps-fail p (f e))

pub Keeps-fail_if :
    {W : Type 0} {R : W → W → Type 0} (p : IsPreorder R) (b : Bool) (e : Error)
    → Keeps R (fail_if b e)
Keeps-fail_if p b e = record { at = λ w. p.stays w }

pub ruleset keeps_rules = (
  Keeps-pure, Keeps-fail, Keeps-lift, Keeps-fail_if, Keeps-if, Keeps-map_err, Keeps-bind,
  Keeps-branch,
)

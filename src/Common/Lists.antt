-- ===== src/Common/Lists.antt =====
-- Lists as tables: selection by a Boolean test, membership of texts, lengths.
use Prim.Native.Nat.{ℕ, zero, suc}
use Prim.Native.String.{String}
use mathlib.Core.Path.{◌≡◌, refl}
use mathlib.Core.Bool.{Bool, true, false, ◌&&◌, ◌||◌}
use mathlib.Core.Option.{Option, none, some}
use mathlib.Core.List.{List, [], ◌∷◌, ◌++◌}
use native.Mathlib.Omega.{arith}
use text.Mathlib.Text.{◌==◌}
use text.Mathlib.TextEquality.{eq_iff}
use identity_api.Common.Tests.{if◌then◌else◌}

module _ {ℓ} {A : Type ℓ} where
  abbrev pub length : List A → ℕ
  length [] = 0
  length (x ∷ xs) = suc (length xs)

  abbrev pub take : ℕ → List A → List A
  take zero xs = []
  take (suc n) [] = []
  take (suc n) (x ∷ xs) = x ∷ take n xs

  abbrev pub last? : List A → Option A
  last? [] = none
  last? (x ∷ []) = some x
  last? (x ∷ y ∷ xs) = last? (y ∷ xs)

  -- The rows that pass a test, in order.
  unfoldable pub keep : (A → Bool) → List A → List A
  keep p [] = []
  keep p (x ∷ xs) = let rest = keep p xs in if p x then x ∷ rest else rest

  unfoldable pub any : (A → Bool) → List A → Bool
  any p [] = false
  any p (x ∷ xs) = p x || any p xs

  unfoldable pub find? : (A → Bool) → List A → Option A
  find? p [] = none
  find? p (x ∷ xs) = let rest = find? p xs in if p x then some x else rest

  pub any-append : (p : A → Bool) (xs ys : List A) → any p (xs ++ ys) ≡ (any p xs || any p ys)
  unfolding any
  any-append p [] ys = refl
  any-append p (x ∷ xs) ys = ground (arith, any-append p xs ys)

  -- A row found passes the test.
  pub find?_sound : (p : A → Bool) (xs : List A) (a : A) → find? p xs ≡ some a → p a ≡ true
  unfolding find?
  find?_sound p [] a h = ground arith
  find?_sound p (x ∷ xs) a h = ground (arith, find?_sound p xs a)

  -- Nothing is found where no row passes.
  pub find?-eq-none : (p : A → Bool) (xs : List A) → any p xs ≡ false → find? p xs ≡ none
  unfolding find? any
  find?-eq-none p [] h = refl
  find?-eq-none p (x ∷ xs) h = ground (arith, find?-eq-none p xs)

  -- A selection is empty exactly where no row passes.
  pub length-keep_zero : (p : A → Bool) (xs : List A) → any p xs ≡ false → length (keep p xs) ≡ 0
  unfolding keep any
  length-keep_zero p [] h = refl
  length-keep_zero p (x ∷ xs) h = ground (arith, length-keep_zero p xs)

  -- A row appended is found when no earlier row passes.
  pub find?-append :
      (p : A → Bool) (xs : List A) (y : A)
      → any p xs ≡ false
      → p y ≡ true
      → find? p (xs ++ y ∷ []) ≡ some y
  unfolding find? any
  find?-append p [] y h k = ground arith
  find?-append p (x ∷ xs) y h k = ground (arith, find?-append p xs y)

module _ {ℓ} {A : Type ℓ} where
  pub find?-append_some :
      (p : A → Bool) (xs : List A) (y : A)
      → find? p xs ≡ none
      → p y ≡ true
      → find? p (xs ++ y ∷ []) ≡ some y
  unfolding find?
  find?-append_some p [] y h k = ground arith
  find?-append_some p (x ∷ xs) y h k = ground (arith, find?-append_some p xs y)

-- Membership of a text in a list.
unfoldable pub contains : String → List String → Bool
contains x [] = false
contains x (y ∷ ys) = x == y || contains x ys

pub contains-append :
    (x : String) (xs ys : List String) → contains x (xs ++ ys) ≡ (contains x xs || contains x ys)
unfolding contains
contains-append x [] ys = refl
contains-append x (y ∷ xs) ys = ground (arith, contains-append x xs ys)

-- Membership in a selection.
pub contains-keep :
    (x : String) (p : String → Bool) (xs : List String)
    → contains x (keep p xs) ≡ (p x && contains x xs)
unfolding contains keep
contains-keep x p [] = ground arith
contains-keep x p (y ∷ ys) = ground (arith, contains-keep x p ys, eq_iff x y)

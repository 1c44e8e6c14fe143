-- ===== src/Sandbox/Order.antt =====
-- An order of texts for the sandbox platform: lexicographic by code points.
use Prim.Native.Char.{Char, code}
use Prim.Native.String.{String, [], ◌∷◌}
use text.Mathlib.TextEquality.{codes_equal}
use identity_api.Common.{
  ◌≡◌, ◌≢◌, refl, ap₂, ◌⊎◌, inl, inr, Bool, true, false, arith, ltb, if◌then◌else◌,
}

unfoldable pub text_before : String → String → Bool
text_before [] [] = false
text_before [] (c ∷ t) = true
text_before (c ∷ s) [] = false
text_before (c ∷ s) (e ∷ t) =
    if ltb (code c) (code e) then true else if ltb (code e) (code c) then false else text_before s t

pub text_before_irrefl : (s : String) → text_before s s ≡ false
unfolding text_before
text_before_irrefl [] = refl
text_before_irrefl (c ∷ s) = ground (arith, text_before_irrefl s)

pub text_before_trans :
    (s t u : String) → text_before s t ≡ true → text_before t u ≡ true → text_before s u ≡ true
unfolding text_before
text_before_trans [] [] u h k = cc
text_before_trans [] (e ∷ t) [] h k = cc
text_before_trans [] (e ∷ t) (f ∷ u) h k = refl
text_before_trans (c ∷ s) [] u h k = cc
text_before_trans (c ∷ s) (e ∷ t) [] h k = cc
text_before_trans (c ∷ s) (e ∷ t) (f ∷ u) h k = ground (arith, text_before_trans s t u)

same_code : (c e : Char) → code c ≡ code e → c ≡ e
same_code c e h = codes_equal c e (ground arith)

-- Texts with the same first character that differ, differ in the rest.
codes_ne : (c e : Char) (s t : String) → c ∷ s ≢ e ∷ t → code c ≡ code e → s ≢ t
codes_ne c e s t h k q = h (ap₂ (λ (x : Char) (r : String). x ∷ r) (same_code c e k) q)

pub text_before_total : (s t : String) → s ≢ t → (text_before s t ≡ true) ⊎ (text_before t s ≡ true)
unfolding text_before
text_before_total [] [] h = absurd (h refl)
text_before_total [] (e ∷ t) h = inl refl
text_before_total (c ∷ s) [] h = inr refl
text_before_total (c ∷ s) (e ∷ t) h = ground (arith, codes_ne c e s t h, text_before_total s t)

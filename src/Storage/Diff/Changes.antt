-- ===== src/Storage/Diff/Changes.antt =====
-- What `Diff` returns, as sets of keys.
use mathlib.Core.List.{map-id}
use identity_api.Common.{
  String, ◌≡◌, ◌&&◌, not, List, [], ◌∷◌, map, arith, contains, keep, eq_iff, refl,
}
use identity_api.Storage.Diff.{absent_from, diff}

module _ {ℓ} {A : Type ℓ} (val : A → String) where
  pub contains-absent_from :
      (k : String) (seen xs : List A)
      → contains k (map val (absent_from val seen xs))
        ≡ (contains k (map val xs) && not (contains k (map val seen)))
  unfolding absent_from keep contains
  contains-absent_from k seen [] = refl
  contains-absent_from k seen (x ∷ xs) =
      ground (arith, contains-absent_from k seen xs, eq_iff k (val x))

  -- The keys to add are those of the incoming values that are not current, and the keys to remove
  -- are those of the current values that are not incoming.
  pub diff_keys :
      (k : String) (current incoming : List A)
      → (contains k (map val (diff val current incoming).0)
          ≡ (contains k (map val incoming) && not (contains k (map val current))))
        × (contains k (map val (diff val current incoming).1)
            ≡ (contains k (map val current) && not (contains k (map val incoming))))
  unfolding diff
  diff_keys k current incoming =
      (contains-absent_from k current incoming, contains-absent_from k incoming current)

-- `diff_keys` where the values are their own keys.
pub diff_texts :
    (k : String) (current incoming : List String)
    → (contains k (diff (λ (x : String). x) current incoming).0
        ≡ (contains k incoming && not (contains k current)))
      × (contains k (diff (λ (x : String). x) current incoming).1
          ≡ (contains k current && not (contains k incoming)))
diff_texts k current incoming = simp map-id at (diff_keys (λ (x : String). x) k current incoming)

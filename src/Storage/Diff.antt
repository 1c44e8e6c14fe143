-- ===== src/Storage/Diff.antt =====
-- internal/storage/helpers.go: the difference of two slices by the keys of their elements.
pub mod Changes
use identity_api.Common.{
  String, ◌≡◌, ◌&&◌, ◌||◌, not, List, [], ◌∷◌, map, arith, contains, keep, contains-keep, Bool,
  refl,
}

module _ {ℓ} {A : Type ℓ} (val : A → String) where
  -- `if _, ok := seen[val(x)]; !ok { out = append(out, x) }` over a slice
  unfoldable pub absent_from : List A → List A → List A
  absent_from seen = keep (λ x. not (contains (val x) (map val seen)))

  -- What to add and what to remove, in that order.
  unfoldable pub diff : List A → List A → List A × List A
  unfolding absent_from
  diff current incoming = (absent_from current incoming, absent_from incoming current)

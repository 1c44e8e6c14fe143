-- ===== src/Paging/Bounds.antt =====
-- The limits of a page.
use identity_api.Common.{ℕ, suc, ◌≤◌, ◌-◌, ℤ, pos, negsuc, ◌≡◌, refl, arith}
use identity_api.Paging.{limit, query_limit}

-- A requested limit that does not exceed the maximum.
abbrev pub IsWithin : ℤ → Type 0
IsWithin (pos n) = n ≤ 100
IsWithin (negsuc n) = Unit {0}

-- The stated limit is from 1 to 100. The limit of the query is at least 1, is never below the stated
-- one, and is the same exactly where the request does not exceed 100.
pub limit_bounds :
    (n : ℤ)
    → (1 ≤ limit n)
      × (limit n ≤ 100)
      × (limit n ≤ query_limit n)
      × (IsWithin n → query_limit n ≡ limit n)
      × (query_limit n ≡ limit n → IsWithin n)
unfolding limit query_limit
limit_bounds (negsuc n) = (omega arith, omega arith, omega arith, λ h. refl, λ h. tt)
limit_bounds (pos n) =
    (ground arith, ground arith, ground arith, λ h. ground arith, λ h. ground arith)

pub limit_suc : (n : ℤ) → (m : ℕ) × (limit n ≡ suc m)
limit_suc n = (limit n - 1, omega (arith, (limit_bounds n).0))

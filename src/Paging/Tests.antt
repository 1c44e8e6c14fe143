-- ===== src/Paging/Tests.antt =====
-- The theorems on pages at concrete inputs.
use Prim.Native.String.{◌++◌}
use identity_api.Common.{
  ℕ, zero, suc, ◌≤◌, pos, String, ◌≡◌, ◌≢◌, refl, none, some, List, [], ◌∷◌, arith, take, length,
  ap, false, ◌==◌, eq_cases, inl, inr,
}
use identity_api.Types.{Group}
use identity_api.Exec.{ok}
use identity_api.Sandbox.Order.{
  text_before, text_before_irrefl, text_before_trans, text_before_total,
}
use identity_api.Sandbox.Data.{ops, dev, qa}
use identity_api.Sandbox.Cursors.{cursors, cursors-IsFaithful}
use identity_api.Storage.Listing.Sql.{group_column}
use identity_api.Paging.Clauses.{quote_value}
use identity_api.Paging.Quoting.{read_quoted, quote_value-read_quoted}
use identity_api.Paging.Page.{order_by, insert, precedes, get_limit}
use identity_api.Paging.Sorting.{IsOrder, IsNew, IsDistinct}
use identity_api.Paging.Walk.{follow}
use identity_api.Paging.Complete.{HasIds, follow-order_by}
use identity_api.Paging.Truncated.{follow-take}

quote_value-read_quoted_example :
    (body : String) × (quote_value "o'clock" ++ " WHERE" ≡ "'" ++ body)
    × (read_quoted b'\'' body ≡ some ("o'clock", " WHERE"))
quote_value-read_quoted_example = quote_value-read_quoted "o'clock" " WHERE" refl

text_before-IsOrder : IsOrder text_before
text_before-IsOrder = record {
  irrefl = text_before_irrefl;
  trans = text_before_trans;
  total = text_before_total;
}

differs : (s t : String) → (s == t) ≡ false → s ≢ t
differs s t h = elim (eq_cases s t) [ inl (_, e) ↦ ground (arith, h, e) | inr (ne, _) ↦ ne ]

abbrev three : List Group
three = ops ∷ qa ∷ dev ∷ []

three-IsDistinct : IsDistinct (group_column "id") three
unfolding group_column
three-IsDistinct = (
  (differs "g-ops" "g-qa" refl, (differs "g-ops" "g-dev" refl, tt)),
  ((differs "g-qa" "g-dev" refl, tt), (tt, tt)),
)

three-HasIds : HasIds (group_column "id") three
unfolding group_column
three-HasIds = (refl, (refl, (refl, tt)))

-- Two pages: two groups, and one.
follow-order_by_example :
    follow cursors text_before group_column "id" "-1m" three (some (pos 2)) 4 none
    ≡ ok (some (order_by text_before group_column ("id" ∷ []) three))
unfolding get_limit
follow-order_by_example =
    follow-order_by text_before-IsOrder cursors-IsFaithful group_column "id" "-1m" three
      three-IsDistinct three-HasIds (some (pos 2)) (omega arith)

sorted_three : order_by text_before group_column ("id" ∷ []) three ≡ dev ∷ ops ∷ qa ∷ []
unfolding order_by insert precedes group_column text_before
sorted_three = refl

-- A row is its id here, and the ids are words of different lengths.
abbrev itself : String → String → String
itself field row = row

unfoldable word : ℕ → String
word zero = "a"
word (suc n) = String.◌∷◌ "a" (word n)

unfoldable size : String → ℕ
size String.[] = 0
size (String.◌∷◌ c s) = suc (size s)

size-word : (n : ℕ) → size (word n) ≡ suc n
unfolding size word
size-word zero = refl
size-word (suc n) = omega (arith, size-word n)

unfoldable words : ℕ → List String
unfolding word
words zero = []
words (suc n) = word n ∷ words n

word-IsNew : (n m : ℕ) → m ≤ n → IsNew (itself "id") (word n) (words m)
unfolding words
word-IsNew n zero h = tt
word-IsNew n (suc m) h =
    (λ e. omega (arith, h, size-word n, size-word m, ap size e), word-IsNew n m (omega (arith, h)))

words-IsDistinct : (n : ℕ) → IsDistinct (itself "id") (words n)
unfolding words
words-IsDistinct zero = tt
words-IsDistinct (suc n) = (word-IsNew n n (omega arith), words-IsDistinct n)

length-words : (n : ℕ) → length (words n) ≡ n
unfolding words
length-words zero = refl
length-words (suc n) = omega (arith, length-words n)

-- Of 102 rows, a walk with the limit 101 shows 101.
follow-take_example :
    follow cursors text_before itself "id" "-1m" (words 102) (some (pos 101)) 3 none
    ≡ ok (some (take 101 (order_by text_before itself ("id" ∷ []) (words 102))))
follow-take_example =
    follow-take text_before-IsOrder cursors itself "id" "-1m" (words 102) (words-IsDistinct 102) 101
      2 (omega arith) (omega (arith, length-words 102))

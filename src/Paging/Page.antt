-- ===== src/Paging/Page.antt =====
-- What a query with the clauses of internal/crdbx answers: rows past the bound values, in the order
-- of the order fields, up to the limit. And SetPagination of pkg/api/v1.
use identity_api.Common.{
  ℕ, ℤ, pos, String, Bool, true, false, ◌&&◌, Option, none, some, List, [], ◌∷◌, keep, take, last?,
  length, nat_eq, if◌then◌else◌,
}
use identity_api.Exec.{Result, ok, err}
use identity_api.Paging.{Codec, Cursor, Paginator, FormatValues, limit, query_limit, new_cursor}

-- The order of texts, and a row's text in a column.
module _ {A : Type 0} (before : String → String → Bool) (column : String → A → String) where
  -- "field" > $n AND …
  unfoldable pub passes : List String → List String → A → Bool
  passes (field ∷ fields) (value ∷ values) row =
      before value (column field row) && passes fields values row
  passes fields values row = true

  -- The order of ORDER BY: by the first field in which the rows differ.
  unfoldable pub precedes : List String → A → A → Bool
  precedes [] a b = false
  precedes (field ∷ fields) a b =
      let rest = precedes fields a b in
      if before (column field a) (column field b)
      then true
      else if before (column field b) (column field a)
      then false
      else rest

  unfoldable pub insert : List String → A → List A → List A
  unfolding precedes
  insert fields a [] = a ∷ []
  insert fields a (b ∷ rows) =
      let rest = insert fields a rows in if precedes fields b a then b ∷ rest else a ∷ b ∷ rows

  unfoldable pub order_by : List String → List A → List A
  unfolding insert
  order_by fields [] = []
  order_by fields (a ∷ rows) = insert fields a (order_by fields rows)

  -- … AND ("field" > $n …) ORDER BY … LIMIT …
  unfoldable pub page : FormatValues → List A → List A
  page v rows =
      take (query_limit v.limit) (order_by v.order_fields (keep (passes v.fields v.values) rows))

-- The query parameters of a listing: `cursor` and `limit`.
pub record Params : Type 0 where
  pub cursor : Option Cursor
  pub limit : Option ℤ

-- GetLimit
unfoldable pub get_limit : Option ℤ → ℤ
get_limit none = pos 0
get_limit (some n) = n

-- The parameters of a listing as a Paginator, with the one field that its GetOnlyFields permits.
unfoldable pub paginator : String → Params → Paginator
unfolding get_limit
paginator field params = record {
  cursor = params.cursor;
  limit = get_limit params.limit;
  only_fields = field ∷ [];
}

-- v1.Pagination
pub record Pagination : Type 0 where
  pub limit : ℕ
  pub next : Option Cursor

unfoldable pub with_next : ℕ → Result (Option Cursor) → Result Pagination
with_next n (ok next) = ok (record { limit = n; next = next })
with_next n (err e) = err e

-- The `if` of SetPagination, at the last row of a full page, if there is one.
unfoldable pub pagination_at : Codec → String → ℕ → ℕ → Option String → Result Pagination
unfolding with_next
pagination_at c field n count none = ok (record { limit = n; next = none })
pagination_at c field n count (some last) =
    if nat_eq count n
    then with_next n (new_cursor c (field ∷ last ∷ []))
    else ok (record { limit = n; next = none })

-- SetPagination: a page as long as the limit is followed by the cursor of its last id.
unfoldable pub set_pagination : Codec → String → Params → List String → Result Pagination
unfolding pagination_at
set_pagination c field params ids =
    pagination_at c field (limit (get_limit params.limit)) (length ids) (last? ids)

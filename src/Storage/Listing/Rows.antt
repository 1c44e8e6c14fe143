-- ===== src/Storage/Listing/Rows.antt =====
-- The rows that a listing returns.
use identity_api.Common.{
  String, ◌≡◌, true, ◌&&◌, Option, List, [], ◌∷◌, ◌++◌, none, ◌==◌, ◌⊎◌, inl, inr, arith, contains,
  Bool-cases, Option-cases,
}
use identity_api.Types.Errors.{Failure, db}
use identity_api.Exec.{Result, ok, err, Result-cases}
use identity_api.Platform.{Platform, IsDocumented}
use identity_api.Platform.Schema.{Tables}
use identity_api.Paging.{
  Codec, FormatValues, paginate, from_values, default_fields, all_permitted, bound_fields, get,
  cursor_values,
}
use identity_api.Paging.Page.{page, Params, paginator}
use identity_api.Paging.Clauses.{as_of_clause}
use identity_api.Storage.Reads.{next_rows-AreTaken}
use identity_api.Storage.Listing.{query_page, paginated}
use identity_api.Storage.Listing.Sql.{listing, covers}

-- A query names no column but the one that its paginator permits.
abbrev IsCovered : List String → FormatValues → Type 0
IsCovered columns v = (covers columns v.fields && covers columns v.order_fields) ≡ true

pub paginated-IsCovered :
    (c : Codec) (as_of : Option String) (columns : List String) (field : String) (params : Params)
    → contains field columns ≡ true
    → IsCovered columns (paginated c as_of (paginator field params))
unfolding paginated paginate paginator from_values default_fields all_permitted bound_fields covers
paginated-IsCovered c as_of columns field params h =
    elim (Result-cases (cursor_values c params.cursor)) [
      | inr (e, r) ↦ ground (arith, r)
      | inl (values, r) ↦ elim (Option-cases values) [
        | inl e ↦ ground (arith, r, e, h)
        | inr (vs, e) ↦ elim (Bool-cases (all_permitted (field ∷ []) vs)) [
          | inr failed ↦ ground (arith, r, e, failed)
          | inl passed ↦ elim (Bool-cases (get field vs == "")) [
            | inl b ↦ ground (arith, r, e, passed, b, h)
            | inr b ↦ ground (arith, r, e, passed, b, h)
          ]
        ]
      ]
    ]

-- The answer of the database to the query for a page.
abbrev pub asked_page :
    (p : Platform) {A : Type 0}
    → List String
    → (String → A → String)
    → (Tables → List A)
    → FormatValues
    → p.World
    → Result (List A × Option Failure)
asked_page p columns column source v w =
    (p.query_rows (as_of_clause v) (listing p.before columns column source v) w).0

-- What is taken of the rows of a page: a beginning, and the whole page where the reading has not broken
-- off.
abbrev pub ArePage :
    {A : Type 0} → List A → Result (List A × Option Failure) → Result (List A) → Type 0
ArePage {A} rows asked taken =
    ((f : Failure) × (asked ≡ err (db f)) × (taken ≡ err (db f)))
    ⊎ ((found : List A) × (rest : List A) × (left : Option Failure) × (rows ≡ found ++ rest)
        × (asked ≡ ok (found, left))
        × (taken ≡ ok found)
        × (left ≡ none → rest ≡ []))

module _ {p : Platform} (d : IsDocumented p) {A : Type 0} (columns : List String)
    (column : String → A → String) (source : Tables → List A) where
  -- The query fails in the database, or returns a beginning of the page of the rows that stand at its
  -- time.
  pub query_page-listing :
      (v : FormatValues) (w : p.World)
      → IsCovered columns v
      → ArePage
          (page p.before column v (source (p.snapshot (as_of_clause v) w)))
          (asked_page p columns column source v w)
          (query_page p v (listing p.before columns column source) w).0
  unfolding query_page listing
  query_page-listing v w h =
      elim (next_rows-AreTaken d (as_of_clause v) (listing p.before columns column source v) w) [
        | inl failed ↦ inl failed
        | inr (found, rest, left, same, e, r, all) ↦
            inr (found, rest, left, ground (arith, same, h), e, r, all)
      ]

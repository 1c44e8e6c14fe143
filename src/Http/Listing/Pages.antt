-- ===== src/Http/Listing/Pages.antt =====
-- What the handlers of collections answer.
use identity_api.Common.{String, ◌≡◌, refl, true, Option, List, map, inl, inr, arith, contains}
use identity_api.Types.{PrefixedId, to_v1_group, to_v1_groups}
use identity_api.Types.Errors.{Failure}
use identity_api.Exec.{Result, ok, Exec, ◌>>=◌, ◌>>◌}
use identity_api.Platform.{Platform, IsDocumented}
use identity_api.Platform.Schema.{Tables}
use identity_api.Paging.{Codec, paginate, context_as_of_system_time}
use identity_api.Paging.Page.{page, Params, paginator}
use identity_api.Paging.Clauses.{as_of_clause}
use identity_api.Storage.Listing.{paginated, query_page, list_groups_by_owner}
use identity_api.Storage.Listing.Sql.{listing, group_columns, group_column, groups_of}
use identity_api.Storage.Listing.Rows.{paginated-IsCovered, query_page-listing, asked_page}
use identity_api.Http.{parse_id, check_access}
use identity_api.Http.Listing.{collection}
use identity_api.Http.Listing.Shown.{shown, IsListed, collection-shown}
use identity_api.Http.Listing as Handlers

module _ {p : Platform} (d : IsDocumented p) (c : Codec) (as_of : Option String)
    (params : Params) where
  abbrev pub time : String
  time = context_as_of_system_time as_of "-1m"

  -- The tables at the time that the listing reads.
  abbrev pub tables_at : String → p.World → Tables
  tables_at field w = p.snapshot (as_of_clause (paginated c as_of (paginator field params))) w

  -- What a query for a page is given by the database, in the world that it is asked in.
  abbrev pub asked :
      {A : Type 0}
      → List String
      → (String → A → String)
      → (Tables → List A)
      → p.World
      → Result (List A × Option Failure)
  asked columns column source =
      asked_page p columns column source (paginated c as_of (paginator "id" params))

  -- The page that the request asks for, of the rows of a source.
  abbrev pub page_of : {A : Type 0} → (String → A → String) → (Tables → List A) → p.World → List A
  page_of column source w =
      page p.before column (paginate c (paginator "id" params) time) (source (tables_at "id" w))

  -- A page and its pagination, answered from a query.
  answered_page :
      {A B : Type 0} (columns : List String) (column : String → A → String)
      (source : Tables → List A) (display : A → B) (id : B → String)
      (same : (a : A) → id (display a) ≡ column "id" a) (w : p.World)
      → contains "id" columns ≡ true
      → IsListed
          (shown c column "id" params display)
          (page_of column source w)
          (asked columns column source w)
          ((query_page p
                (paginated c as_of (paginator "id" params))
                (listing p.before columns column source)
              >>= λ found. collection c "id" params id (map display found))
            w).0
  unfolding paginated
  answered_page columns column source display id same w h =
      let v = paginated c as_of (paginator "id" params) in
      let query = query_page p v (listing p.before columns column source) in
      let covered = paginated-IsCovered c as_of columns "id" params h in
      elim (query_page-listing d columns column source v w covered) [
        | inl (f, e, r) ↦ inl (f, e, ground (arith, r))
        | inr (found, rest, left, page, e, r, all) ↦
            let answer = collection-shown c column "id" params display id same found (query w).1 in
            inr (found, rest, left, page, e, ground (arith, r, answer), all)
      ]

  -- What a handler answers whose check of permission passes.
  pub after_check :
      {A : Type 0} (id : PrefixedId) (action : String) (next : Exec p.World A) (w : p.World)
      → (p.check_access id action w).0 ≡ ok tt
      → ((check_access p id action >> next) w).0 ≡ (next (p.check_access id action w).1).0
  unfolding check_access
  after_check id action next w h = ground (arith, h)

  pub after_parse :
      {A : Type 0} (id : PrefixedId) (next : Exec p.World A) (w : p.World)
      → p.valid_id id ≡ true
      → ((parse_id p id >> next) w).0 ≡ (next w).0
  unfolding parse_id
  after_parse id next w h = ground (arith, h)

  pub answered_groups :
      (owner : PrefixedId) (w : p.World)
      → IsListed
          (shown c group_column "id" params to_v1_group)
          (page_of group_column (groups_of owner) w)
          (asked group_columns group_column (groups_of owner) w)
          ((list_groups_by_owner p c as_of owner (paginator "id" params) >>= λ groups.
              collection c "id" params (λ g. g.id) (to_v1_groups groups))
            w).0
  unfolding list_groups_by_owner to_v1_groups group_column contains
  answered_groups owner w =
      answered_page group_columns group_column (groups_of owner) to_v1_group (λ g. g.id) (λ g. refl)
        w refl

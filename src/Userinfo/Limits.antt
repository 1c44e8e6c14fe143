-- ===== src/Userinfo/Limits.antt =====
-- The groups of the user that a token names come in pages of at most a hundred.
use identity_api.Common.{
  ℕ, zero, suc, ◌≤◌, ℤ, String, ◌≡◌, refl, Bool, Option, List, [], ◌∷◌, map, arith, take, ap, sym,
  subst, length, nat_eq, last?, contains, inl, inr, ◌==◌, Bool-cases, Option-cases,
}
use identity_api.Types.{PrefixedId, Group, to_prefixed_ids}
use identity_api.Exec.{Result, ok, Result-cases}
use identity_api.Platform.{Platform, IsDocumented}
use identity_api.Paging.{
  Codec, FormatValues, limit, query_limit, paginate, from_values, default_fields, all_permitted,
  cursor_values, new_cursor,
}
use identity_api.Paging.Bounds.{limit_bounds}
use identity_api.Paging.Page.{
  page, Params, Pagination, paginator, get_limit, set_pagination, pagination_at, with_next,
}
use identity_api.Paging.Clauses.{as_of_clause}
use identity_api.Paging.Walk.{length-map, length-append}
use identity_api.Storage.Listing.{
  paginated, query_page, scan_memberships, scan_membership, list_groups_by_subject,
}
use identity_api.Storage.Listing.Rows.{paginated-IsCovered, query_page-listing}
use identity_api.Storage.Listing.Sql.{
  Membership, listing, membership_columns, membership_column, memberships_of,
}
use identity_api.Http.Listing.{collection}
use identity_api.Userinfo.{given_limit, parsed_limit, given_cursor, list_user_groups}

length-take_le : {A : Type 0} (k : ℕ) (xs : List A) → length (take k xs) ≤ k
length-take_le zero xs = omega arith
length-take_le (suc k) [] = omega arith
length-take_le (suc k) (x ∷ xs) = omega (arith, length-take_le k xs)

length-page :
    {A : Type 0} (before : String → String → Bool) (column : String → A → String) (v : FormatValues)
    (rows : List A)
    → length (page before column v rows) ≤ query_limit v.limit
unfolding page
length-page before column v rows = length-take_le (query_limit v.limit) _

-- A requested limit that the query does not exceed a hundred with.
abbrev IsCapped : Option ℤ → Type 0
IsCapped n = query_limit (get_limit n) ≤ 100

given_limit-IsCapped :
    (atoi : String → Result ℤ) (text : String) (n : Option ℤ)
    → given_limit atoi text ≡ ok n
    → IsCapped n
unfolding given_limit parsed_limit query_limit get_limit
given_limit-IsCapped atoi text n h = elim (Bool-cases (text == "")) [
  | inl e ↦ ground (arith, e, h)
  | inr e ↦ elim (Result-cases (atoi text)) [
    | inr (f, r) ↦ ground (arith, e, r, h)
    | inl (k, r) ↦ ground (arith, e, r, h, (limit_bounds k).0, (limit_bounds k).1)
  ]
]

paginated-IsCapped :
    (c : Codec) (as_of : Option String) (field : String) (params : Params)
    → IsCapped params.limit
    → query_limit (paginated c as_of (paginator field params)).limit ≤ 100
unfolding paginated paginate paginator from_values default_fields query_limit
paginated-IsCapped c as_of field params h = elim (Result-cases (cursor_values c params.cursor)) [
  | inr (e, r) ↦ ground (arith, r)
  | inl (values, r) ↦ elim (Option-cases values) [
    | inl e ↦ ground (arith, r, e, h)
    | inr (vs, e) ↦ elim (Bool-cases (all_permitted (field ∷ []) vs)) [
      | inr failed ↦ ground (arith, r, e, failed)
      | inl passed ↦ ground (arith, r, e, passed, h)
    ]
  ]
]

length-scan_memberships :
    (ms : List Membership) (gs : List Group) → scan_memberships ms ≡ ok gs → length gs ≡ length ms
unfolding scan_memberships
length-scan_memberships [] gs h = ground (arith, h)
length-scan_memberships (m ∷ ms) gs h = elim (Result-cases (scan_membership m)) [
  | inr (e, r) ↦ ground (arith, r, h)
  | inl (g, r) ↦ elim (Result-cases (scan_memberships ms)) [
    | inr (e, rest) ↦ ground (arith, r, rest, h)
    | inl (more, rest) ↦ ground (arith, r, rest, h, length-scan_memberships ms more rest)
  ]
]

limit-set_pagination :
    (c : Codec) (field : String) (params : Params) (ids : List String) (pg : Pagination)
    → set_pagination c field params ids ≡ ok pg
    → pg.limit ≡ limit (get_limit params.limit)
unfolding set_pagination pagination_at with_next
limit-set_pagination c field params ids pg h = elim (Option-cases (last? ids)) [
  | inl e ↦ ground (arith, e, h)
  | inr (id, e) ↦ elim (Bool-cases (nat_eq (length ids) (limit (get_limit params.limit)))) [
    | inr f ↦ ground (arith, e, f, h)
    | inl t ↦ elim (Result-cases (new_cursor c (field ∷ id ∷ []))) [
      | inl (next, r) ↦ ground (arith, e, t, r, h)
      | inr (x, r) ↦ ground (arith, e, t, r, h)
    ]
  ]
]

module _ {p : Platform} (d : IsDocumented p) (c : Codec) (as_of : Option String) where
  length-list_groups_by_subject :
      (subject : PrefixedId) (params : Params) (w : p.World) (gs : List Group)
      → IsCapped params.limit
      → (list_groups_by_subject p c as_of subject (paginator "group_id" params) w).0 ≡ ok gs
      → length gs ≤ 100
  unfolding list_groups_by_subject contains
  length-list_groups_by_subject subject params w gs capped h =
      let v = paginated c as_of (paginator "group_id" params) in
      let source = memberships_of subject in
      let query = query_page p v (listing p.before membership_columns membership_column source) in
      let covered = paginated-IsCovered c as_of membership_columns "group_id" params refl in
      elim (query_page-listing d membership_columns membership_column source v w covered) [
        | inl (f, _, e) ↦ ground (arith, e, h)
        | inr (found, rest, _, whole, _, e, _) ↦
            let some_of = ap (λ (xs : List Membership). length xs) whole in
            let few =
              length-page p.before membership_column v (source (p.snapshot (as_of_clause v) w)) in
            let cap = paginated-IsCapped c as_of "group_id" params capped in
            elim (Result-cases (scan_memberships found)) [
              | inr (f, r) ↦ ground (arith, e, r, h)
              | inl (groups, r) ↦
                  let all : gs ≡ groups = ground (arith, e, r, h) in
                  omega (
                    arith,
                    few,
                    some_of,
                    length-append found rest,
                    cap,
                    length-scan_memberships found groups r,
                    ap (λ (xs : List Group). length xs) all,
                  )
            ]
      ]

  -- A listing of the token's groups that returns, whatever cursor and limit the request has, returns at
  -- most a hundred ids, and the limit that it states is from 1 to 100.
  pub list_user_groups_bounds :
      (atoi : String → Result ℤ) (subject cursor limit_text : String) (w : p.World)
      (out : List PrefixedId × Pagination)
      → (list_user_groups p c as_of atoi subject cursor limit_text w).0 ≡ ok out
      → (length out.0 ≤ 100) × (1 ≤ out.1.limit) × (out.1.limit ≤ 100)
  unfolding list_user_groups collection to_prefixed_ids
  list_user_groups_bounds atoi subject cursor limit_text w out h =
      elim (Bool-cases (p.valid_id subject)) [
        | inr bad ↦ ground (arith, bad, h)
        | inl valid ↦ elim (Result-cases (given_limit atoi limit_text)) [
          | inr (e, r) ↦ ground (arith, valid, r, h)
          | inl (requested, r) ↦
              let params : Params = record { cursor = given_cursor cursor; limit = requested } in
              let groups_of =
                list_groups_by_subject p c as_of subject (paginator "group_id" params) in
              elim (Result-cases (groups_of w).0) [
                | inr (e, g) ↦ ground (arith, valid, r, g, h)
                | inl (gs, g) ↦
                    let ids = map (λ (x : Group). x.id) gs in
                    elim (Result-cases (set_pagination c "group_id" params (map (λ x. x) ids))) [
                      | inr (e, s) ↦ ground (arith, valid, r, g, s, h)
                      | inl (pg, s) ↦
                          let few =
                            length-list_groups_by_subject subject params w gs
                              (given_limit-IsCapped atoi limit_text requested r) g in
                          let same : out ≡ (ids, pg) = ground (arith, valid, r, g, s, h) in
                          let stated =
                            limit-set_pagination c "group_id" params (map (λ x. x) ids) pg s in
                          let bounds = limit_bounds (get_limit requested) in
                          subst
                            (λ (o : List PrefixedId × Pagination).
                              (length o.0 ≤ 100) × (1 ≤ o.1.limit) × (o.1.limit ≤ 100))
                            (sym same)
                            (
                              omega (arith, few, length-map (λ (x : Group). x.id) gs),
                              omega (arith, stated, bounds.0),
                              omega (arith, stated, bounds.1),
                            )
                    ]
              ]
        ]
      ]

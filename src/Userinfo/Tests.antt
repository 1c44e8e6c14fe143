-- ===== src/Userinfo/Tests.antt =====
-- The theorem on the user's groups at a concrete request: a limit of 250 is brought down to 100.
use identity_api.Common.{
  ◌≤◌, ℤ, pos, String, ◌≡◌, refl, none, List, [], ◌∷◌, keep, find?, contains, length,
}
use identity_api.Types.{PrefixedId, to_prefixed_ids}
use identity_api.Exec.{Result, ok}
use identity_api.Sandbox.{sandbox, sandbox-IsDocumented}
use identity_api.Sandbox.Data.{start}
use identity_api.Sandbox.Order.{text_before}
use identity_api.Sandbox.Cursors.{cursors}
use identity_api.Paging.{paginate, from_values, default_fields, cursor_values, limit, query_limit}
use identity_api.Paging.Page.{
  Pagination, page, passes, precedes, insert, order_by, get_limit, paginator, set_pagination,
  pagination_at,
}
use identity_api.Paging.Clauses.{as_of_clause}
use identity_api.Storage.Listing.{
  list_groups_by_subject, paginated, query_page, scan_memberships, scan_membership,
}
use identity_api.Storage.Listing.Sql.{listing, covers, memberships_of, distinct}
use identity_api.Http.Listing.{collection}
use identity_api.Userinfo.{list_user_groups, given_cursor, given_limit, parsed_limit}
use identity_api.Userinfo.Limits.{list_user_groups_bounds}

abbrev atoi : String → Result ℤ
atoi text = ok (pos 250)

abbrev answer : List PrefixedId × Pagination
answer = ("g-dev" ∷ "g-ops" ∷ [], record { limit = 100; next = none })

lists : (list_user_groups sandbox cursors none atoi "ann" "" "250" start).0 ≡ ok answer
unfolding list_user_groups given_cursor given_limit parsed_limit limit list_groups_by_subject
    paginated query_page listing covers contains memberships_of distinct keep find? paginate
    from_values default_fields cursor_values paginator get_limit page passes precedes insert
    order_by query_limit text_before scan_memberships scan_membership to_prefixed_ids collection
    set_pagination pagination_at as_of_clause
lists = refl

list_user_groups_bounds_example :
    (length answer.0 ≤ 100) × (1 ≤ answer.1.limit) × (answer.1.limit ≤ 100)
list_user_groups_bounds_example =
    list_user_groups_bounds sandbox-IsDocumented cursors none atoi "ann" "" "250" start answer lists

-- ===== src/Http/Listing/Tests.antt =====
-- The theorem on the listings at a concrete owner and issuer.
use identity_api.Common.{none, some, [], ◌∷◌, ◌≡◌, refl, pos, keep, contains}
use identity_api.Types.Clients.{V1OAuthClient, to_v1_oauth_client}
use identity_api.Exec.{ok}
use identity_api.Platform.Schema.{ClientRow}
use identity_api.Sandbox.{sandbox}
use identity_api.Sandbox.Data.{start, dev}
use identity_api.Sandbox.Order.{text_before}
use identity_api.Sandbox.Cursors.{cursors}
use identity_api.Paging.{
  context_as_of_system_time, paginate, from_values, default_fields, cursor_values, limit,
  query_limit,
}
use identity_api.Paging.Clauses.{as_of_clause}
use identity_api.Paging.Page.{
  Params, page, passes, precedes, insert, order_by, get_limit, paginator,
}
use identity_api.Storage.{next_rows}
use identity_api.Storage.Clients.{client_of}
use identity_api.Storage.Listing.{list_groups_by_owner, paginated, query_page}
use identity_api.Storage.Listing.Sql.{group_column, groups_of, covers, listing}

abbrev first_page : Params
first_page = record { cursor = none; limit = some (pos 1) }

abbrev display_client : ClientRow → V1OAuthClient
display_client row = to_v1_oauth_client (client_of row)

-- The first of the two groups comes on the first page.
first :
    (list_groups_by_owner sandbox cursors none "tnt" (paginator "id" first_page) start).0
    ≡ ok (dev ∷ [])
unfolding list_groups_by_owner paginated query_page next_rows listing paginate paginator from_values
    default_fields context_as_of_system_time cursor_values as_of_clause covers page order_by
    query_limit limit get_limit passes precedes insert keep groups_of group_column contains
    text_before
first = refl

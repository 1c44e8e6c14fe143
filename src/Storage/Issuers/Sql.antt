-- ===== src/Storage/Issuers/Sql.antt =====
-- The SQL statements of internal/storage/issuer.go and query.go.
use identity_api.Common.{
  ℕ, String, Bool, not, ◌&&◌, ◌||◌, Option, some, List, [], ◌∷◌, ◌++◌, map, ◌==◌, if◌then◌else◌,
  keep, any, find?, length,
}
use identity_api.Types.{PrefixedId}
use identity_api.Types.Errors.{duplicate_key, foreign_key}
use identity_api.Platform.Schema.{IssuerRow, UserRow, Stmt, rows, violation}

abbrev pub has_id : PrefixedId → IssuerRow → Bool
has_id id i = i.id == id

abbrev pub has_uri : String → IssuerRow → Bool
has_uri uri i = i.uri == uri

abbrev pub of_issuer : PrefixedId → UserRow → Bool
of_issuer id u = u.iss_id == id

-- PRIMARY KEY (id), UNIQUE (uri)
unfoldable pub clashes : IssuerRow → IssuerRow → Bool
clashes i r = r.id == i.id || r.uri == i.uri

-- INSERT INTO issuers (…) VALUES ($1, …, $7)
unfoldable pub insert_issuer_row : IssuerRow → Stmt (Unit {0})
unfolding clashes
insert_issuer_row i t =
    if any (clashes i) t.issuers
    then (violation duplicate_key, t)
    else (rows tt, record t { issuers = t.issuers ++ i ∷ [] })

-- SELECT … FROM issuers WHERE id = $1
unfoldable pub select_issuer_by_id : PrefixedId → Stmt (Option IssuerRow)
select_issuer_by_id id t = (rows (find? (has_id id) t.issuers), t)

-- SELECT … FROM issuers WHERE uri = $1
unfoldable pub select_issuer_by_uri : String → Stmt (Option IssuerRow)
select_issuer_by_uri uri t = (rows (find? (has_uri uri) t.issuers), t)

-- A `colBinding`: the column and the value that it is set to.
pub data ColBinding : Type 0 where
  set_name set_uri set_jwksuri set_mappings set_conditions : String → ColBinding

unfoldable pub set_column : ColBinding → IssuerRow → IssuerRow
set_column (set_name v) i = record i { name = v }
set_column (set_uri v) i = record i { uri = v }
set_column (set_jwksuri v) i = record i { jwksuri = v }
set_column (set_mappings v) i = record i { mappings = some v }
set_column (set_conditions v) i = record i { conditions = some v }

unfoldable pub set_columns : List ColBinding → IssuerRow → IssuerRow
unfolding set_column
set_columns [] i = i
set_columns (b ∷ bs) i = set_columns bs (set_column b i)

abbrev pub syntax_error : String
syntax_error = "42601"

unfoldable pub set_issuer : PrefixedId → List ColBinding → IssuerRow → IssuerRow
set_issuer id bindings i = if i.id == id then set_columns bindings i else i

-- Another issuer has the URI that the row would get.
unfoldable pub uri_taken : PrefixedId → List ColBinding → IssuerRow → IssuerRow → Bool
uri_taken id bindings i r = not (r.id == id) && r.uri == (set_columns bindings i).uri

-- UPDATE issuers SET … WHERE id = $n RETURNING …. With no column to set this is no SQL.
unfoldable pub update_issuer_row : PrefixedId → List ColBinding → Stmt (Option IssuerRow)
unfolding set_issuer uri_taken
update_issuer_row id [] t = (violation syntax_error, t)
update_issuer_row id (b ∷ bs) t =
    if any (λ i. has_id id i && any (uri_taken id (b ∷ bs) i) t.issuers) t.issuers
    then (violation duplicate_key, t)
    else (
      rows (find? (has_id id) (map (set_issuer id (b ∷ bs)) t.issuers)),
      record t { issuers = map (set_issuer id (b ∷ bs)) t.issuers },
    )

-- DELETE FROM user_info WHERE iss_id = $1
unfoldable pub delete_users_of_issuer : PrefixedId → Stmt (Unit {0})
delete_users_of_issuer id t =
    (rows tt, record t { user_info = keep (λ u. not (of_issuer id u)) t.user_info })

-- DELETE FROM issuers WHERE id = $1, with the rows affected; user_info.iss_id REFERENCES issuers(id)
unfoldable pub delete_issuer_row : PrefixedId → Stmt ℕ
delete_issuer_row id t = if any (of_issuer id) t.user_info then (violation foreign_key, t) else (
  rows (length (keep (has_id id) t.issuers)),
  record t { issuers = keep (λ i. not (has_id id i)) t.issuers },
)

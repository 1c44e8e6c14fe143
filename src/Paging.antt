-- ===== src/Paging.antt =====
-- internal/crdbx: cursors, limits and what a request for a page asks of a query.
pub mod Bounds
pub mod Cursors
pub mod Clauses
pub mod Quoting
pub mod Page
pub mod Sorting
pub mod Walk
pub mod Requests
pub mod Complete
pub mod Truncated
mod Tests
use identity_api.Common.{
  ℕ, ℤ, pos, negsuc, String, Bool, true, false, not, Option, none, some, List, [], ◌∷◌, ◌++◌, map,
  ◌==◌, ltb, nat_eq, if◌then◌else◌, contains,
}
use identity_api.Types.Errors.{Error, invalid_pagination_cursor, panic}
use identity_api.Exec.{Result, ok, err}
use identity_api.Exec.Pure.{◌>>=◌}

-- A url.Values with one value under each key.
abbrev pub Values : Type 0
Values = List (String × String)

-- encoding/base64 and the two directions of url.Values as text.
pub record Codec : Type 0 where
  pub encode_base64 : String → String
  pub decode_base64 : String → Result String
  pub encode_query : Values → String
  pub parse_query : String → Result Values

-- Values.Get: the empty text where the key is missing.
unfoldable pub get : String → Values → String
get key [] = ""
get key ((k, v) ∷ values) = let rest = get key values in if k == key then v else rest

-- Values.Set
unfoldable pub set : String → String → Values → Values
set key value [] = (key, value) ∷ []
set key value ((k, v) ∷ values) =
    let rest = set key value values in if k == key then (key, value) ∷ values else (k, v) ∷ rest

abbrev pub Cursor : Type 0
Cursor = String

abbrev pub pagination_limit_max : ℕ
pagination_limit_max = 100

abbrev pub pagination_limit_default : ℕ
pagination_limit_default = 10

-- `Limit`: the limit that a response states.
unfoldable pub limit : ℤ → ℕ
limit (negsuc n) = pagination_limit_default
limit (pos n) =
    if ltb pagination_limit_max n
    then pagination_limit_max
    else if nat_eq n 0
    then pagination_limit_default
    else n

-- The number behind LIMIT in `LimitClause`.
unfoldable pub query_limit : ℤ → ℕ
query_limit (negsuc n) = pagination_limit_default
query_limit (pos n) = if nat_eq n 0 then pagination_limit_default else n

-- What `url.ParseQuery` answers, behind the package's error.
unfoldable pub parsed_query : Result Values → Result (Option Values)
parsed_query (ok values) = ok (some values)
parsed_query (err e) = err invalid_pagination_cursor

unfoldable pub parsed_cursor : Codec → Result String → Result (Option Values)
unfolding parsed_query
parsed_cursor c (ok text) = parsed_query (c.parse_query text)
parsed_cursor c (err e) = err invalid_pagination_cursor

module _ (c : Codec) where
  -- Cursor.Values: a missing or an empty cursor gives a nil map, `none`.
  unfoldable pub cursor_values : Option Cursor → Result (Option Values)
  unfolding parsed_cursor
  cursor_values none = ok none
  cursor_values (some cursor) =
      if cursor == "" then ok none else parsed_cursor c (c.decode_base64 cursor)

  unfoldable pub new_cursor_from_values : Option Values → Option Cursor
  new_cursor_from_values none = none
  new_cursor_from_values (some values) = some (c.encode_base64 (c.encode_query values))

  -- Cursor.Set. A map of an empty cursor is nil, and writing to a nil map panics; so does writing
  -- through a nil cursor.
  unfoldable pub cursor_set : Option Cursor → String → String → Result Cursor
  unfolding cursor_values
  cursor_set none key value = err panic
  cursor_set (some cursor) key value = cursor_values (some cursor) >>= λ values. elim values [
    | none ↦ err panic
    | some vs ↦ ok (c.encode_base64 (c.encode_query (set key value vs)))
  ]

  -- The loop of `NewCursor`: an empty value is left out. `none`: the number of texts is odd.
  unfoldable pub pairs_to_values : List String → Values → Option Values
  pairs_to_values [] values = some values
  pairs_to_values (key ∷ []) values = none
  pairs_to_values (key ∷ value ∷ kvpairs) values =
      pairs_to_values kvpairs (if value == "" then values else set key value values)

  unfoldable pub new_cursor : List String → Result (Option Cursor)
  unfolding pairs_to_values new_cursor_from_values
  new_cursor [] = ok none
  new_cursor (kv ∷ kvpairs) = elim (pairs_to_values (kv ∷ kvpairs) []) [
    | none ↦ err invalid_pagination_cursor
    | some values ↦ ok (new_cursor_from_values (some values))
  ]

-- A Paginator: what it answers to GetCursor, GetLimit and GetOnlyFields.
pub record Paginator : Type 0 where
  pub cursor : Option Cursor
  pub limit : ℤ
  pub only_fields : List String

-- The time is a text; the code passes no other.
pub record FormatValues : Type 0 where
  pub as_of_system_time : Option String
  pub fields : List String
  pub values : List String
  pub order_fields : List String
  pub limit : ℤ
  pub qualifier : String

abbrev pub no_format_values : FormatValues
no_format_values = record {
  as_of_system_time = none;
  fields = [];
  values = [];
  order_fields = [];
  limit = pos 0;
  qualifier = "";
}

-- `ContextAsOfSystemTime`: the value of the context, or the default.
unfoldable pub context_as_of_system_time : Option String → String → String
context_as_of_system_time none default_time = default_time
context_as_of_system_time (some value) default_time = value

unfoldable pub default_fields : List String → List String
default_fields [] = "id" ∷ []
default_fields (field ∷ fields) = field ∷ fields

-- Whether every key of the cursor is a permitted field.
unfoldable pub all_permitted : List String → Values → Bool
all_permitted only_fields [] = true
all_permitted only_fields ((key, v) ∷ values) =
    let rest = all_permitted only_fields values in if contains key only_fields then rest else false

-- The fields with a value in the cursor, in the order of the permitted ones.
unfoldable pub bound_fields : Values → List String → Values
bound_fields values [] = []
bound_fields values (field ∷ fields) =
    let rest = bound_fields values fields in
    if get field values == "" then rest else (field, get field values) ∷ rest

unfoldable pub from_values : Paginator → String → List String → Option Values → FormatValues
unfolding all_permitted bound_fields
from_values p time only_fields none = record {
  as_of_system_time = some time;
  fields = [];
  values = [];
  order_fields = only_fields;
  limit = p.limit;
  qualifier = "";
}
from_values p time only_fields (some values) =
    if all_permitted only_fields values
    then record {
      as_of_system_time = some time;
      fields = map (λ kv. kv.0) (bound_fields values only_fields);
      values = map (λ kv. kv.1) (bound_fields values only_fields);
      order_fields = only_fields;
      limit = p.limit;
      qualifier = "";
    }
    else no_format_values

module _ (c : Codec) where
  unfoldable pub paginate : Paginator → String → FormatValues
  unfolding from_values default_fields cursor_values
  paginate p time = elim (cursor_values c p.cursor) [
    | err e ↦ no_format_values
    | ok values ↦ from_values p time (default_fields p.only_fields) values
  ]

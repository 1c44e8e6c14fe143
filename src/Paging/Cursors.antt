-- ===== src/Paging/Cursors.antt =====
-- internal/crdbx/cursor.go: a cursor as a text and as JSON. `marshal` is json.Marshal of a text.
use identity_api.Common.{String, Option, none, some, List, ◌==◌, if◌then◌else◌}
use identity_api.Types.Errors.{panic}
use identity_api.Exec.{Result, ok, err}
use identity_api.Paging.{Codec, Cursor, new_cursor}

unfoldable pub cursor_string : Option Cursor → String
cursor_string none = ""
cursor_string (some cursor) = cursor

unfoldable pub cursor_string_ptr : Option Cursor → Option String
unfolding cursor_string
cursor_string_ptr none = none
cursor_string_ptr (some cursor) = some (cursor_string (some cursor))

unfoldable pub marshal_cursor : (String → Result String) → Option Cursor → Result String
marshal_cursor marshal none = ok "null"
marshal_cursor marshal (some cursor) = if cursor == "" then ok "null" else marshal cursor

-- `if err != nil { panic(err) }`
unfoldable pub or_panic : Result (Option Cursor) → Result (Option Cursor)
or_panic (ok cursor) = ok cursor
or_panic (err e) = err panic

unfoldable pub must_new_cursor : Codec → List String → Result (Option Cursor)
unfolding or_panic new_cursor
must_new_cursor c kvpairs = or_panic (new_cursor c kvpairs)

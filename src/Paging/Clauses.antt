-- ===== src/Paging/Clauses.antt =====
-- internal/crdbx/template_values.go: the clauses of a query, as text.
use Prim.Native.Char.{code}
use Prim.Native.String.{◌++◌}
use identity_api.Common.{
  ℕ, suc, String, Bool, Option, none, some, List, [], ◌∷◌, ◌==◌, nat_eq, if◌then◌else◌, join,
}
use identity_api.Common as Common
use identity_api.Paging.{FormatValues, query_limit}

-- strings.ReplaceAll of a quotation mark, given by its code, by two of them.
unfoldable pub doubled : ℕ → String → String
doubled q String.[] = ""
doubled q (String.◌∷◌ c s) =
    let rest = doubled q s in
    if nat_eq (code c) q then String.◌∷◌ c (String.◌∷◌ c rest) else String.◌∷◌ c rest

unfoldable pub quote_field : String → String → String
unfolding doubled
quote_field q v =
    if q == ""
    then "\"" ++ (doubled b'"' v ++ "\"")
    else "\"" ++ (doubled b'"' q ++ ("\"." ++ ("\"" ++ (doubled b'"' v ++ "\""))))

-- The loop writes the quoted fields into the slice that it was given.
unfoldable pub quote_fields : String → List String → List String
unfolding quote_field
quote_fields q [] = []
quote_fields q (field ∷ fields) = quote_field q field ∷ quote_fields q fields

unfoldable pub quote_value : String → String
unfolding doubled
quote_value v = "'" ++ (doubled b'\'' v ++ "'")

-- The bound conditions, numbered from `next`; `itoa` is strconv.Itoa.
unfoldable pub conditions : (ℕ → String) → String → List String → ℕ → List String
unfolding quote_field
conditions itoa q [] next = []
conditions itoa q (field ∷ fields) next =
    (quote_field q field ++ (">$" ++ itoa next)) ∷ conditions itoa q fields (suc next)

-- FormatValues.Where
unfoldable pub where_values : (ℕ → String) → FormatValues → ℕ → String
unfolding conditions join
where_values itoa v next = elim v.fields [
  | [] ↦ ""
  | field ∷ fields ↦
      "(" ++ (join " AND " (conditions itoa v.qualifier (field ∷ fields) next) ++ ")")
]

unfoldable pub prefixed : String → String → String
prefixed word text = if text == "" then "" else word ++ text

unfoldable pub where_clause : (ℕ → String) → FormatValues → ℕ → String
unfolding where_values prefixed
where_clause itoa v next = prefixed "WHERE " (where_values itoa v next)

unfoldable pub and_where : (ℕ → String) → FormatValues → ℕ → String
unfolding where_values prefixed
and_where itoa v next = prefixed "AND " (where_values itoa v next)

unfoldable pub limit_clause : (ℕ → String) → FormatValues → String
unfolding query_limit
limit_clause itoa v = "LIMIT " ++ itoa (query_limit v.limit)

-- FormatValues.Order. `quoteFields` writes into the slice of the order fields, which the caller's
-- value shares, so the value after the call comes back too.
unfoldable pub order : FormatValues → List String → String × FormatValues
unfolding quote_fields join
order v fields =
    let quoted = quote_fields v.qualifier v.order_fields in
    (join "," (Common.◌++◌ fields quoted), record v { order_fields = quoted })

unfoldable pub order_clause : FormatValues → List String → String × FormatValues
unfolding order prefixed
order_clause v fields = (prefixed "ORDER BY " (order v fields).0, (order v fields).1)

unfoldable pub as_of_clause : FormatValues → String
unfolding quote_value
as_of_clause v = elim v.as_of_system_time [
  | none ↦ ""
  | some value ↦ if value == "" then "" else "AS OF SYSTEM TIME " ++ quote_value value
]

-- FormatValues.Values: the values given come first.
unfoldable pub bind_values : FormatValues → List String → List String
bind_values v values = Common.◌++◌ values v.values

unfoldable pub with_qualifier : FormatValues → String → FormatValues
with_qualifier v q = record v { qualifier = q }

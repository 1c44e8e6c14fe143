-- ===== src/Paging/Requests.antt =====
-- What one request of a listing asks for, and the pagination of its answer.
use identity_api.Common.{
  ℕ, suc, ℤ, String, ◌≡◌, refl, Bool, true, false, ◌&&◌, Option, none, some, List, [], ◌∷◌, ◌++◌,
  arith, keep, take, last?, length, nat_eq, inl, inr, ◌==◌, contains, eq_refl, ap, ◌∙◌, subst,
  Option-cases,
}
use identity_api.Exec.{ok}
use identity_api.Paging.{
  Codec, Cursor, FormatValues, paginate, limit, query_limit, new_cursor, from_values, all_permitted,
  bound_fields, get, set, cursor_values, parsed_cursor, parsed_query, pairs_to_values,
  new_cursor_from_values, default_fields,
}
use identity_api.Paging.Page.{
  page, order_by, insert, passes, Params, paginator, get_limit, set_pagination, pagination_at,
  with_next,
}
use identity_api.Paging.Sorting.{
  IsOrder, IsDistinct, IsSorted, order_by-IsSorted, order_by-keep, keep-past,
}
use identity_api.Paging.Walk.{IsFaithful}

keep-cong :
    {A : Type 0} (p q : A → Bool) (xs : List A) → ((a : A) → p a ≡ q a) → keep p xs ≡ keep q xs
unfolding keep
keep-cong p q [] h = refl
keep-cong p q (x ∷ xs) h = ground (arith, h x, keep-cong p q xs h)

-- The cursor behind an id.
abbrev pub cursor_of : Codec → String → String → Cursor
cursor_of c field id = c.encode_base64 (c.encode_query ((field, id) ∷ []))

new_cursor_lem :
    (c : Codec) (field id : String)
    → (id == "") ≡ false
    → new_cursor c (field ∷ id ∷ []) ≡ ok (some (cursor_of c field id))
unfolding new_cursor pairs_to_values new_cursor_from_values set
new_cursor_lem c field id h = ground (arith, h)

abbrev pub values_past : String → String → String → ℤ → FormatValues
values_past field id time n = record {
  as_of_system_time = some time;
  fields = field ∷ [];
  values = id ∷ [];
  order_fields = field ∷ [];
  limit = n;
  qualifier = "";
}

-- A request with the cursor of an id asks for what is past the id.
pub paginate-cursor_of :
    {c : Codec} (f : IsFaithful c) (field id time : String) (n : Option ℤ)
    → (id == "") ≡ false
    → paginate c (paginator field (record { cursor = some (cursor_of c field id); limit = n })) time
      ≡ values_past field id time (get_limit n)
unfolding paginate paginator from_values default_fields cursor_values parsed_cursor parsed_query
    all_permitted bound_fields get contains
paginate-cursor_of {c} f field id time n h = ground (
  arith,
  f.encode_non_empty (c.encode_query ((field, id) ∷ [])) (f.query_non_empty field id),
  f.decode-encode (c.encode_query ((field, id) ∷ [])),
  f.parse-encode field id,
  eq_refl field,
  h,
)

pub keep-true : {A : Type 0} (xs : List A) → keep (λ (x : A). true) xs ≡ xs
unfolding keep
keep-true [] = refl
keep-true (x ∷ xs) = ap (◌∷◌ x) (keep-true xs)

module _ {A : Type 0} {before : String → String → Bool} (o : IsOrder before)
    (column : String → A → String) (field time : String) (rows : List A)
    (d : IsDistinct (column field) rows) where
  pub page_past :
      (n : ℤ) (front : List A) (a : A) (rest : List A)
      → order_by before column (field ∷ []) rows ≡ front ++ a ∷ rest
      → page before column (values_past field (column field a) time n) rows
        ≡ take (query_limit n) rest
  unfolding page passes
  page_past n front a rest e =
      let at = column field in
      let past = λ (r : A). before (at a) (at r) in
      let sorted = order_by before column (field ∷ []) in
      let tests =
        keep-cong (λ (r : A). before (at a) (at r) && true) past rows (λ r. ground arith) in
      let s = subst (IsSorted before at) e (order_by-IsSorted o column field rows d) in
      ap (take (query_limit n)) (
        ap sorted tests
        ∙ order_by-keep o column field past rows d
        ∙ ap (keep past) e
        ∙ keep-past o column field front a rest s)

  pub page_first :
      (c : Codec) (n : Option ℤ)
      → page before column
          (paginate c (paginator field (record { cursor = none; limit = n })) time)
          rows
        ≡ take (query_limit (get_limit n)) (order_by before column (field ∷ []) rows)
  unfolding page passes paginate paginator from_values default_fields cursor_values
  page_first c n =
      ap
        (λ (xs : List A). take (query_limit (get_limit n)) (order_by before column (field ∷ []) xs))
        (keep-true rows)

length-insert :
    {A : Type 0} (before : String → String → Bool) (column : String → A → String) (field : String)
    (a : A) (rows : List A)
    → length (insert before column (field ∷ []) a rows) ≡ suc (length rows)
unfolding insert
length-insert before column field a [] = refl
length-insert before column field a (b ∷ rows) =
    ground (arith, length-insert before column field a rows)

pub length-order_by :
    {A : Type 0} (before : String → String → Bool) (column : String → A → String) (field : String)
    (rows : List A)
    → length (order_by before column (field ∷ []) rows) ≡ length rows
unfolding order_by
length-order_by before column field [] = refl
length-order_by before column field (a ∷ rows) =
    let sorted = order_by before column (field ∷ []) rows in
    omega
      (arith, length-insert before column field a sorted, length-order_by before column field rows)

-- The `if` of SetPagination on a page that is not full, and on one that is.
pub set_pagination_short :
    (c : Codec) (field : String) (params : Params) (ids : List String) (m : ℕ)
    → limit (get_limit params.limit) ≡ m
    → nat_eq (length ids) m ≡ false
    → set_pagination c field params ids ≡ ok (record { limit = m; next = none })
unfolding set_pagination pagination_at
set_pagination_short c field params ids m e h = elim (Option-cases (last? ids)) [
  | inl none_last ↦ ground (arith, e, h, none_last)
  | inr (id, some_last) ↦ ground (arith, e, h, some_last)
]

pub set_pagination_full :
    (c : Codec) (field : String) (params : Params) (ids : List String) (id : String) (m : ℕ)
    → limit (get_limit params.limit) ≡ suc m
    → length ids ≡ suc m
    → last? ids ≡ some id
    → (id == "") ≡ false
    → set_pagination c field params ids
      ≡ ok (record { limit = suc m; next = some (cursor_of c field id) })
unfolding set_pagination pagination_at with_next
set_pagination_full c field params ids id m e h l ne =
    ground (arith, e, h, l, new_cursor_lem c field id ne)

-- ===== src/Paging/Complete.antt =====
-- Following the cursors visits every row once, in the order of the ids.
use mathlib.Core.List.{append_assoc}
use identity_api.Common.{
  ℕ, zero, suc, ◌<◌, ℤ, String, ◌≡◌, refl, Bool, false, Option, none, some, List, [], ◌∷◌, ◌++◌,
  map, arith, take, length, nat_eq, inl, inr, ◌==◌, ap, sym, ◌∙◌, subst, Bool-cases,
}
use identity_api.Exec.{ok}
use identity_api.Paging.{Codec, Cursor, FormatValues, paginate, limit, query_limit}
use identity_api.Paging.Page.{
  page, order_by, insert, precedes, Params, Pagination, paginator, get_limit, set_pagination,
}
use identity_api.Paging.Bounds.{IsWithin, limit_bounds, limit_suc}
use identity_api.Paging.Sorting.{IsOrder, IsDistinct}
use identity_api.Paging.Requests.{
  cursor_of, paginate-cursor_of, page_past, page_first, set_pagination_short, set_pagination_full,
  length-order_by,
}
use identity_api.Paging.Walk.{
  IsFaithful, list_page, follow, take_cases, length-map, length-append, last?-concat,
}

-- Every row has an id.
abbrev pub HasIds : {A : Type 0} → (A → String) → List A → Type 0
HasIds key [] = Unit {0}
HasIds key (a ∷ rows) = ((key a == "") ≡ false) × HasIds key rows

insert-HasIds :
    {A : Type 0} (before : String → String → Bool) (column : String → A → String) (field : String)
    (a : A) (rows : List A)
    → (column field a == "") ≡ false
    → HasIds (column field) rows
    → HasIds (column field) (insert before column (field ∷ []) a rows)
unfolding insert
insert-HasIds before column field a [] h k = (h, tt)
insert-HasIds before column field a (b ∷ rows) h k =
    elim (Bool-cases (precedes before column (field ∷ []) b a)) [
      | inl e ↦ rw e (k.0, insert-HasIds before column field a rows h k.1)
      | inr e ↦ rw e (h, k)
    ]

order_by-HasIds :
    {A : Type 0} (before : String → String → Bool) (column : String → A → String) (field : String)
    (rows : List A)
    → HasIds (column field) rows
    → HasIds (column field) (order_by before column (field ∷ []) rows)
unfolding order_by
order_by-HasIds before column field [] h = tt
order_by-HasIds before column field (a ∷ rows) h =
    insert-HasIds before column field a (order_by before column (field ∷ []) rows) h.0
      (order_by-HasIds before column field rows h.1)

HasIds-middle :
    {A : Type 0} (key : A → String) (front : List A) (a : A) (rest : List A)
    → HasIds key (front ++ a ∷ rest)
    → (key a == "") ≡ false
HasIds-middle key [] a rest h = h.0
HasIds-middle key (x ∷ front) a rest h = HasIds-middle key front a rest h.1

module _ {A : Type 0} (c : Codec) (before : String → String → Bool) (column : String → A → String)
    (field time : String) (rows : List A) where
  pub answered :
      (params : Params) (xs : List A) (pagination : Pagination)
      → page before column (paginate c (paginator field params) time) rows ≡ xs
      → set_pagination c field params (map (column field) xs) ≡ ok pagination
      → list_page c before column field time rows params ≡ ok (xs, pagination)
  unfolding list_page
  answered params xs pagination e h = rw (e, h) refl

module _ {A : Type 0} {before : String → String → Bool} (o : IsOrder before) {c : Codec}
    (f : IsFaithful c) (column : String → A → String) (field time : String) (rows : List A)
    (d : IsDistinct (column field) rows) (ids : HasIds (column field) rows) where
  abbrev sorted : List A
  sorted = order_by before column (field ∷ []) rows

  abbrev request : Option ℤ → Option Cursor → Params
  request n cursor = record { cursor = cursor; limit = n }

  abbrev found : Option ℤ → Option Cursor → List A
  found n cursor = page before column (paginate c (paginator field (request n cursor)) time) rows

  -- From a cursor whose page is the first part of the rows left, the walk collects all that are left.
  follow_rest :
      (n : Option ℤ) (m fuel : ℕ) (cursor : Option Cursor) (front left : List A)
      → query_limit (get_limit n) ≡ suc m
      → limit (get_limit n) ≡ suc m
      → found n cursor ≡ take (suc m) left
      → sorted ≡ front ++ left
      → length left < fuel
      → follow c before column field time rows n fuel cursor ≡ ok (some left)
  unfolding follow
  follow_rest n m zero cursor front left q l e s h = elim h [ ]
  follow_rest n m (suc fuel) cursor front left q l e s h =
      let at = column field in
      elim (take_cases m left) [
        | inl (whole, short) ↦
            let few : nat_eq (length (map at left)) (suc m) ≡ false =
              ground (arith, length-map at left) in
            let stops =
              set_pagination_short c field (request n cursor) (map at left) (suc m) l few in
            rw
              (answered c before column field time rows (request n cursor) left _ (e ∙ whole) stops)
              refl
        | inr (init, a, rest, split, full, count) ↦
            let here = init ++ a ∷ [] in
            let many : length (map at here) ≡ suc m =
              omega (arith, length-map at here, length-append init (a ∷ []), count) in
            let all_ids = order_by-HasIds before column field rows ids in
            let split_all : sorted ≡ (front ++ init) ++ a ∷ rest =
              s
              ∙ ap (λ (xs : List A). front ++ xs) split
              ∙ sym (append_assoc front init (a ∷ rest)) in
            let named =
              HasIds-middle at (front ++ init) a rest (subst (HasIds at) split_all all_ids) in
            let goes_on =
              set_pagination_full c field (request n cursor) (map at here) (at a) m l many
                (last?-concat at init a) named in
            let next = cursor_of c field (at a) in
            let past : found n (some next) ≡ take (suc m) rest =
              ap (λ (v : FormatValues). page before column v rows)
                (paginate-cursor_of f field (at a) time n named)
              ∙ page_past o column field time rows d (get_limit n) (front ++ init) a rest split_all
              ∙ ap (λ (k : ℕ). take k rest) q in
            let split_here : sorted ≡ (front ++ here) ++ rest = split_all ∙ simp append_assoc in
            let fewer : length rest < fuel =
              omega
                (arith, ap (λ (xs : List A). length xs) split, length-append init (a ∷ rest), h) in
            let ih =
              follow_rest n m fuel (some next) (front ++ here) rest q l past split_here fewer in
            rw
              (
                answered c before column field time rows (request n cursor) here _ (e ∙ full)
                    goes_on,
                ih,
              )
              (ap (λ (xs : List A). ok (some xs)) (append_assoc init (a ∷ []) rest ∙ sym split))
      ]

  -- Where rows have different ids that are not empty, and the limit asked for is at most 100 (or
  -- missing, or not positive), a client that starts without a cursor and follows the cursors gets every
  -- row once, in the order of the ids, after at most as many pages as there are rows, and one.
  pub follow-order_by :
      (n : Option ℤ)
      → IsWithin (get_limit n)
      → follow c before column field time rows n (suc (length rows)) none ≡ ok (some sorted)
  follow-order_by n w =
      let (m, l) = limit_suc (get_limit n) in
      let same = (limit_bounds (get_limit n)).3 w ∙ l in
      let first = page_first o column field time rows d c n ∙ ap (λ (k : ℕ). take k sorted) same in
      follow_rest n m (suc (length rows)) none [] sorted same l first refl
        (omega (arith, length-order_by before column field rows))

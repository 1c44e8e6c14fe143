-- ===== src/Paging/Truncated.antt =====
-- A limit above 100 ends a walk early.
use identity_api.Common.{
  ℕ, zero, suc, ◌≤◌, ◌<◌, pos, String, ◌≡◌, refl, Bool, false, none, some, List, [], ◌∷◌, map,
  arith, take, length, nat_eq, ap, ◌∙◌,
}
use identity_api.Exec.{ok}
use identity_api.Paging.{Codec, limit, query_limit}
use identity_api.Paging.Page.{order_by, Params, get_limit}
use identity_api.Paging.Sorting.{IsOrder, IsDistinct}
use identity_api.Paging.Walk.{follow, length-map}
use identity_api.Paging.Requests.{set_pagination_short, page_first, length-order_by}
use identity_api.Paging.Complete.{answered}

length-take : {A : Type 0} (k : ℕ) (xs : List A) → k ≤ length xs → length (take k xs) ≡ k
length-take zero xs h = refl
length-take (suc k) [] h = elim h [ ]
length-take (suc k) (x ∷ xs) h = omega (arith, length-take k xs)

limit_over : (k : ℕ) → 100 < k → limit (get_limit (some (pos k))) ≡ 100
unfolding limit get_limit
limit_over k h = ground arith

query_limit_over : (k : ℕ) → 100 < k → query_limit (get_limit (some (pos k))) ≡ k
unfolding query_limit get_limit
query_limit_over k h = ground arith

module _ {A : Type 0} {before : String → String → Bool} (o : IsOrder before) (c : Codec)
    (column : String → A → String) (field time : String) (rows : List A)
    (d : IsDistinct (column field) rows) where
  -- With a limit above 100 and at least as many rows, a client that starts without a cursor gets the
  -- first page, as long as it asked for, with no next cursor: rows behind it are never reached.
  pub follow-take :
      (k fuel : ℕ)
      → 100 < k
      → k ≤ length rows
      → follow c before column field time rows (some (pos k)) (suc fuel) none
        ≡ ok (some (take k (order_by before column (field ∷ []) rows)))
  unfolding follow
  follow-take k fuel h long =
      let at = column field in
      let sorted = order_by before column (field ∷ []) rows in
      let first = page_first o column field time rows d c (some (pos k)) in
      let here = first ∙ ap (λ (q : ℕ). take q sorted) (query_limit_over k h) in
      let count : length (map at (take k sorted)) ≡ k = omega (
        arith,
        length-map at (take k sorted),
        length-take k sorted,
        length-order_by before column field rows,
      ) in
      let other : nat_eq (length (map at (take k sorted))) 100 ≡ false = ground (arith, count) in
      let stops =
        set_pagination_short c field (record { cursor = none; limit = some (pos k) })
          (map at (take k sorted)) 100 (limit_over k h) other in
      let params : Params = record { cursor = none; limit = some (pos k) } in
      rw (answered c before column field time rows params (take k sorted) _ here stops) refl

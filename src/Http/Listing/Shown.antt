-- ===== src/Http/Listing/Shown.antt =====
-- What a page shows of its rows.
use identity_api.Common.{
  String, ◌≡◌, refl, Option, none, List, [], ◌∷◌, ◌++◌, map, ◌⊎◌, inl, inr, arith, ap₂,
}
use identity_api.Types.Errors.{Failure, db}
use identity_api.Exec.{Result, ok, err, Result-cases}
use identity_api.Exec.Pure
use identity_api.Paging.{Codec}
use identity_api.Paging.Page.{Params, Pagination, set_pagination}
use identity_api.Http.Listing.{collection}

pub map-map :
    {A B C : Type 0} (f : A → B) (g : B → C) (h : A → C) (xs : List A)
    → ((a : A) → g (f a) ≡ h a)
    → map g (map f xs) ≡ map h xs
map-map f g h [] e = refl
map-map f g h (x ∷ xs) e = ap₂ (λ y ys. y ∷ ys) (e x) (map-map f g h xs e)

-- Rows in the form that the API shows, with the pagination that their ids give.
abbrev pub shown :
    {A B : Type 0}
    → Codec
    → (String → A → String)
    → String
    → Params
    → (A → B)
    → List A
    → Result (List B × Pagination)
shown c column field params display found =
    Pure.◌>>=◌ (set_pagination c field params (map (column field) found))
      (λ pagination. ok (map display found, pagination))

-- An answer is the failure of the query, or shows what was read of the page of the rows: a beginning of
-- it, and the whole page where the reading has not broken off.
abbrev pub IsListed :
    {A B : Type 0}
    → (List A → Result (List B × Pagination))
    → List A
    → Result (List A × Option Failure)
    → Result (List B × Pagination)
    → Type 0
IsListed {A} show rows asked answer =
    ((f : Failure) × (asked ≡ err (db f)) × (answer ≡ err (db f)))
    ⊎ ((found : List A) × (rest : List A) × (left : Option Failure) × (rows ≡ found ++ rest)
        × (asked ≡ ok (found, left))
        × (answer ≡ show found)
        × (left ≡ none → rest ≡ []))

module _ {W A B : Type 0} (c : Codec) (column : String → A → String) (field : String)
    (params : Params) (display : A → B) (id : B → String)
    (same : (a : A) → id (display a) ≡ column field a) where
  -- The answer for the rows of a page is the page with its pagination.
  pub collection-shown :
      (found : List A) (w : W)
      → (collection {W = W} c field params id (map display found) w).0
        ≡ shown c column field params display found
  unfolding collection
  collection-shown found w =
      let ids = map-map display id (column field) found same in
      elim (Result-cases (set_pagination c field params (map (column field) found))) [
        | inl (pagination, r) ↦ ground (arith, ids, r)
        | inr (f, r) ↦ ground (arith, ids, r)
      ]

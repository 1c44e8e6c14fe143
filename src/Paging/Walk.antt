-- ===== src/Paging/Walk.antt =====
-- A client that follows the cursors of a listing, from the first page to the one with no next cursor.
use identity_api.Common.{
  ℕ, zero, suc, ◌+◌, ◌<◌, ℤ, String, ◌≡◌, refl, Bool, false, Option, none, some, List, [], ◌∷◌,
  ◌++◌, map, arith, take, last?, length, ◌⊎◌, inl, inr, ◌==◌, ap,
}
use identity_api.Exec.{Result, ok}
use identity_api.Exec.Pure.{◌>>=◌}
use identity_api.Paging.{Codec, Cursor, paginate}
use identity_api.Paging.Page.{page, Params, Pagination, paginator, set_pagination}

-- What the code relies on of base64 and of url.Values: what is encoded is decoded, and an encoding of
-- something is not empty.
pub record IsFaithful (c : Codec) : Type 0 where
  pub decode-encode : (s : String) → c.decode_base64 (c.encode_base64 s) ≡ ok s
  pub encode_non_empty : (s : String) → (s == "") ≡ false → (c.encode_base64 s == "") ≡ false
  pub parse-encode :
      (k v : String) → c.parse_query (c.encode_query ((k, v) ∷ [])) ≡ ok ((k, v) ∷ [])
  pub query_non_empty : (k v : String) → (c.encode_query ((k, v) ∷ []) == "") ≡ false

-- One answer of a listing of the given rows, which have their ids in the column `field`.
module _ {A : Type 0} (c : Codec) (before : String → String → Bool) (column : String → A → String)
    (field time : String) (rows : List A) where
  unfoldable pub list_page : Params → Result (List A × Pagination)
  list_page params =
      let found = page before column (paginate c (paginator field params) time) rows in
      set_pagination c field params (map (column field) found) >>= λ pagination.
      ok (found, pagination)

  -- The pages from a cursor on; `none`: more pages than the fuel allows.
  unfoldable pub follow : Option ℤ → ℕ → Option Cursor → Result (Option (List A))
  follow n zero cursor = ok none
  follow n (suc fuel) cursor = list_page (record { cursor = cursor; limit = n }) >>= λ answer.
      elim answer.1.next [
        | none ↦ ok (some answer.0)
        | some next ↦ follow n fuel (some next) >>= λ rest. elim rest [
          | none ↦ ok none
          | some more ↦ ok (some (answer.0 ++ more))
        ]
      ]

pub length-map : {A B : Type 0} (f : A → B) (xs : List A) → length (map f xs) ≡ length xs
length-map f [] = refl
length-map f (x ∷ xs) = omega (arith, length-map f xs)

pub length-append : {A : Type 0} (xs ys : List A) → length (xs ++ ys) ≡ length xs + length ys
length-append [] ys = omega arith
length-append (x ∷ xs) ys = omega (arith, length-append xs ys)

pub last?-concat :
    {A B : Type 0} (f : A → B) (xs : List A) (a : A) → last? (map f (xs ++ a ∷ [])) ≡ some (f a)
last?-concat f [] a = refl
last?-concat f (x ∷ []) a = refl
last?-concat f (x ∷ y ∷ xs) a = last?-concat f (y ∷ xs) a

-- A prefix is the whole list, or it is full and ends in a row of the list.
abbrev pub IsFull : {A : Type 0} → ℕ → List A → Type 0
IsFull {A} m xs =
    (init : List A) × (a : A) × (rest : List A) × (xs ≡ init ++ a ∷ rest)
    × (take (suc m) xs ≡ init ++ a ∷ [])
    × (length init ≡ m)

pub take_cases :
    {A : Type 0} (m : ℕ) (xs : List A)
    → ((take (suc m) xs ≡ xs) × (length xs < suc m)) ⊎ IsFull m xs
take_cases m [] = inl (refl, omega arith)
take_cases zero (x ∷ xs) = inr ([], x, xs, refl, refl, refl)
take_cases (suc m) (x ∷ xs) = elim (take_cases m xs) [
  | inl (whole, short) ↦ inl (ap (◌∷◌ x) whole, omega arith)
  | inr (init, a, rest, split, full, count) ↦
      inr (x ∷ init, a, rest, ap (◌∷◌ x) split, ap (◌∷◌ x) full, omega arith)
]

-- ===== src/Paging/Sorting.antt =====
-- Rows with different keys, in the order of their keys.
use identity_api.Common.{
  String, ◌≡◌, ◌≢◌, refl, Bool, true, false, List, [], ◌∷◌, ◌++◌, arith, keep, if◌then◌else◌, ◌⊎◌,
  inl, inr, Bool-cases, sym,
}
use identity_api.Paging.Page.{insert, order_by, precedes}

-- A strict total order of texts.
pub record IsOrder (before : String → String → Bool) : Type 0 where
  pub irrefl : (s : String) → before s s ≡ false
  pub trans : (s t u : String) → before s t ≡ true → before t u ≡ true → before s u ≡ true
  pub total : (s t : String) → s ≢ t → (before s t ≡ true) ⊎ (before t s ≡ true)

module _ {A : Type 0} (key : A → String) where
  -- The key of `a` is different from, or before, the key of every row.
  abbrev pub IsNew : A → List A → Type 0
  IsNew a [] = Unit {0}
  IsNew a (b ∷ rows) = (key a ≢ key b) × IsNew a rows

  abbrev pub IsDistinct : List A → Type 0
  IsDistinct [] = Unit {0}
  IsDistinct (a ∷ rows) = IsNew a rows × IsDistinct rows

module _ {A : Type 0} (before : String → String → Bool) (key : A → String) where
  abbrev pub IsLeast : A → List A → Type 0
  IsLeast a [] = Unit {0}
  IsLeast a (b ∷ rows) = (before (key a) (key b) ≡ true) × IsLeast a rows

  abbrev pub IsSorted : List A → Type 0
  IsSorted [] = Unit {0}
  IsSorted (a ∷ rows) = IsLeast a rows × IsSorted rows

module _ {A : Type 0} {before : String → String → Bool} (o : IsOrder before)
    (column : String → A → String) (field : String) where
  abbrev at : A → String
  at = column field

  abbrev sort_in : A → List A → List A
  sort_in = insert before column (field ∷ [])

  abbrev sort : List A → List A
  sort = order_by before column (field ∷ [])

  insert-IsNew :
      (x a : A) (rows : List A) → at x ≢ at a → IsNew at x rows → IsNew at x (sort_in a rows)
  unfolding insert
  insert-IsNew x a [] ne new = (ne, tt)
  insert-IsNew x a (b ∷ rows) ne new = elim (Bool-cases (precedes before column (field ∷ []) b a)) [
    | inl e ↦ rw e (new.0, insert-IsNew x a rows ne new.1)
    | inr e ↦ rw e (ne, new)
  ]

  insert-IsDistinct :
      (a : A) (rows : List A)
      → IsNew at a rows
      → IsDistinct at rows
      → IsDistinct at (sort_in a rows)
  unfolding insert
  insert-IsDistinct a [] new d = (tt, tt)
  insert-IsDistinct a (b ∷ rows) new d =
      elim (Bool-cases (precedes before column (field ∷ []) b a)) [
        | inl e ↦
            rw e
              (insert-IsNew b a rows (λ k. new.0 (sym k)) d.0, insert-IsDistinct a rows new.1 d.1)
        | inr e ↦ rw e (new, d)
      ]

  -- A key that is not before another one, and is not the same, is after it.
  after :
      (a b : A)
      → at a ≢ at b
      → precedes before column (field ∷ []) b a ≡ false
      → before (at a) (at b) ≡ true
  unfolding precedes
  after a b ne h = ground (arith, o.total (at a) (at b) ne, h)

  earlier : (a b : A) → precedes before column (field ∷ []) b a ≡ true → before (at b) (at a) ≡ true
  unfolding precedes
  earlier a b h = ground (arith, h)

  IsLeast-trans :
      (a b : A) (rows : List A)
      → before (at a) (at b) ≡ true
      → IsLeast before at b rows
      → IsLeast before at a rows
  IsLeast-trans a b [] h l = tt
  IsLeast-trans a b (x ∷ rows) h l =
      (o.trans (at a) (at b) (at x) h l.0, IsLeast-trans a b rows h l.1)

  insert-IsLeast :
      (x a : A) (rows : List A)
      → before (at x) (at a) ≡ true
      → IsLeast before at x rows
      → IsLeast before at x (sort_in a rows)
  unfolding insert
  insert-IsLeast x a [] h l = (h, tt)
  insert-IsLeast x a (b ∷ rows) h l = elim (Bool-cases (precedes before column (field ∷ []) b a)) [
    | inl e ↦ rw e (l.0, insert-IsLeast x a rows h l.1)
    | inr e ↦ rw e (h, l)
  ]

  insert-IsSorted :
      (a : A) (rows : List A)
      → IsNew at a rows
      → IsSorted before at rows
      → IsSorted before at (sort_in a rows)
  unfolding insert
  insert-IsSorted a [] new s = (tt, tt)
  insert-IsSorted a (b ∷ rows) new s = elim (Bool-cases (precedes before column (field ∷ []) b a)) [
    | inl e ↦ rw e (insert-IsLeast b a rows (earlier a b e) s.0, insert-IsSorted a rows new.1 s.1)
    | inr e ↦ let first = after a b new.0 e in rw e ((first, IsLeast-trans a b rows first s.0), s)
  ]

  order_by-IsNew :
      (x : A) (rows : List A) → IsNew at x rows → IsDistinct at rows → IsNew at x (sort rows)
  unfolding order_by
  order_by-IsNew x [] n d = tt
  order_by-IsNew x (a ∷ rows) n d = insert-IsNew x a (sort rows) n.0 (order_by-IsNew x rows n.1 d.1)

  -- Rows with different keys come out in the order of their keys.
  pub order_by-IsSorted : (rows : List A) → IsDistinct at rows → IsSorted before at (sort rows)
  unfolding order_by
  order_by-IsSorted [] d = tt
  order_by-IsSorted (a ∷ rows) d =
      insert-IsSorted a (sort rows) (order_by-IsNew a rows d.0 d.1) (order_by-IsSorted rows d.1)

  insert-IsLeast_eq : (a : A) (rows : List A) → IsLeast before at a rows → sort_in a rows ≡ a ∷ rows
  unfolding insert precedes
  insert-IsLeast_eq a [] l = refl
  insert-IsLeast_eq a (b ∷ rows) l =
      ground (arith, l.0, o.trans (at a) (at b) (at a), o.irrefl (at a))

  keep-IsLeast :
      (q : A → Bool) (a : A) (rows : List A)
      → IsLeast before at a rows
      → IsLeast before at a (keep q rows)
  unfolding keep
  keep-IsLeast q a [] l = tt
  keep-IsLeast q a (b ∷ rows) l = elim (Bool-cases (q b)) [
    | inl e ↦ rw e (l.0, keep-IsLeast q a rows l.1)
    | inr e ↦ rw e (keep-IsLeast q a rows l.1)
  ]

  keep-insert :
      (q : A → Bool) (a : A) (rows : List A)
      → IsNew at a rows
      → IsSorted before at rows
      → keep q (sort_in a rows) ≡ (if q a then sort_in a (keep q rows) else keep q rows)
  unfolding insert keep
  keep-insert q a [] new s = ground arith
  keep-insert q a (b ∷ rows) new s = elim (Bool-cases (precedes before column (field ∷ []) b a)) [
    | inl e ↦ ground (arith, e, keep-insert q a rows new.1 s.1)
    | inr e ↦
        let first = after a b new.0 e in
        let least : IsLeast before at a (b ∷ rows) = (first, IsLeast-trans a b rows first s.0) in
        let kept = keep-IsLeast q a (b ∷ rows) least in
        ground (arith, e, insert-IsLeast_eq a (keep q (b ∷ rows)) kept)
  ]

  -- Selecting and sorting rows with different keys can be exchanged.
  pub order_by-keep :
      (q : A → Bool) (rows : List A) → IsDistinct at rows → sort (keep q rows) ≡ keep q (sort rows)
  unfolding order_by keep
  order_by-keep q [] d = refl
  order_by-keep q (a ∷ rows) d =
      let new = order_by-IsNew a rows d.0 d.1 in
      ground (
        arith,
        order_by-keep q rows d.1,
        keep-insert q a (sort rows) new (order_by-IsSorted rows d.1),
      )

  keep-all :
      (a : A) (rows : List A)
      → IsLeast before at a rows
      → keep (λ r. before (at a) (at r)) rows ≡ rows
  unfolding keep
  keep-all a [] l = refl
  keep-all a (b ∷ rows) l = ground (arith, l.0, keep-all a rows l.1)

  IsLeast-middle :
      (x : A) (front : List A) (a : A) (rest : List A)
      → IsLeast before at x (front ++ a ∷ rest)
      → before (at x) (at a) ≡ true
  IsLeast-middle x [] a rest l = l.0
  IsLeast-middle x (y ∷ front) a rest l = IsLeast-middle x front a rest l.1

  -- What a sorted list has past the key of one of its rows is what stands behind that row.
  pub keep-past :
      (front : List A) (a : A) (rest : List A)
      → IsSorted before at (front ++ a ∷ rest)
      → keep (λ r. before (at a) (at r)) (front ++ a ∷ rest) ≡ rest
  unfolding keep
  keep-past [] a rest s = ground (arith, o.irrefl (at a), keep-all a rest s.0)
  keep-past (x ∷ front) a rest s =
      let x_first = IsLeast-middle x front a rest s.0 in
      ground
        (arith, keep-past front a rest s.1, x_first, o.irrefl (at a), o.trans (at a) (at x) (at a))

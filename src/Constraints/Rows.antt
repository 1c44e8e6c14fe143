-- ===== src/Constraints/Rows.antt =====
-- Rows of a table of which no two break a constraint together.
use identity_api.Common.{
  ◌≡◌, refl, sym, ap, ◌∙◌, subst, Bool, true, false, not, ◌⊎◌, inl, inr, List, [], ◌∷◌, ◌++◌, map,
  arith, any, keep, any-append, Bool-cases,
}

module _ {A : Type 0} where
  abbrev pub In : A → List A → Type 0
  In a [] = ⊥
  In a (x ∷ xs) = (x ≡ a) ⊎ In a xs

  pub any-false_at :
      (p : A → Bool) (xs : List A) → any p xs ≡ false → (a : A) → In a xs → p a ≡ false
  unfolding any
  any-false_at p [] h a i = absurd i
  any-false_at p (x ∷ xs) h a (inl e) = ground (arith, h, e)
  any-false_at p (x ∷ xs) h a (inr i) = any-false_at p xs (ground (arith, h)) a i

  pub any-false :
      (p : A → Bool) (xs : List A) → ((a : A) → In a xs → p a ≡ false) → any p xs ≡ false
  unfolding any
  any-false p [] h = refl
  any-false p (x ∷ xs) h = ground (arith, h x (inl refl), any-false p xs (λ a i. h a (inr i)))

  pub any-true : (p : A → Bool) (xs : List A) (a : A) → In a xs → p a ≡ true → any p xs ≡ true
  unfolding any
  any-true p [] a i h = absurd i
  any-true p (x ∷ xs) a (inl e) h = ground (arith, h, e)
  any-true p (x ∷ xs) a (inr i) h = ground (arith, any-true p xs a i h)

  pub any_witness :
      (p : A → Bool) (xs : List A) → any p xs ≡ true → (a : A) × In a xs × (p a ≡ true)
  unfolding any
  any_witness p [] h = ground arith
  any_witness p (x ∷ xs) h = elim (Bool-cases (p x)) [
    | inl e ↦ (x, inl refl, e)
    | inr e ↦ let (a, i, k) = any_witness p xs (ground (arith, e, h)) in (a, inr i, k)
  ]

  keep-true : (p : A → Bool) (x : A) (xs : List A) → p x ≡ true → keep p (x ∷ xs) ≡ x ∷ keep p xs
  unfolding keep
  keep-true p x xs h = ground (arith, h)

  keep-false : (p : A → Bool) (x : A) (xs : List A) → p x ≡ false → keep p (x ∷ xs) ≡ keep p xs
  unfolding keep
  keep-false p x xs h = ground (arith, h)

  pub In-keep : (p : A → Bool) (xs : List A) (a : A) → In a (keep p xs) → In a xs × (p a ≡ true)
  unfolding keep
  In-keep p [] a i = absurd i
  In-keep p (x ∷ xs) a i = elim (Bool-cases (p x)) [
    | inl e ↦
        let j : In a (x ∷ keep p xs) = subst (λ (ys : List A). In a ys) (keep-true p x xs e) i in
        elim j [
          | inl q ↦ (inl q, ap p (sym q) ∙ e)
          | inr k ↦ let (m, h) = In-keep p xs a k in (inr m, h)
        ]
    | inr e ↦
        let (k, h) = In-keep p xs a (subst (λ (ys : List A). In a ys) (keep-false p x xs e) i) in
        (inr k, h)
  ]

  pub keep-In : (p : A → Bool) (xs : List A) (a : A) → In a xs → p a ≡ true → In a (keep p xs)
  keep-In p [] a i h = absurd i
  keep-In p (x ∷ xs) a i h = elim (Bool-cases (p x)) [
    | inl e ↦ rw (keep-true p x xs e) (elim i [ inl q ↦ inl q | inr k ↦ inr (keep-In p xs a k h) ])
    | inr e ↦
        rw (keep-false p x xs e)
          (elim i [ inl q ↦ ground (arith, e, h, q) | inr k ↦ keep-In p xs a k h ])
  ]

  pub In-append : (xs ys : List A) (a : A) → In a (xs ++ ys) → In a xs ⊎ In a ys
  In-append [] ys a i = inr i
  In-append (x ∷ xs) ys a (inl e) = inl (inl e)
  In-append (x ∷ xs) ys a (inr i) = elim (In-append xs ys a i) [
    | inl k ↦ inl (inr k)
    | inr k ↦ inr k
  ]

  pub In-map : (f : A → A) (xs : List A) (b : A) → In b (map f xs) → (a : A) × In a xs × (f a ≡ b)
  In-map f [] b i = absurd i
  In-map f (x ∷ xs) b (inl e) = (x, inl refl, e)
  In-map f (x ∷ xs) b (inr i) = let (a, k, e) = In-map f xs b i in (a, inr k, e)

  pub any-map :
      (p : A → Bool) (f : A → A) (xs : List A)
      → ((a : A) → p (f a) ≡ p a)
      → any p (map f xs) ≡ any p xs
  unfolding any
  any-map p f [] h = refl
  any-map p f (x ∷ xs) h = ground (arith, h x, any-map p f xs h)

  -- No row breaks the constraint with a later one.
  abbrev pub Apart : (A → A → Bool) → List A → Type 0
  Apart r [] = Unit {0}
  Apart r (x ∷ xs) = (any (r x) xs ≡ false) × Apart r xs

  pub keep-Apart :
      (r : A → A → Bool) (p : A → Bool) (xs : List A) → Apart r xs → Apart r (keep p xs)
  unfolding keep
  keep-Apart r p [] h = tt
  keep-Apart r p (x ∷ xs) h = elim (Bool-cases (p x)) [
    | inl e ↦ rw (keep-true p x xs e) (
      any-false (r x) (keep p xs) (λ a i. any-false_at (r x) xs h.0 a (In-keep p xs a i).0),
      keep-Apart r p xs h.1,
    )
    | inr e ↦ rw (keep-false p x xs e) (keep-Apart r p xs h.1)
  ]

  pub append-Apart :
      (r : A → A → Bool) (xs : List A) (y : A)
      → ((a b : A) → r a b ≡ r b a)
      → any (r y) xs ≡ false
      → Apart r xs
      → Apart r (xs ++ y ∷ [])
  unfolding any
  append-Apart r [] y s n h = (refl, tt)
  append-Apart r (x ∷ xs) y s n h = (
    any-append (r x) xs (y ∷ []) ∙ ground (arith, s x y, n, h.0),
    append-Apart r xs y s (ground (arith, n)) h.1,
  )

  pub map-Apart :
      (r : A → A → Bool) (f : A → A) (xs : List A)
      → ((a b : A) → In a xs → In b xs → r a b ≡ false → r (f a) (f b) ≡ false)
      → Apart r xs
      → Apart r (map f xs)
  map-Apart r f [] k h = tt
  map-Apart r f (x ∷ xs) k h = (
    any-false (r (f x)) (map f xs) λ b i.
        let (a, j, e) = In-map f xs b i in
        subst (λ (z : A). r (f x) z ≡ false) e
          (k x a (inl refl) (inr j) (any-false_at (r x) xs h.0 a j)),
    map-Apart r f xs (λ a b i j. k a b (inr i) (inr j)) h.1,
  )

-- Every row of one table refers to a row of the other.
module _ {A B : Type 0} (refers : A → B → Bool) where
  unfoldable pub dangles : List B → A → Bool
  dangles bs a = not (any (refers a) bs)

  abbrev pub Refers : List A → List B → Type 0
  Refers rows bs = any (dangles bs) rows ≡ false

  pub linked_at :
      (rows : List A) (bs : List B)
      → Refers rows bs
      → (a : A) → In a rows
      → any (refers a) bs ≡ true
  unfolding dangles
  linked_at rows bs h a i = ground (arith, any-false_at (dangles bs) rows h a i)

  pub linked_intro :
      (rows : List A) (bs : List B)
      → ((a : A) → In a rows → any (refers a) bs ≡ true)
      → Refers rows bs
  unfolding dangles
  linked_intro rows bs h = any-false (dangles bs) rows (λ a i. ground (arith, h a i))

  -- Rows that refer to the old table refer to the new one.
  pub linked_shift :
      (rows : List A) (bs cs : List B)
      → ((a : A) → In a rows → any (refers a) bs ≡ true → any (refers a) cs ≡ true)
      → Refers rows bs
      → Refers rows cs
  linked_shift rows bs cs k h = linked_intro rows cs (λ a i. k a i (linked_at rows bs h a i))

  -- Rows that are deleted are not referred to.
  pub linked_delete :
      (rows : List A) (bs : List B) (p : B → Bool)
      → ((a : A) (b : B) → In a rows → refers a b ≡ true → p b ≡ true)
      → Refers rows bs
      → Refers rows (keep p bs)
  linked_delete rows bs p k = linked_shift rows bs (keep p bs) λ a i h.
      let (b, j, q) = any_witness (refers a) bs h in
      any-true (refers a) (keep p bs) b (keep-In p bs b j (k a b i q)) q

  pub linked_grow : (rows : List A) (bs cs : List B) → Refers rows bs → Refers rows (bs ++ cs)
  linked_grow rows bs cs =
      linked_shift rows bs (bs ++ cs) (λ a i h. any-append (refers a) bs cs ∙ ground (arith, h))

  pub linked_keep :
      (rows : List A) (bs : List B) (p : A → Bool) → Refers rows bs → Refers (keep p rows) bs
  linked_keep rows bs p h =
      any-false (dangles bs) (keep p rows)
        (λ a i. any-false_at (dangles bs) rows h a (In-keep p rows a i).0)

  pub linked_append :
      (rows : List A) (bs : List B) (a : A)
      → any (refers a) bs ≡ true
      → Refers rows bs
      → Refers (rows ++ a ∷ []) bs
  unfolding any dangles
  linked_append rows bs a h k = any-append (dangles bs) rows (a ∷ []) ∙ ground (arith, h, k)

-- ===== src/Paging/Quoting.antt =====
-- A quoted text is read by SQL as the text, and the reading stops at its end: nothing is injected.
use Prim.Native.Char.{Char, code}
use Prim.Native.String.{String, [], ◌∷◌, ◌++◌}
use text.Mathlib.TextLemmas.{append_assoc, cons-append, nil-append}
use identity_api.Common.{
  ℕ, ◌≡◌, refl, Bool, true, false, Option, none, some, arith, nat_eq, if◌then◌else◌, Bool-cases,
  inl, inr,
}
use identity_api.Paging.Clauses.{doubled, quote_value}

-- One more character before a text that was read.
abbrev pub before_read : Char → Option (String × String) → Option (String × String)
before_read c none = none
before_read c (some (value, rest)) = some (c ∷ value, rest)

-- How SQL reads a quoted text behind its opening mark: two marks stand for one, a single mark ends it.
unfoldable pub read_quoted : ℕ → String → Option (String × String)
read_quoted q [] = none
read_quoted q (c ∷ []) = if nat_eq (code c) q then some ("", "") else none
read_quoted q (c ∷ d ∷ s) =
    let pair = before_read c (read_quoted q s) in
    let next = before_read c (read_quoted q (d ∷ s)) in
    if nat_eq (code c) q then (if nat_eq (code d) q then pair else some ("", d ∷ s)) else next

-- What follows does not begin with a mark.
abbrev pub is_end : ℕ → String → Bool
is_end q [] = true
is_end q (c ∷ s) = if nat_eq (code c) q then false else true

read_quoted-mark :
    (q : ℕ) (m : Char) (rest : String)
    → nat_eq (code m) q ≡ true
    → is_end q rest ≡ true
    → read_quoted q (m ∷ rest) ≡ some ("", rest)
unfolding read_quoted
read_quoted-mark q m [] h e = ground (arith, h)
read_quoted-mark q m (c ∷ s) h e = ground (arith, h, e)

read_quoted-other :
    (q : ℕ) (c : Char) (s value rest : String)
    → nat_eq (code c) q ≡ false
    → read_quoted q s ≡ some (value, rest)
    → read_quoted q (c ∷ s) ≡ some (c ∷ value, rest)
unfolding read_quoted
read_quoted-other q c [] value rest h e = ground (arith, e)
read_quoted-other q c (d ∷ s) value rest h e = ground (arith, h, e)

read_quoted-pair :
    (q : ℕ) (c : Char) (s value rest : String)
    → nat_eq (code c) q ≡ true
    → read_quoted q s ≡ some (value, rest)
    → read_quoted q (c ∷ c ∷ s) ≡ some (c ∷ value, rest)
unfolding read_quoted
read_quoted-pair q c s value rest h e = ground (arith, h, e)

-- A text with its marks doubled, before a mark and a text that does not begin with one, is read as
-- the text, and what follows is left.
pub read_quoted-doubled :
    (q : ℕ) (m : Char) (v rest : String)
    → nat_eq (code m) q ≡ true
    → is_end q rest ≡ true
    → read_quoted q (doubled q v ++ (m ∷ rest)) ≡ some (v, rest)
unfolding doubled
read_quoted-doubled q m [] rest h e = rw (nil-append (m ∷ rest)) (read_quoted-mark q m rest h e)
read_quoted-doubled q m (c ∷ v) rest h e =
    let ih = read_quoted-doubled q m v rest h e in
    elim (Bool-cases (nat_eq (code c) q)) [
      | inl t ↦
          rw (t, cons-append, cons-append)
            (read_quoted-pair q c (doubled q v ++ (m ∷ rest)) v rest t ih)
      | inr f ↦ rw (f, cons-append) (read_quoted-other q c (doubled q v ++ (m ∷ rest)) v rest f ih)
    ]

-- The literal that `quoteValue` writes, before any text that does not begin with a quotation mark: it
-- opens with a mark, SQL reads behind it exactly the value, and what is left is the text that follows.
pub quote_value-read_quoted :
    (v rest : String)
    → is_end b'\'' rest ≡ true
    → (body : String) × (quote_value v ++ rest ≡ "'" ++ body)
      × (read_quoted b'\'' body ≡ some (v, rest))
unfolding quote_value
quote_value-read_quoted v rest e = (
  doubled b'\'' v ++ ("'" ++ rest),
  simp append_assoc,
  rw (cons-append, nil-append) (read_quoted-doubled b'\'' "'" v rest refl e),
)

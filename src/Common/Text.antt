-- ===== src/Common/Text.antt =====
-- strings.Join and strings.Fields of Go's standard library.
use Prim.Native.Char.{code}
use Prim.Native.Nat.{ℕ}
use Prim.Native.String.{String, ◌++◌}
use text.Mathlib.Text.{◌==◌}
use text.Mathlib.TextLemmas.{cons-append, nil-append, append-nil}
use mathlib.Core.Path.{◌≡◌, refl, ap, sym, ◌∙◌}
use mathlib.Core.Bool.{Bool, false, ◌&&◌, ◌||◌}
use mathlib.Core.List.{List, [], ◌∷◌}
use native.Mathlib.Omega.{arith}
use identity_api.Common.Tests.{if◌then◌else◌, nat_eq, leb}

unfoldable pub join : String → List String → String
join sep [] = ""
join sep (s ∷ []) = s
join sep (s ∷ t ∷ rest) = s ++ (sep ++ join sep (t ∷ rest))

-- unicode.IsSpace
unfoldable pub is_space : ℕ → Bool
is_space c =
    (leb 9 c && leb c 13)
    || nat_eq c 32
    || nat_eq c 0x85
    || nat_eq c 0xa0
    || nat_eq c 0x1680
    || (leb 0x2000 c && leb c 0x200a)
    || nat_eq c 0x2028
    || nat_eq c 0x2029
    || nat_eq c 0x202f
    || nat_eq c 0x205f
    || nat_eq c 0x3000

-- A word before the words that follow it, unless it is empty.
unfoldable pub with_word : String × List String → List String
with_word (word, words) = if word == "" then words else word ∷ words

-- The word that a text begins with, which may be empty, and the words behind it.
unfoldable pub split_word : String → String × List String
unfolding is_space with_word
split_word String.[] = ("", [])
split_word (String.◌∷◌ c s) =
    let rest = split_word s in
    if is_space (code c) then ("", with_word rest) else (String.◌∷◌ c rest.0, rest.1)

unfoldable pub fields : String → List String
unfolding split_word with_word
fields s = with_word (split_word s)

abbrev pub HasNoSpace : String → Type 0
HasNoSpace String.[] = Unit {0}
HasNoSpace (String.◌∷◌ c s) = (is_space (code c) ≡ false) × HasNoSpace s

abbrev pub AreWords : List String → Type 0
AreWords [] = Unit {0}
AreWords (w ∷ ws) = ((w == "") ≡ false) × HasNoSpace w × AreWords ws

split_word-append :
    (w s : String) → HasNoSpace w → split_word (w ++ s) ≡ (w ++ (split_word s).0, (split_word s).1)
unfolding split_word
split_word-append String.[] s h = rw (nil-append s, nil-append (split_word s).0) refl
split_word-append (String.◌∷◌ c w) s h =
    rw (cons-append c w s, cons-append c w (split_word s).0, h.0, split_word-append w s h.1) refl

split_word-word : (w : String) → HasNoSpace w → split_word w ≡ (w, [])
unfolding split_word
split_word-word w h =
    ap split_word (sym (append-nil w)) ∙ split_word-append w "" h ∙ rw (append-nil w) refl

split_word-space : (s : String) → split_word (" " ++ s) ≡ ("", fields s)
unfolding split_word fields
split_word-space s = rw (cons-append, nil-append) refl

-- Words joined by spaces are found again.
pub fields-join : (ws : List String) → AreWords ws → fields (join " " ws) ≡ ws
unfolding fields join with_word
fields-join [] h = unfold split_word in refl
fields-join (w ∷ []) h = ground (arith, split_word-word w h.1, h.0)
fields-join (w ∷ v ∷ ws) h =
    let tail = join " " (v ∷ ws) in
    ground (
      arith,
      split_word-append w (" " ++ tail) h.1,
      split_word-space tail,
      append-nil w,
      fields-join (v ∷ ws) h.2,
      h.0,
    )

-- ===== src/Sandbox/Cursors.antt =====
-- Cursors as text for the sandbox: the key and the value of one pair, quoted.
use Prim.Native.Char.{Char}
use Prim.Native.String.{◌++◌}
use identity_api.Common.{
  String, ◌≡◌, refl, Option, none, some, [], ◌∷◌, arith, false, ◌==◌, eq_cases, inl, inr,
}
use identity_api.Types.Errors.{external}
use identity_api.Exec.{Result, ok, err}
use identity_api.Paging.{Codec, Values}
use identity_api.Paging.Clauses.{doubled}
use identity_api.Paging.Quoting.{read_quoted, read_quoted-doubled}
use identity_api.Paging.Walk.{IsFaithful}

abbrev quoted : String → String → String
quoted v rest = doubled b'\'' v ++ String.◌∷◌ "'" rest

unfoldable pub encode_pair : Values → String
encode_pair [] = ""
encode_pair ((k, v) ∷ values) = String.◌∷◌ "'" (quoted k (String.◌∷◌ "=" (quoted v "")))

-- The value behind a key, and a separator.
unfoldable pub read_value : Option (String × String) → Result Values
read_value none = err (external 3)
read_value (some (k, String.[])) = err (external 3)
read_value (some (k, String.◌∷◌ c text)) = elim (read_quoted b'\'' text) [
  | none ↦ err (external 3)
  | some (v, rest) ↦ ok ((k, v) ∷ [])
]

unfoldable pub decode_pair : String → Result Values
unfolding read_value
decode_pair String.[] = ok []
decode_pair (String.◌∷◌ c text) = read_value (read_quoted b'\'' text)

abbrev pub cursors : Codec
cursors = record {
  encode_base64 = λ s. s;
  decode_base64 = λ s. ok s;
  encode_query = encode_pair;
  parse_query = decode_pair;
}

decode-encode : (k v : String) → decode_pair (encode_pair ((k, v) ∷ [])) ≡ ok ((k, v) ∷ [])
unfolding encode_pair decode_pair read_value
decode-encode k v =
    let value = read_quoted-doubled b'\'' "'" v "" refl refl in
    let key = read_quoted-doubled b'\'' "'" k (String.◌∷◌ "=" (quoted v "")) refl refl in
    ground (arith, key, value)

cons_not_empty : (c : Char) (s : String) → (String.◌∷◌ c s == "") ≡ false
cons_not_empty c s = elim (eq_cases (String.◌∷◌ c s) "") [ inl (e, _) ↦ cc | inr (_, h) ↦ h ]

pub cursors-IsFaithful : IsFaithful cursors
unfolding encode_pair
cursors-IsFaithful = record {
  decode-encode = λ s. refl;
  encode_non_empty = λ s h. h;
  parse-encode = decode-encode;
  query_non_empty = λ k v. cons_not_empty _ _;
}

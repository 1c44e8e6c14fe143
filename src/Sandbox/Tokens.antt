-- ===== src/Sandbox/Tokens.antt =====
-- A token library that can be run: one token, and its issuer's key. Expressions are texts.
use identity_api.Common.{
  String, ◌≡◌, refl, true, not, ◌&&◌, Option, none, some, List, [], ◌∷◌, ◌==◌, keep, arith,
  if◌then◌else◌, eq_iff, Bool-cases, inl, inr, subst,
}
use identity_api.Types.Users.{Claims, ClaimValue, claim}
use identity_api.Types.Issuers.{Cel, RoundTrips}
use identity_api.Types.Errors.{invalid_cel, external}
use identity_api.Exec.{Result, ok, err}
use identity_api.Sandbox.{sandbox, World}
use identity_api.Exchange.Mapping.{
  JwtClaims, Jwt, Token, Jwk, Key, found, no_key, Parsed, accepted, rejected, failed,
}
use identity_api.Exchange.Steps.{IsStandard}
use identity_api.Invariant.Exchanges.{IsOutside}

-- Mappings of at most the override are written.
abbrev encode : List (String × String) → Result String
encode [] = ok ""
encode ((k, v) ∷ []) =
    if k == "identity-api.infratographer.com/sub" && not (v == "") then ok v else err (external 2)
encode (x ∷ y ∷ m) = err (external 2)

abbrev pub expressions : Cel
expressions = record {
  Ast = String;
  parse = λ s. if s == "" then err invalid_cel else ok s;
  is_bool = λ s. true;
  print = λ s. ok s;
  marshal = λ s. if s == "" then err invalid_cel else ok s;
  unmarshal = λ s. ok s;
  encode = encode;
  decode = λ s. if s == "" then ok [] else ok (("identity-api.infratographer.com/sub", s) ∷ []);
  eval = λ ast claims digest.
      ok (if ast == "true" then ClaimValue.truth true else ClaimValue.text ast);
}

decode-encode :
    (m : List (String × String)) (s : String) → encode m ≡ ok s → expressions.decode s ≡ ok m
decode-encode [] s h = ground (arith, eq_iff s "")
decode-encode ((k, v) ∷ []) s h = ground (arith, eq_iff k "identity-api.infratographer.com/sub")
decode-encode (x ∷ y ∷ m) s h = ground arith

pub expressions-RoundTrips : RoundTrips expressions
expressions-RoundTrips = record {
  unmarshal-marshal = λ a s h. ground arith;
  marshal_non_empty = λ a s h. ground arith;
  decode-encode = decode-encode;
}

unfoldable pub other_claims : Claims → Claims
other_claims = keep (λ kv. not (kv.0 == "iss") && not (kv.0 == "sub"))

abbrev entry : String → String → Claims → Claims
entry key s rest = if s == "" then rest else (key, ClaimValue.text s) ∷ rest

abbrev to_map : JwtClaims → Claims
to_map c = entry "iss" c.issuer (entry "sub" c.subject (other_claims c.extra))

abbrev text_of : Option ClaimValue → String
text_of (some (ClaimValue.text s)) = s
text_of _ = ""

abbrev pub ann_token : Token
ann_token = record {
  claims = record { subject = "ann"; issuer = "https://idp"; extra = [] };
  kid = some "k1";
}

abbrev verify : Key → Parsed
verify (found key) = if key.key_id == "k1" then accepted ann_token else failed
verify (no_key e) = rejected e

abbrev pub tokens : Jwt sandbox
tokens = record {
  parse = λ text keyfunc w.
      if text == "ann-token" then (verify (keyfunc ann_token w).0, w) else (failed, w);
  verifies = λ text key. text == "ann-token" && key.key_id == "k1";
  resolve = λ uri w. (ok (record { key_id = "k1"; use_of = "sig" } ∷ []), w);
  to_map = to_map;
  from_map = λ m. record {
    subject = text_of (claim "sub" m);
    issuer = text_of (claim "iss" m);
    extra = m;
  };
  hex_digest = λ s. s;
  join_path = λ base path. ok base;
  access_token_issuer = "https://id";
  signing_kid = "s1";
  expiry = λ w. (60, w);
}

other_claims-iss : (m : Claims) → claim "iss" (other_claims m) ≡ none
unfolding other_claims claim keep
other_claims-iss [] = refl
other_claims-iss ((k, v) ∷ m) = ground (arith, other_claims-iss m, eq_iff k "iss")

other_claims-sub : (m : Claims) → claim "sub" (other_claims m) ≡ none
unfolding other_claims claim keep
other_claims-sub [] = refl
other_claims-sub ((k, v) ∷ m) = ground (arith, other_claims-sub m, eq_iff k "sub")

verified :
    (k : Key) (t : Token)
    → verify k ≡ accepted t
    → (ann_token ≡ t) × ((key : Jwk) × (k ≡ found key) × ((key.key_id == "k1") ≡ true))
verified (found key) t h = (ground (arith, h), (key, refl, ground (arith, h)))
verified (no_key e) t h = ground arith

parse_law :
    (text : String) (keyfunc : Token → World → Key × World) (w : World) (t : Token)
    → (tokens.parse text keyfunc w).0 ≡ accepted t
    → (key : Jwk) × (w2 : World) × (w2.view ≡ w.view)
      × ((keyfunc t w2).0 ≡ found key)
      × (tokens.verifies text key ≡ true)
parse_law text keyfunc w t h = elim (Bool-cases (text == "ann-token")) [
  | inl e ↦
      let (same, (key, k, id)) = verified (keyfunc ann_token w).0 t (ground (arith, h, e)) in
      (
        key,
        w,
        refl,
        subst (λ (x : Token). (keyfunc x w).0 ≡ found key) same k,
        ground (arith, e, id),
      )
  | inr e ↦ ground (arith, h, e)
]

pub tokens-IsStandard : IsStandard sandbox tokens
unfolding claim
tokens-IsStandard = record {
  to_map_iss = λ c h. ground (arith, h);
  to_map_iss_empty = λ c h. ground (arith, h, other_claims-iss c.extra);
  to_map_sub = λ c h. ground (arith, h);
  to_map_sub_empty = λ c h. ground (arith, h, other_claims-sub c.extra);
  expiry_view = λ w. refl;
  parse_law = λ text keyfunc w t h. parse_law text keyfunc w t h;
}

pub tokens-IsOutside : IsOutside sandbox tokens
tokens-IsOutside = record {
  parse_by_keys = λ R pre text keyfunc h w. elim (Bool-cases (text == "ann-token")) [
    | inl e ↦ rw e (pre.stays w)
    | inr e ↦ rw e (pre.stays w)
  ];
  resolve_view = λ uri w. refl;
  expiry_view = λ w. refl;
}

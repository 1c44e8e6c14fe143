-- ===== src/Types/Issuers.antt =====
-- Issuer, ClaimsMapping and ClaimConditions of internal/types/types.go, over the CEL library.
pub mod RoundTrip
use identity_api.Common.{
  String, ◌≡◌, Bool, true, false, not, ◌==◌, Option, none, some, List, [], ◌∷◌, if◌then◌else◌,
}
use identity_api.Types.{PrefixedId}
use identity_api.Types.Errors.{Error, invalid_cel}
use identity_api.Types.Users.{Claims, ClaimValue}
use identity_api.Exec.{Result, ok, err}
use identity_api.Exec.Pure.{◌>>=◌, ◌>>◌, fail_if}

-- The parts of cel-go, prototext and encoding/json that the code calls.
pub record Cel : Type 1 where
  pub Ast : Type 0
  -- celEnv.Compile; the error is ErrorCELParse
  pub parse : String → Result Ast
  pub is_bool : Ast → Bool
  -- cel.AstToString
  pub print : Ast → Result String
  -- cel.AstToCheckedExpr and prototext.Marshal; prototext.Unmarshal and cel.CheckedExprToAst
  pub marshal : Ast → Result String
  pub unmarshal : String → Result Ast
  -- json.Marshal and json.Unmarshal at map[string][]byte
  pub encode : List (String × String) → Result String
  pub decode : String → Result (List (String × String))
  -- celEnv.Program and prog.Eval, with the variables `claims` and `subSHA256`
  pub eval : Ast → Claims → Option String → Result ClaimValue

-- What is written can be read back. An expression never has the empty text as its form.
pub record RoundTrips (c : Cel) : Type 0 where
  pub unmarshal-marshal : (a : c.Ast) (s : String) → c.marshal a ≡ ok s → c.unmarshal s ≡ ok a
  pub marshal_non_empty : (a : c.Ast) (s : String) → c.marshal a ≡ ok s → (s == "") ≡ false
  pub decode-encode :
      (m : List (String × String)) (s : String) → c.encode m ≡ ok s → c.decode s ≡ ok m

module _ (c : Cel) where
  -- The entries of a ClaimsMapping.
  abbrev pub Entries : Type 0
  Entries = List (String × c.Ast)

  -- NewClaimsMapping, Repr, MarshalJSON and UnmarshalJSON: a loop over the entries of a map that
  -- stops at the first error
  unfoldable pub each :
      {A B : Type 0} → (A → Result B) → List (String × A) → Result (List (String × B))
  each f [] = ok []
  each f ((k, a) ∷ entries) = do b ← f a; rest ← each f entries; ok ((k, b) ∷ rest)

  unfoldable pub new_claims_mapping : List (String × String) → Result Entries
  unfolding each
  new_claims_mapping = each c.parse

  unfoldable pub repr : Entries → Result (List (String × String))
  unfolding each
  repr = each c.print

  unfoldable pub marshal_mapping : Entries → Result String
  marshal_mapping entries = do out ← each c.marshal entries; c.encode out

  unfoldable pub unmarshal_mapping : String → Result Entries
  unmarshal_mapping text = do entries ← c.decode text; each c.unmarshal entries

  -- A ClaimConditions is an expression or nil; an empty text gives nil.
  abbrev pub Conditions : Type 0
  Conditions = Option c.Ast

  unfoldable pub new_claim_conditions : String → Result Conditions
  new_claim_conditions expr =
      if expr == ""
      then ok none
      else (do ast ← c.parse expr; fail_if (not (c.is_bool ast)) invalid_cel; ok (some ast))

  unfoldable pub marshal_conditions : Conditions → Result String
  marshal_conditions none = ok ""
  marshal_conditions (some ast) = c.marshal ast

  unfoldable pub unmarshal_conditions : String → Result Conditions
  unmarshal_conditions text =
      if text == "" then ok none else (do ast ← c.unmarshal text; ok (some ast))

  -- `none` in the two last fields is a nil map and a nil pointer.
  pub record Issuer : Type 0 where
    pub owner_id : PrefixedId
    pub id : PrefixedId
    pub name : String
    pub uri : String
    pub jwksuri : String
    pub claim_mappings : Option Entries
    pub claim_conditions : Option Conditions

  pub record IssuerUpdate : Type 0 where
    pub name : Option String
    pub uri : Option String
    pub jwksuri : Option String
    pub claim_mappings : Option Entries
    pub claim_conditions : Option Conditions

-- v1.Issuer of pkg/api/v1.
pub record V1Issuer : Type 0 where
  pub id : PrefixedId
  pub name : String
  pub uri : String
  pub jwksuri : String
  pub claim_mappings : List (String × String)
  pub claim_conditions : String

module _ (c : Cel) where
  abbrev pub entries_of : Option (Entries c) → Entries c
  entries_of none = []
  entries_of (some entries) = entries

  unfoldable pub conditions_text : Option (Conditions c) → Result String
  conditions_text none = ok ""
  conditions_text (some none) = ok ""
  conditions_text (some (some ast)) = c.print ast

  unfoldable pub to_v1_issuer : Issuer c → Result V1Issuer
  unfolding repr conditions_text
  to_v1_issuer i = do
    mappings ← repr c (entries_of i.claim_mappings)
    conditions ← conditions_text i.claim_conditions
    ok (record {
      id = i.id;
      name = i.name;
      uri = i.uri;
      jwksuri = i.jwksuri;
      claim_mappings = mappings;
      claim_conditions = conditions;
    })

  unfoldable pub to_v1_issuers : List (Issuer c) → Result (List V1Issuer)
  unfolding to_v1_issuer
  to_v1_issuers [] = ok []
  to_v1_issuers (i ∷ issuers) = do v ← to_v1_issuer i; rest ← to_v1_issuers issuers; ok (v ∷ rest)

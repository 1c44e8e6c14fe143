-- ===== src/Storage/Issuers/Columns.antt =====
-- The columns that an update of an issuer sets, and the rows that it makes.
use identity_api.Common.{
  String, ◌≡◌, ◌≢◌, refl, sym, Option, none, some, List, [], ◌∷◌, ◌++◌, map, arith, find?, inl, inr,
  Bool-cases, eq_iff,
}
use identity_api.Types.{PrefixedId}
use identity_api.Types.Issuers.{
  Cel, RoundTrips, IssuerUpdate, Conditions, Entries, marshal_mapping, marshal_conditions,
}
use identity_api.Types.Issuers.RoundTrip.{
  unmarshal_mapping-marshal_mapping, unmarshal_conditions-marshal_conditions,
}
use identity_api.Exec.{ok, Result, Result-cases}
use identity_api.Platform.Schema.{IssuerRow}
use identity_api.Storage.Issuers.{
  scan_mapping, scan_conditions, issuer_update_to_col_bindings, bind_if_not_nil, mapping_binding,
  conditions_binding,
}
use identity_api.Storage.Issuers.Sql.{
  has_id, ColBinding, set_name, set_uri, set_jwksuri, set_mappings, set_conditions, set_column,
  set_columns, set_issuer,
}

-- The value that an update gives, or the old one.
abbrev pub given : {A : Type 0} → Option A → A → A
given none old = old
given (some new) old = new

-- The text that an update writes to a column of claims, or the old one.
abbrev pub written : Option String → Option String → Option String
written none old = old
written (some text) old = some text

-- No column that an update sets is the id.
pub set_columns-id : (bs : List ColBinding) (i : IssuerRow) → (set_columns bs i).id ≡ i.id
unfolding set_columns set_column
set_columns-id [] i = refl
set_columns-id (set_name v ∷ bs) i = set_columns-id bs (record i { name = v })
set_columns-id (set_uri v ∷ bs) i = set_columns-id bs (record i { uri = v })
set_columns-id (set_jwksuri v ∷ bs) i = set_columns-id bs (record i { jwksuri = v })
set_columns-id (set_mappings v ∷ bs) i = set_columns-id bs (record i { mappings = some v })
set_columns-id (set_conditions v ∷ bs) i = set_columns-id bs (record i { conditions = some v })

set_columns-append :
    (xs ys : List ColBinding) (i : IssuerRow)
    → set_columns (xs ++ ys) i ≡ set_columns ys (set_columns xs i)
unfolding set_columns
set_columns-append [] ys i = refl
set_columns-append (x ∷ xs) ys i = set_columns-append xs ys (set_column x i)

pub set_issuer-find? :
    (id : PrefixedId) (bs : List ColBinding) (is : List IssuerRow) (row : IssuerRow)
    → ((i : IssuerRow) → has_id id (set_columns bs i) ≡ has_id id i)
    → find? (has_id id) (map (set_issuer id bs) is) ≡ some row
    → (old : IssuerRow) × (find? (has_id id) is ≡ some old) × (row ≡ set_columns bs old)
unfolding find? set_issuer
set_issuer-find? id bs [] row k h = ground arith
set_issuer-find? id bs (i ∷ is) row k h = elim (Bool-cases (has_id id i)) [
  | inl e ↦ (i, ground (arith, e), ground (arith, e, h, k i))
  | inr e ↦
      let (old, found, same) = set_issuer-find? id bs is row k (ground (arith, e, h)) in
      (old, ground (arith, e, found), same)
]

pub find?-set_issuer_other :
    (id other : PrefixedId) (bs : List ColBinding) (is : List IssuerRow)
    → other ≢ id
    → ((i : IssuerRow) → (set_columns bs i).id ≡ i.id)
    → find? (has_id other) (map (set_issuer id bs) is) ≡ find? (has_id other) is
unfolding find? set_issuer
find?-set_issuer_other id other bs [] ne k = refl
find?-set_issuer_other id other bs (i ∷ is) ne k = elim (Bool-cases (has_id id i)) [
  | inl e ↦ ground (
    arith,
    e,
    k i,
    find?-set_issuer_other id other bs is ne k,
    eq_iff i.id id,
    eq_iff i.id other,
    ne,
  )
  | inr e ↦ ground (arith, e, find?-set_issuer_other id other bs is ne k)
]

module _ (c : Cel) where
  -- The claims that an update gives, or those of the old text.
  abbrev pub given_mappings : Option (Entries c) → Option String → Result (Option (Entries c))
  given_mappings none old = scan_mapping c old
  given_mappings (some entries) old = ok (some entries)

  abbrev pub given_conditions :
      Option (Conditions c) → Option String → Result (Option (Conditions c))
  given_conditions none old = scan_conditions c old
  given_conditions (some conditions) old = ok (some conditions)

module _ {c : Cel} (r : RoundTrips c) where
  mapping_binding-effect :
      (o : Option (Entries c)) (bs : List ColBinding)
      → mapping_binding c o ≡ ok bs
      → (t : Option String) × ((i : IssuerRow)
          → set_columns bs i ≡ record i { mappings = written t i.mappings })
        × ((old : Option String) → scan_mapping c (written t old) ≡ given_mappings c o old)
  unfolding mapping_binding set_columns set_column scan_mapping
  mapping_binding-effect none bs h = (none, λ i. ground (arith, h), λ old. refl)
  mapping_binding-effect (some entries) bs h = elim (Result-cases (marshal_mapping c entries)) [
    | inr (e, m) ↦ ground (arith, m, h)
    | inl (text, m) ↦ (
      some text,
      λ i. rw (sym (bindings text m)) refl,
      λ old. ground (arith, unmarshal_mapping-marshal_mapping r entries text m),
    )
  ]
    where
      bindings : (text : String) → marshal_mapping c entries ≡ ok text → set_mappings text ∷ [] ≡ bs
      bindings text m = ground (arith, m, h)

  conditions_binding-effect :
      (o : Option (Conditions c)) (bs : List ColBinding)
      → conditions_binding c o ≡ ok bs
      → (t : Option String) × ((i : IssuerRow)
          → set_columns bs i ≡ record i { conditions = written t i.conditions })
        × ((old : Option String) → scan_conditions c (written t old) ≡ given_conditions c o old)
  unfolding conditions_binding set_columns set_column scan_conditions
  conditions_binding-effect none bs h = (none, λ i. ground (arith, h), λ old. refl)
  conditions_binding-effect (some cs) bs h = elim (Result-cases (marshal_conditions c cs)) [
    | inr (e, m) ↦ ground (arith, m, h)
    | inl (text, m) ↦ (
      some text,
      λ i. rw (sym (bindings text m)) refl,
      λ old. ground (arith, unmarshal_conditions-marshal_conditions r cs text m),
    )
  ]
    where
      bindings : (text : String) → marshal_conditions c cs ≡ ok text → set_conditions text ∷ [] ≡ bs
      bindings text m = ground (arith, m, h)

  set_columns-name :
      (o : Option String) (i : IssuerRow)
      → set_columns (bind_if_not_nil c set_name o) i ≡ record i { name = given o i.name }
  unfolding bind_if_not_nil set_columns set_column
  set_columns-name none i = refl
  set_columns-name (some v) i = refl

  set_columns-uri :
      (o : Option String) (i : IssuerRow)
      → set_columns (bind_if_not_nil c set_uri o) i ≡ record i { uri = given o i.uri }
  unfolding bind_if_not_nil set_columns set_column
  set_columns-uri none i = refl
  set_columns-uri (some v) i = refl

  set_columns-jwksuri :
      (o : Option String) (i : IssuerRow)
      → set_columns (bind_if_not_nil c set_jwksuri o) i ≡ record i { jwksuri = given o i.jwksuri }
  unfolding bind_if_not_nil set_columns set_column
  set_columns-jwksuri none i = refl
  set_columns-jwksuri (some v) i = refl

  -- The row that an update makes of a row.
  abbrev pub updated_row : IssuerUpdate c → Option String → Option String → IssuerRow → IssuerRow
  updated_row u mappings conditions i = record i {
    name = given u.name i.name;
    uri = given u.uri i.uri;
    jwksuri = given u.jwksuri i.jwksuri;
    mappings = written mappings i.mappings;
    conditions = written conditions i.conditions;
  }

  set_columns-all :
      (u : IssuerUpdate c) (ms cs : List ColBinding) (m k : Option String)
      → ((i : IssuerRow) → set_columns ms i ≡ record i { mappings = written m i.mappings })
      → ((i : IssuerRow) → set_columns cs i ≡ record i { conditions = written k i.conditions })
      → (i : IssuerRow)
      → set_columns
          (bind_if_not_nil c set_name u.name
            ++ (bind_if_not_nil c set_uri u.uri
                ++ (bind_if_not_nil c set_jwksuri u.jwksuri ++ (ms ++ cs))))
          i
        ≡ updated_row u m k i
  set_columns-all u ms cs m k m_set k_set i =
      rw
        (
          set_columns-append, set_columns-name, set_columns-append, set_columns-uri,
          set_columns-append, set_columns-jwksuri, set_columns-append, m_set, k_set,
        )
        refl

  pub update-effect :
      (u : IssuerUpdate c) (bs : List ColBinding)
      → issuer_update_to_col_bindings c u ≡ ok bs
      → (m : Option String) × (k : Option String) × ((i : IssuerRow)
          → set_columns bs i ≡ updated_row u m k i)
        × ((old : Option String)
            → scan_mapping c (written m old) ≡ given_mappings c u.claim_mappings old)
        × ((old : Option String)
            → scan_conditions c (written k old) ≡ given_conditions c u.claim_conditions old)
  unfolding issuer_update_to_col_bindings
  update-effect u bs h = elim (Result-cases (mapping_binding c u.claim_mappings)) [
    | inr (e, a) ↦ ground (arith, a, h)
    | inl (ms, a) ↦ elim (Result-cases (conditions_binding c u.claim_conditions)) [
      | inr (e, b) ↦ ground (arith, a, b, h)
      | inl (cs, b) ↦
          let (m, m_set, m_scan) = mapping_binding-effect u.claim_mappings ms a in
          let (k, k_set, k_scan) = conditions_binding-effect u.claim_conditions cs b in
          (
            m,
            k,
            λ i. rw (sym (bindings ms cs a b)) (set_columns-all u ms cs m k m_set k_set i),
            m_scan,
            k_scan,
          )
    ]
  ]
    where
      bindings :
          (ms cs : List ColBinding)
          → mapping_binding c u.claim_mappings ≡ ok ms
          → conditions_binding c u.claim_conditions ≡ ok cs
          → bind_if_not_nil c set_name u.name
              ++ (bind_if_not_nil c set_uri u.uri
                  ++ (bind_if_not_nil c set_jwksuri u.jwksuri ++ (ms ++ cs)))
            ≡ bs
      bindings ms cs a b = ground (arith, a, b, h)

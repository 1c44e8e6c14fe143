-- ===== src/Types/Issuers/RoundTrip.antt =====
-- What is marshalled into a column of `issuers` is unmarshalled from it.
use identity_api.Common.{String, ◌≡◌, none, some, List, [], ◌∷◌, arith}
use identity_api.Exec.{ok, Result-cases}
use identity_api.Types.Issuers.{
  Cel, RoundTrips, Entries, each, marshal_mapping, unmarshal_mapping, marshal_conditions,
  unmarshal_conditions, Conditions,
}
use identity_api.Common.{inl, inr, eq_iff}

module _ {c : Cel} (r : RoundTrips c) where
  each-unmarshal-marshal :
      (entries : Entries c) (out : List (String × String))
      → each c c.marshal entries ≡ ok out
      → each c c.unmarshal out ≡ ok entries
  unfolding each
  each-unmarshal-marshal [] out h = ground (arith, h)
  each-unmarshal-marshal ((k, a) ∷ entries) out h = elim (Result-cases (c.marshal a)) [
    | inl (s, e) ↦ elim (Result-cases (each c c.marshal entries)) [
      | inl (rest, es) ↦
          ground (arith, e, es, r.unmarshal-marshal a s e, each-unmarshal-marshal entries rest es)
      | inr (f, es) ↦ ground (arith, e, es)
    ]
    | inr (f, e) ↦ ground (arith, e)
  ]

  -- A mapping that is marshalled without error is read back as it was.
  pub unmarshal_mapping-marshal_mapping :
      (entries : Entries c) (text : String)
      → marshal_mapping c entries ≡ ok text
      → unmarshal_mapping c text ≡ ok entries
  unfolding marshal_mapping unmarshal_mapping
  unmarshal_mapping-marshal_mapping entries text h =
      elim (Result-cases (each c c.marshal entries)) [
        | inl (out, e) ↦
            let decoded = r.decode-encode out text (ground (arith, h, e)) in
            ground (arith, e, decoded, each-unmarshal-marshal entries out e)
        | inr (f, e) ↦ ground (arith, e)
      ]

  -- So are conditions, nil among them.
  pub unmarshal_conditions-marshal_conditions :
      (conditions : Conditions c) (text : String)
      → marshal_conditions c conditions ≡ ok text
      → unmarshal_conditions c text ≡ ok conditions
  unfolding marshal_conditions unmarshal_conditions
  unmarshal_conditions-marshal_conditions none text h = ground (arith, eq_iff text "")
  unmarshal_conditions-marshal_conditions (some ast) text h =
      ground (arith, r.unmarshal-marshal ast text h, r.marshal_non_empty ast text h)

-- ===== src/Storage/Clients/Lookup.antt =====
-- Clients found under their ids after an insertion and after a deletion.
use identity_api.Common.{
  ◌≡◌, ◌≢◌, refl, String, false, not, none, some, List, [], ◌∷◌, ◌++◌, ◌==◌, arith, any, find?,
  find?-append, keep, eq_iff, eq_refl, ◌⊎◌, inl, inr, Bool-cases, AreWords, fields-join, ap, sym,
  ◌∙◌,
}
use identity_api.Types.{PrefixedId}
use identity_api.Types.Clients.{OAuthClient}
use identity_api.Types.Errors.{Failure, db, oauth_client_not_found}
use identity_api.Exec.{ok, err, Result-cases}
use identity_api.Platform.{Platform, IsDocumented}
use identity_api.Platform.Schema.{ClientRow}
use identity_api.Platform.Outcomes.{exec_ok}
use identity_api.Storage.{with_tx}
use identity_api.Storage.Clients.{
  Hasher, create_oauth_client, delete_oauth_client, lookup_oauth_client_by_id, client_row,
  client_of,
}
use identity_api.Storage.Clients.Sql.{has_id, insert_client, select_client, delete_client}

find?-delete :
    (id : PrefixedId) (cs : List ClientRow)
    → find? (has_id id) (keep (λ c. not (has_id id c)) cs) ≡ none
unfolding find? keep
find?-delete id [] = refl
find?-delete id (c ∷ cs) = ground (arith, find?-delete id cs)

find?-delete_ne :
    (id other : PrefixedId) (cs : List ClientRow)
    → other ≢ id
    → find? (has_id other) (keep (λ c. not (has_id id c)) cs) ≡ find? (has_id other) cs
unfolding find? keep
find?-delete_ne id other [] h = refl
find?-delete_ne id other (c ∷ cs) h =
    ground (arith, find?-delete_ne id other cs h, eq_iff c.id id, eq_iff c.id other, h)

-- A row as written is read back as the client.
client_of-client_row :
    (c : OAuthClient) (id : PrefixedId) (hashed : String)
    → AreWords c.audience
    → client_of (client_row c id hashed) ≡ record c { id = id; secret = hashed }
unfolding client_of client_row
client_of-client_row c id hashed h = rw (fields-join c.audience h) refl

insert_client-find? :
    (c : ClientRow) (cs : List ClientRow)
    → any (has_id c.id) cs ≡ false
    → find? (has_id c.id) (cs ++ c ∷ []) ≡ some c
insert_client-find? c cs h = find?-append (has_id c.id) cs c h (eq_refl c.id)

module _ {p : Platform} (d : IsDocumented p) where
  -- What the lookup of a client returns, from the row in the tables of the transaction.
  lookup_found :
      (id : PrefixedId) (row : ClientRow) (w : p.World)
      → (id == "") ≡ false
      → find? (has_id id) (p.view w).working.oauth_clients ≡ some row
      → ((f : Failure) × ((lookup_oauth_client_by_id p with_tx id w).0 ≡ err (db f)))
        ⊎ ((lookup_oauth_client_by_id p with_tx id w).0 ≡ ok (client_of row))
  unfolding lookup_oauth_client_by_id select_client
  lookup_found id row w h e = elim (d.exec_law (select_client id) w) [
    | inl (f, r, _, _) ↦ inl (f, ground (arith, h, r))
    | inr (r, _) ↦ inr (ground (arith, h, e, r))
  ]

  insert_client_ok :
      (c : ClientRow) (id : PrefixedId) (w : p.World)
      → (p.exec (insert_client c) w).0 ≡ ok id
      → (id ≡ c.id)
        × (find? (has_id c.id) (p.view (p.exec (insert_client c) w).1).working.oauth_clients
            ≡ some c)
  unfolding insert_client
  insert_client_ok c id w h =
      let (answered, after) = exec_ok d (insert_client c) w id h in
      let cs = (p.view w).working.oauth_clients in
      elim (Bool-cases (any (has_id c.id) cs)) [
        | inl e ↦ ground (arith, e, answered)
        | inr e ↦
            (ground (arith, e, answered), ground (arith, e, after, insert_client-find? c cs e))
      ]

  -- What a successful creation has done: the owner, name and audience returned are the given ones, the
  -- secret is the hash of the given one, and under the id returned stands the row of the client.
  abbrev pub IsCreated : Hasher p → OAuthClient → OAuthClient → p.World → p.World → Type 0
  IsCreated h given out before w =
      (out ≡ record given { id = out.id; secret = out.secret })
      × ((h.hash given.secret before).0 ≡ ok out.secret)
      × ((p.new_id "idntcli" (h.hash given.secret before).1).0 ≡ ok out.id)
      × (find? (has_id out.id) (p.view w).working.oauth_clients
          ≡ some (client_row given out.id out.secret))

  pub create_oauth_client_row :
      (h : Hasher p) (given out : OAuthClient) (w : p.World)
      → (create_oauth_client p h with_tx given w).0 ≡ ok out
      → IsCreated h given out w (create_oauth_client p h with_tx given w).1
  unfolding create_oauth_client
  create_oauth_client_row h given out w e = elim (Result-cases (h.hash given.secret w).0) [
    | inr (f, r) ↦ ground (arith, e, r)
    | inl (hashed, r) ↦
        let w1 = (h.hash given.secret w).1 in
        elim (Result-cases (p.new_id "idntcli" w1).0) [
          | inr (f, n) ↦ ground (arith, e, r, n)
          | inl (id, n) ↦
              let row = client_row given id hashed in
              let w2 = (p.new_id "idntcli" w1).1 in
              elim (Result-cases (p.exec (insert_client row) w2).0) [
                | inr (f, x) ↦ ground (arith, e, r, n, x)
                | inl (new, x) ↦
                    let (same, found) = insert_client_ok row new w2 x in
                    let made : out ≡ record given { id = new; secret = hashed } =
                      ground (arith, e, r, n, x) in
                    (
                      ground (arith, made),
                      ground (arith, r, made),
                      ground (arith, r, n, made, same),
                      ground (arith, e, r, n, x, made, same, found),
                    )
              ]
        ]
  ]

  -- Creating a client returns its owner, name and audience as given, the hash of its secret and the id
  -- that gidx has generated for it. A lookup of that id in the same transaction, if the id is not empty and the audiences are words
  -- without white space, fails in the database or returns just that client.
  pub create_oauth_client-lookup_oauth_client_by_id :
      (h : Hasher p) (given out : OAuthClient) (w : p.World)
      → (create_oauth_client p h with_tx given w).0 ≡ ok out
      → AreWords given.audience
      → (out.id == "") ≡ false
      → let w1 = (create_oauth_client p h with_tx given w).1 in
        (out ≡ record given { id = out.id; secret = out.secret })
        × ((h.hash given.secret w).0 ≡ ok out.secret)
        × ((p.new_id "idntcli" (h.hash given.secret w).1).0 ≡ ok out.id)
        × (((f : Failure) × ((lookup_oauth_client_by_id p with_tx out.id w1).0 ≡ err (db f)))
            ⊎ ((lookup_oauth_client_by_id p with_tx out.id w1).0 ≡ ok out))
  create_oauth_client-lookup_oauth_client_by_id h given out w e words named =
      let w1 = (create_oauth_client p h with_tx given w).1 in
      let (same, hashed, new, found) = create_oauth_client_row h given out w e in
      let row = client_row given out.id out.secret in
      let back : client_of row ≡ out =
        client_of-client_row given out.id out.secret words ∙ sym same in
      (
        same,
        hashed,
        new,
        elim (lookup_found out.id row w1 named found) [
          | inl (f, r) ↦ inl (f, r)
          | inr r ↦ inr (r ∙ ap (λ (c : OAuthClient). ok c) back)
        ],
      )

  -- After a deletion that reports success, a lookup of the id in the same transaction fails in the
  -- database or finds no client, and every other id has the row that it had.
  pub delete_oauth_client-lookup_oauth_client_by_id :
      (id : PrefixedId) (w : p.World)
      → (delete_oauth_client p with_tx id w).0 ≡ ok tt
      → let w1 = (delete_oauth_client p with_tx id w).1 in
        (((f : Failure) × ((lookup_oauth_client_by_id p with_tx id w1).0 ≡ err (db f)))
          ⊎ ((lookup_oauth_client_by_id p with_tx id w1).0 ≡ err oauth_client_not_found))
        × ((other : PrefixedId)
            → other ≢ id
            → find? (has_id other) (p.view w1).working.oauth_clients
              ≡ find? (has_id other) (p.view w).working.oauth_clients)
  unfolding delete_oauth_client lookup_oauth_client_by_id delete_client select_client
  delete_oauth_client-lookup_oauth_client_by_id id w e =
      let w1 = (delete_oauth_client p with_tx id w).1 in
      let (_, after) = exec_ok d (delete_client id) w tt e in
      let cs = (p.view w).working.oauth_clients in
      (
        elim (Bool-cases (id == "")) [
          | inl empty ↦ inr (ground (arith, empty))
          | inr named ↦ elim (d.exec_law (select_client id) w1) [
            | inl (f, r, _, _) ↦ inl (f, ground (arith, named, r))
            | inr (r, _) ↦ inr (ground (arith, named, r, after, find?-delete id cs))
          ]
        ],
        λ other ne. ground (arith, after, find?-delete_ne id other cs ne),
      )

-- ===== src/Invariant.antt =====
-- An invariant of what is observed of the world, carried from the statements and the calls of the
-- platform through every operation of the program.
pub mod Statements
pub mod Services
pub mod Handlers
pub mod Listings
pub mod Exchanges
use identity_api.Common.{String, ◌≡◌, sym, subst, inl, inr, List, [], ◌∷◌, ◌++◌, ◌⊎◌}
use identity_api.Types.{PrefixedId, Group}
use identity_api.Exec.{Result, ok, err, Result-cases, Exec}
use identity_api.Exec.Keeps.{Keeps, IsPreorder, keeps_rules}
use identity_api.Platform.{
  Platform, IsDocumented, View, Event, Relation, create_relationships, delete_relationships,
}
use identity_api.Platform.Schema.{Tables, Stmt, IssuerRow, UserRow, ClientRow}
use identity_api.Storage.{Ctx, with_tx, background, query_row, next_rows}
use identity_api.Storage.Reads.{view-next_rows}
use identity_api.Storage.Groups.Sql.{
  insert_group_row, update_group_row, delete_group_row, upsert_members, delete_member,
  delete_members,
}
use identity_api.Storage.Issuers.Sql.{
  insert_issuer_row, ColBinding, update_issuer_row, delete_users_of_issuer, delete_issuer_row,
}
use identity_api.Storage.Users.Sql.{upsert_user}
use identity_api.Storage.Clients.Sql.{insert_client, delete_client}
use identity_api.Events.{group_topic, group_parent}

abbrev pub with_working : View → Tables → View
with_working v t = record v { working = t }

-- The transaction may run the statement.
pub record Allows (I : View → Type 0) {A : Type 0} (st : Stmt A) : Type 0 where
  pub runs : (v : View) → I v → I (with_working v (st v.working).1)

-- The permissions API may accept the request.
pub record Tells (I : View → Type 0) (e : Event) : Type 0 where
  pub accepts : (v : View) → I v → I (record v { published = v.published ++ e ∷ [] })

abbrev pub parent : PrefixedId → List Relation
parent id = record { relation = group_parent; subject_id = id } ∷ []

-- What an invariant has to allow for operations that do not change members.
pub record IsInvariant (I : View → Type 0) : Type 1 where
  -- The transaction begins, or is rolled back; is committed; is committed and another begun.
  pub begins : (v : View) → I v → I (with_working v v.committed)
  pub commits : (v : View) → I v → I (record v { committed = v.working })
  pub swaps : (v : View) → I v → I (record v { committed = v.working; working = v.committed })
  pub inserts_group : (g : Group) → Allows I (insert_group_row g)
  pub updates_group :
      (name description : String) (id : PrefixedId)
      → Allows I (update_group_row name description id)
  pub deletes_group : (id : PrefixedId) → Allows I (delete_group_row id)
  pub inserts_issuer : (i : IssuerRow) → Allows I (insert_issuer_row i)
  pub updates_issuer : (id : PrefixedId) (bs : List ColBinding) → Allows I (update_issuer_row id bs)
  pub deletes_users : (id : PrefixedId) → Allows I (delete_users_of_issuer id)
  pub deletes_issuer : (id : PrefixedId) → Allows I (delete_issuer_row id)
  pub upserts_user : (u : UserRow) → Allows I (upsert_user u)
  pub inserts_client : (c : ClientRow) → Allows I (insert_client c)
  pub deletes_client : (id : PrefixedId) → Allows I (delete_client id)
  pub tells_created :
      (gid id : PrefixedId) → Tells I (create_relationships group_topic gid (parent id))
  pub tells_deleted :
      (gid id : PrefixedId) → Tells I (delete_relationships group_topic gid (parent id))

-- And for those that do.
pub record AllowsMembers (I : View → Type 0) : Type 1 where
  pub upserts : (gid : PrefixedId) (sids : List PrefixedId) → Allows I (upsert_members gid sids)
  pub deletes_one : (gid sid : PrefixedId) → Allows I (delete_member gid sid)
  pub deletes_all : (gid : PrefixedId) (sids : List PrefixedId) → Allows I (delete_members gid sids)
  pub tells_added :
      (gid : PrefixedId) (rels : List Relation)
      → Tells I (create_relationships group_topic gid rels)
  pub tells_removed :
      (gid : PrefixedId) (rels : List Relation)
      → Tells I (delete_relationships group_topic gid rels)

-- The invariant holds after, if it held before.
pub record Stays (I : View → Type 0) (p : Platform) (w w' : p.World) : Type 0 where
  pub holds : I (p.view w) → I (p.view w')

module _ (I : View → Type 0) where
  of_parts :
      {v' : View} {c t : Tables} {es : List Event}
      → v'.committed ≡ c
      → v'.working ≡ t
      → v'.published ≡ es
      → I (record { committed = c; working = t; published = es })
      → I v'
  of_parts e f g h = rw (e, f, g) h

  pub same_view : {v v' : View} → v' ≡ v → I v → I v'
  same_view e h = subst I (sym e) h

module _ {p : Platform} (d : IsDocumented p) {I : View → Type 0} where
  pub kept_preorder : IsPreorder (Stays I p)
  kept_preorder = record {
    stays = λ w. record { holds = λ h. h };
    trans = λ a b c f g. record { holds = λ h. g.holds (f.holds h) };
  }

  pub kept-exec : {A : Type 0} (st : Stmt A) → Allows I st → Keeps (Stays I p) (p.exec st)
  kept-exec st r = record {
    at = λ w. record {
      holds = λ h. elim (d.exec_law st w) [
        | inl (f, _, _, v) ↦ same_view I v h
        | inr (_, v) ↦ same_view I v (r.runs (p.view w) h)
      ];
    };
  }

  pub kept-query :
      {A : Type 0} (clause : String) (st : Stmt A) → Keeps (Stays I p) (p.query clause st)
  kept-query clause st = record {
    at = λ w. record { holds = same_view I (d.query_view clause st w) };
  }

  pub kept-query_row :
      {A : Type 0} (ctx : Ctx) (st : Stmt A) → Allows I st → Keeps (Stays I p) (query_row p ctx st)
  unfolding query_row
  kept-query_row with_tx st r = record { at = (kept-exec st r).at }
  kept-query_row background st r = record { at = (kept-query "" st).at }

  pub kept-next_rows :
      {A : Type 0} (clause : String) (st : Stmt (List A))
      → Keeps (Stays I p) (next_rows p clause st)
  kept-next_rows clause st = record {
    at = λ w. record { holds = same_view I (view-next_rows d clause st w) };
  }

  pub kept-check_access :
      (id : PrefixedId) (action : String) → Keeps (Stays I p) (p.check_access id action)
  kept-check_access id action = record {
    at = λ w. record { holds = same_view I (d.check_view id action w) };
  }

  pub kept-new_id : (prefix : String) → Keeps (Stays I p) (p.new_id prefix)
  kept-new_id prefix = record { at = λ w. record { holds = same_view I (d.new_id_view prefix w) } }

  pub kept-publish : (e : Event) → Tells I e → Keeps (Stays I p) (p.publish e)
  kept-publish e tells = record {
    at = λ w. record {
      holds = λ h. elim (d.publish_law e w) [
        | inl (_, v) ↦ same_view I v (tells.accepts (p.view w) h)
        | inr (_, c, t, es) ↦ elim es [
          | inl es ↦ of_parts I c t es h
          | inr es ↦ of_parts I c t es (tells.accepts (p.view w) h)
        ]
      ];
    };
  }

  module _ (i : IsInvariant I) where
    pub kept-begin : Keeps (Stays I p) p.begin
    kept-begin = record {
      at = λ w. record {
        holds = λ h. elim (d.begin_law w) [
          | inl (_, v) ↦ same_view I v h
          | inr (_, v) ↦ same_view I v (i.begins (p.view w) h)
        ];
      };
    }

    pub kept-rollback : Keeps (Stays I p) p.rollback
    kept-rollback = record {
      at = λ w. record {
        holds = λ h. elim (d.rollback_working w) [
          | inl e ↦ of_parts I (d.rollback_law w) e (d.rollback_published w) h
          | inr e ↦ of_parts I (d.rollback_law w) e (d.rollback_published w) (i.begins (p.view w) h)
        ];
      };
    }

    pub kept-commit : Keeps (Stays I p) p.commit
    kept-commit = record {
      at = λ w. record {
        holds = λ h. elim (Result-cases (p.commit w).0) [
          | inl (u, r) ↦ same_view I (d.commit_law w r) (i.commits (p.view w) h)
          | inr (e, r) ↦
              let v = p.view w in
              let (c, t, es) = d.commit_failed w e r in
              elim c [
                | inl c ↦ elim t [
                  | inl t ↦ of_parts I c t es h
                  | inr t ↦ of_parts I c t es (i.begins v h)
                ]
                | inr c ↦ elim t [
                  | inl t ↦ of_parts I c t es (i.commits v h)
                  | inr t ↦ of_parts I c t es (i.swaps v h)
                ]
              ]
        ];
      };
    }

pub ruleset kept_rules = (
  keeps_rules, kept_preorder, kept-exec, kept-query, kept-next_rows, kept-query_row,
  kept-check_access, kept-new_id, kept-begin, kept-rollback, kept-commit,
)

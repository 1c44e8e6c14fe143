-- ===== src/Service/Kept.antt =====
-- internal/api/httpsrv: what a request keeps, inside the storage middleware.
use identity_api.Common.{refl, Bool, true, false, ℕ, String, ◌≡◌}
use identity_api.Exec.{Exec}
use identity_api.Exec.Keeps.{Keeps}
use identity_api.Platform.{Platform, IsDocumented, View}
use identity_api.Storage.{Ctx}
use identity_api.Http.{storage_middleware}
use identity_api.Service.{
  Request, Response, Outside, answer_done, answer_with, serve, handle_request, delete_oauth_client,
  get_oauth_client, delete_group, get_group_by_id, update_group, list_group_members,
  add_group_members, replace_group_members, remove_group_member, delete_issuer, get_issuer_by_id,
  update_issuer, get_issuer_users, get_owner_oauth_clients, create_oauth_client, list_groups,
  create_group, list_owner_issuers, create_issuer, get_user_by_id, list_user_groups,
}
use identity_api.Invariant.{Stays, IsInvariant, AllowsMembers, kept_rules, same_view}
use identity_api.Invariant.Services.{
  kept-begin_tx_context, kept-commit_context_tx, kept-rollback_context_tx,
}
use identity_api.Invariant.Handlers
use identity_api.Invariant.Listings

-- The hash and the random source do not touch the tables.
pub record LeavesTables (p : Platform) (o : Outside p) : Type 0 where
  pub hash_view : (s : String) (w : p.World) → p.view (o.hasher.hash s w).1 ≡ p.view w
  pub token_view : (n : ℕ) (w : p.World) → p.view (o.token n w).1 ≡ p.view w

-- The requests that change the members of a group.
abbrev pub changes_members : Request → Bool
changes_members (add_group_members gid ids) = true
changes_members (replace_group_members gid ids) = true
changes_members (remove_group_member gid sid) = true
changes_members _ = false

module _ {p : Platform} (d : IsDocumented p) {I : View → Type 0} (inv : IsInvariant I) where
  kept-storage_middleware :
      {A : Type 0} (next : Ctx → Exec p.World A)
      → ((ctx : Ctx) → Keeps (Stays I p) (next ctx))
      → Keeps (Stays I p) (storage_middleware p next)
  unfolding storage_middleware
  kept-storage_middleware next h =
      search
        (kept_rules, kept-begin_tx_context, kept-commit_context_tx, kept-rollback_context_tx, h)
        depth 9

  done : (m : Exec p.World (Unit {0})) → Keeps (Stays I p) m → Keeps (Stays I p) (answer_done m)
  done m h = search (kept_rules, h)

  with :
      {A : Type 0} (f : A → Response) (m : Exec p.World A)
      → Keeps (Stays I p) m
      → Keeps (Stays I p) (answer_with f m)
  with f m h = search (kept_rules, h)

  module _ {o : Outside p} (l : LeavesTables p o) where
    kept-hash : (s : String) → Keeps (Stays I p) (o.hasher.hash s)
    kept-hash s = record { at = λ w. record { holds = same_view I (l.hash_view s w) } }

    kept-token : (n : ℕ) → Keeps (Stays I p) (o.token n)
    kept-token n = record { at = λ w. record { holds = same_view I (l.token_view n w) } }

    kept-serve :
        (ctx : Ctx) (r : Request)
        → (changes_members r ≡ true → AllowsMembers I)
        → Keeps (Stays I p) (serve p o ctx r)
    unfolding serve
    kept-serve ctx (delete_oauth_client id) m =
        done _ (Handlers.kept-delete_oauth_client d inv ctx id)
    kept-serve ctx (get_oauth_client id) m = with _ _ (Handlers.kept-get_oauth_client d inv ctx id)
    kept-serve ctx (delete_group gid) m = done _ (Handlers.kept-delete_group d inv ctx gid)
    kept-serve ctx (get_group_by_id gid) m = with _ _ (Handlers.kept-get_group_by_id d inv ctx gid)
    kept-serve ctx (update_group gid body) m =
        with _ _ (Handlers.kept-update_group d inv ctx gid body)
    kept-serve ctx (list_group_members gid params) m =
        with _ _ (Listings.kept-list_group_members d inv o.codec o.as_of ctx gid params)
    kept-serve ctx (add_group_members gid ids) m =
        done _ (Handlers.kept-add_group_members d inv (m refl) ctx gid ids)
    kept-serve ctx (replace_group_members gid ids) m =
        done _ (Handlers.kept-replace_group_members d inv (m refl) ctx gid ids)
    kept-serve ctx (remove_group_member gid sid) m =
        done _ (Handlers.kept-remove_group_member d inv (m refl) ctx gid sid)
    kept-serve ctx (delete_issuer id) m = done _ (Handlers.kept-delete_issuer d inv ctx o.cel id)
    kept-serve ctx (get_issuer_by_id id) m =
        with _ _ (Handlers.kept-get_issuer_by_id d inv ctx o.cel id)
    kept-serve ctx (update_issuer id body) m =
        with _ _ (Handlers.kept-update_issuer d inv ctx o.cel id body)
    kept-serve ctx (get_issuer_users id params) m =
        with _ _ (Listings.kept-get_issuer_users d inv o.codec o.as_of id params)
    kept-serve ctx (get_owner_oauth_clients owner params) m =
        with _ _ (Listings.kept-get_owner_oauth_clients d inv o.codec o.as_of owner params)
    kept-serve ctx (create_oauth_client owner body) m = with _ _ (
        Handlers.kept-create_oauth_client d inv ctx o.hasher o.token owner body kept-hash
          kept-token)
    kept-serve ctx (list_groups owner params) m =
        with _ _ (Listings.kept-list_groups d inv o.codec o.as_of owner params)
    kept-serve ctx (create_group owner body) m =
        with _ _ (Handlers.kept-create_group d inv ctx owner body)
    kept-serve ctx (list_owner_issuers owner params) m =
        with _ _ (Listings.kept-list_owner_issuers d inv o.codec o.as_of o.cel owner params)
    kept-serve ctx (create_issuer owner body) m =
        with _ _ (Handlers.kept-create_issuer d inv ctx o.cel owner body)
    kept-serve ctx (get_user_by_id id) m = with _ _ (Handlers.kept-get_user_by_id d inv ctx id)
    kept-serve ctx (list_user_groups id params) m =
        with _ _ (Listings.kept-list_user_groups d inv o.codec o.as_of ctx id params)

    pub kept-handle_request :
        (r : Request)
        → (changes_members r ≡ true → AllowsMembers I)
        → Keeps (Stays I p) (handle_request p o r)
    unfolding handle_request
    kept-handle_request r m =
        kept-storage_middleware (λ ctx. serve p o ctx r) (λ ctx. kept-serve ctx r m)

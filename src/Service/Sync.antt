-- ===== src/Service/Sync.antt =====
-- The permissions API and the committed memberships agree, whatever requests are answered.
use identity_api.Common.{ℤ, String, Bool-cases, ◌≡◌, refl, true, false, inl, inr, List, arith}
use identity_api.Types.{PrefixedId}
use identity_api.Exec.{Result, ok, Exec, Result-cases}
use identity_api.Platform.{Platform, IsDocumented}
use identity_api.Storage.{
  Ctx, background, with_tx, begin_tx_context, commit_context_tx, rollback_context_tx,
}
use identity_api.Http.{storage_middleware}
use identity_api.Http.Members
use identity_api.Http.Sync.{
  InSync, add_group_members-InSync, remove_group_member-InSync, replace_group_members-InSync,
}
use identity_api.Storage.Seed.{SeedIssuer, seed_database}
use identity_api.Userinfo
use identity_api.Invariant.Listings.{kept-userinfo, kept-userinfo_groups}
use identity_api.Exchange
use identity_api.Exchange.Mapping.{Jwt}
use identity_api.Service.{
  Request, Response, Outside, answer_done, serve, handle_request, add_group_members,
  replace_group_members, remove_group_member,
}
use identity_api.Service.Kept.{LeavesTables, changes_members, kept-handle_request}
use identity_api.Service.Agreement.{Agrees, Agrees-IsInvariant}
use identity_api.Invariant.{same_view}
use identity_api.Invariant.Exchanges.{IsOutside, kept-exchange, kept-seed_database}

module _ (p : Platform) (o : Outside p) (j : Jwt p) where
  -- One step: a request that does not change members, whatever its outcome; one that does, and succeeds;
  -- a token exchange, a seeding of issuers, a request to a user info endpoint, or anything that leaves
  -- what is observed alone.
  pub data Step : p.World → p.World → Type 0 where
    other :
        {w : p.World} (r : Request) → changes_members r ≡ false → Step w (handle_request p o r w).1
    answered :
        {w : p.World} (r : Request) (a : Response)
        → (handle_request p o r w).0 ≡ ok a
        → Step w (handle_request p o r w).1
    exchange :
        {w : p.World} (r : Exchange.Request)
        → Step w (Exchange.handle_token_endpoint_request p j o.cel r w).1
    seed : {w : p.World} (issuers : List SeedIssuer) → Step w (seed_database p o.cel issuers w).1
    user_info :
        {w : p.World} (subject : PrefixedId) → Step w (Userinfo.handle p background subject w).1
    user_groups :
        {w : p.World} (atoi : String → Result ℤ) (subject cursor limit : String)
        → Step w (Userinfo.list_user_groups p o.codec o.as_of atoi subject cursor limit w).1
    elsewhere : {w v : p.World} → p.view v ≡ p.view w → Step w v

  pub data Reach (w : p.World) : p.World → Type 0 where
    here : Reach w w
    next : {v u : p.World} → Reach w v → Step v u → Reach w u

module _ {p : Platform} (d : IsDocumented p) where
  -- A request that is answered has been handled in a transaction from the committed tables, and what
  -- the transaction held is committed.
  abbrev Answered : {A : Type 0} → (Ctx → Exec p.World A) → p.World → A → Type 0
  Answered handler w a =
      let start = (p.begin w).1 in
      let end = (handler with_tx start).1 in
      ((handler with_tx start).0 ≡ ok a)
      × (p.view start ≡ record (p.view w) { working = (p.view w).committed })
      × (p.view (storage_middleware p handler w).1
          ≡ record (p.view end) { committed = (p.view end).working })

  storage_middleware_run :
      {A : Type 0} (handler : Ctx → Exec p.World A) (w : p.World) (a : A)
      → (storage_middleware p handler w).0 ≡ ok a
      → Answered handler w a
  unfolding storage_middleware begin_tx_context commit_context_tx rollback_context_tx
  storage_middleware_run handler w a h =
      let start = (p.begin w).1 in
      let end = (handler with_tx start).1 in
      elim (Result-cases (p.begin w).0) [
        | inr (e, b) ↦ ground (arith, b, h)
        | inl (u, b) ↦ elim (Result-cases (handler with_tx start).0) [
          | inr (e, r) ↦ elim (Result-cases (p.rollback end).0) [
            | inl (x, k) ↦ ground (arith, b, r, k, h)
            | inr (x, k) ↦ ground (arith, b, r, k, h)
          ]
          | inl (c, r) ↦ elim (Result-cases (p.commit end).0) [
            | inr (e, k) ↦ ground (arith, b, r, k, h)
            | inl (x, k) ↦ (
              ground (arith, b, r, k, h),
              ground (arith, b, d.begin_law w),
              ground (arith, b, r, k, d.commit_law end),
            )
          ]
        ]
      ]

  -- A handler that keeps a fresh transaction in agreement, and answers, leaves it committed.
  middleware-Agrees :
      {A : Type 0} (handler : Ctx → Exec p.World A) (w : p.World) (a : A)
      → ((v : p.World)
          → (p.view v).working.group_members ≡ (p.view v).committed.group_members
          → InSync (p.view v)
          → (handler with_tx v).0 ≡ ok a
          → InSync (p.view (handler with_tx v).1))
      → (storage_middleware p handler w).0 ≡ ok a
      → Agrees (p.view w)
      → Agrees (p.view (storage_middleware p handler w).1)
  middleware-Agrees handler w a keeps h before =
      let start = (p.begin w).1 in
      let (handled, fresh, after) = storage_middleware_run handler w a h in
      let sync = keeps start (rw fresh refl) (rw fresh before.told) handled in
      rw after (record { settled = refl; told = sync })

  done_run :
      (m : Exec p.World (Unit {0})) (w : p.World) (a : Response)
      → (answer_done m w).0 ≡ ok a
      → ((m w).0 ≡ ok tt) × ((answer_done m w).1 ≡ (m w).1)
  done_run m w a h = elim (Result-cases (m w).0) [
    | inl (u, e) ↦ (ground (arith, e), ground (arith, e))
    | inr (f, e) ↦ ground (arith, e, h)
  ]

  done-InSync :
      (m : Exec p.World (Unit {0})) (w : p.World) (a : Response)
      → ((m w).0 ≡ ok tt → InSync (p.view (m w).1))
      → (answer_done m w).0 ≡ ok a
      → InSync (p.view (answer_done m w).1)
  done-InSync m w a k h = let (returned, same) = done_run m w a h in rw same (k returned)

  module _ (o : Outside p) where
    member_request-Agrees :
        (r : Request)
        → changes_members r ≡ true
        → (w : p.World) (a : Response) → (handle_request p o r w).0 ≡ ok a
        → Agrees (p.view w)
        → Agrees (p.view (handle_request p o r w).1)
    unfolding handle_request serve
    member_request-Agrees (add_group_members gid ids) e w a h =
        middleware-Agrees _ w a
          (λ v fresh sync.
            done-InSync (Members.add_group_members p with_tx gid ids) v a
              (add_group_members-InSync d gid ids v sync))
          h
    member_request-Agrees (replace_group_members gid ids) e w a h =
        middleware-Agrees _ w a
          (λ v fresh sync.
            done-InSync (Members.replace_group_members p with_tx gid ids) v a
              (replace_group_members-InSync d gid ids v fresh sync))
          h
    member_request-Agrees (remove_group_member gid sid) e w a h =
        middleware-Agrees _ w a
          (λ v fresh sync.
            done-InSync (Members.remove_group_member p with_tx gid sid) v a
              (remove_group_member-InSync d gid sid v sync))
          h
    member_request-Agrees _ e w a h = ground arith

module _ {p : Platform} (d : IsDocumented p) {o : Outside p} (l : LeavesTables p o) {j : Jwt p}
    (apart : IsOutside p j) where
  request-Agrees :
      (r : Request)
      → changes_members r ≡ false
      → (w : p.World) → Agrees (p.view w)
      → Agrees (p.view (handle_request p o r w).1)
  request-Agrees r e w =
      ((kept-handle_request d Agrees-IsInvariant l r (λ k. ground (arith, e, k))).at w).holds

  Step-Agrees : {w v : p.World} → Step p o j w v → Agrees (p.view w) → Agrees (p.view v)
  Step-Agrees (other r e) = request-Agrees r e _
  Step-Agrees (answered r a h) = elim (Bool-cases (changes_members r)) [
    | inl e ↦ member_request-Agrees d o r e _ a h
    | inr e ↦ request-Agrees r e _
  ]
  Step-Agrees (exchange r) = ((kept-exchange d Agrees-IsInvariant apart o.cel r).at _).holds
  Step-Agrees (seed issuers) = ((kept-seed_database d Agrees-IsInvariant o.cel issuers).at _).holds
  Step-Agrees (user_info subject) =
      ((kept-userinfo d Agrees-IsInvariant background subject).at _).holds
  Step-Agrees (user_groups atoi subject cursor limit) =
      ((kept-userinfo_groups d Agrees-IsInvariant o.codec o.as_of atoi subject cursor limit).at
        _).holds
  Step-Agrees (elsewhere e) = same_view Agrees e

  -- Where the permissions API was told of exactly the committed memberships, but for the empty subject
  -- id, and no uncommitted one is there, this stays so after any sequence of requests to the API and the
  -- user info endpoints, token exchanges and seedings in which the requests that change members succeed
  -- and the others end as they may, also where a commit or a call of the permissions API fails.
  pub Reach-Agrees : {w v : p.World} → Agrees (p.view w) → Reach p o j w v → Agrees (p.view v)
  Reach-Agrees h here = h
  Reach-Agrees h (next r s) = Step-Agrees s (Reach-Agrees h r)

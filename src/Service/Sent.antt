-- ===== src/Service/Sent.antt =====
-- internal/api/httpsrv/handler.go and server.gen.go: what the client of a request is sent, and when.
-- The strict handler writes the response before it returns to the storage middleware.
use identity_api.Common.{
  ℕ, ◌≡◌, ◌∙◌, Bool, true, false, refl, Option, none, some, ◌⊎◌, inl, inr, arith,
}
use identity_api.Types.Errors.{Error, http, external, permission_denied}
use identity_api.Exec.{Result, ok, err, Exec, pure, fail, map_err, branch, Result-cases, ◌>>◌}
use identity_api.Platform.{Platform, IsDocumented}
use identity_api.Storage.{Ctx, with_tx, begin_tx_context, commit_context_tx, rollback_context_tx}
use identity_api.Http.{storage_middleware}
use identity_api.Service.{Request, Response, Outside, serve, handle_request}

-- What has been written to the client: nothing yet, or a response or an error.
abbrev pub Sent : Type 0
Sent = Option (Result Response)

-- The errors of this repository that are not an *echo.HTTPError, errorWithStatus among them.
abbrev pub is_plain : Error → Bool
is_plain (http n) = false
is_plain permission_denied = false
is_plain (external n) = false
is_plain e = true

-- Echo's error handler, given what has been written: it writes nothing behind a response, else the
-- status of an *echo.HTTPError, and 500 for an error that is none.
pub record IsErrorHandler (on_error : Sent → Error → Sent) : Type 0 where
  pub sends : (n : ℕ) → on_error none (http n) ≡ some (err (http n))
  pub sends_plain : (e : Error) → is_plain e ≡ true → on_error none e ≡ some (err (http 500))
  pub sends_other : (e : Error) → (n : ℕ) × (on_error none e ≡ some (err (http n)))
  pub stays : (r : Result Response) (e : Error) → on_error (some r) e ≡ some r

module _ (p : Platform) (on_error : Sent → Error → Sent) where
  -- After `next`: what has been sent, and what the middleware returns.
  unfoldable pub after_next : Ctx → Result Response → p.World → (Sent × Result (Unit {0})) × p.World
  unfolding commit_context_tx rollback_context_tx
  after_next ctx (ok response) w =
      let committed = map_err (λ _. http 502) (commit_context_tx p ctx) w in
      ((some (ok response), committed.0), committed.1)
  after_next ctx (err e) w =
      let rolled_back = branch (rollback_context_tx p ctx) (λ _. fail e) (λ _. fail (http 502)) w in
      ((on_error none e, rolled_back.0), rolled_back.1)

  unfoldable pub after_begin :
      (Ctx → Exec p.World Response) → Result Ctx → p.World → (Sent × Result (Unit {0})) × p.World
  unfolding after_next
  after_begin handler (ok ctx) w = after_next ctx (handler ctx w).0 (handler ctx w).1
  after_begin handler (err e) w = ((none, err (http 502)), w)

  -- What the server does with what the middleware returns.
  unfoldable pub finally : Sent → Result (Unit {0}) → Sent
  finally sent (ok _) = sent
  finally sent (err e) = on_error sent e

  unfoldable pub respond : Outside p → Request → p.World → Sent × p.World
  unfolding begin_tx_context after_begin finally serve
  respond o r w =
      let started = begin_tx_context p w in
      let out = after_begin (λ ctx. serve p o ctx r) started.0 started.1 in
      (finally out.0.0 out.0.1, out.1)

module _ {p : Platform} (d : IsDocumented p) {on_error : Sent → Error → Sent}
    (echo : IsErrorHandler on_error) where
  finally_stays :
      (r : Result Response) (out : Result (Unit {0})) → finally p on_error (some r) out ≡ some r
  unfolding finally
  finally_stays r (ok u) = refl
  finally_stays r (err e) = echo.stays r e

  after_next-sent :
      (ctx : Ctx) (a : Response) (w : p.World)
      → let out = after_next p on_error ctx (ok a) w in
        finally p on_error out.0.0 out.0.1 ≡ some (ok a)
  unfolding after_next
  after_next-sent ctx a w = finally_stays (ok a) _

  after_next-sent_error :
      (ctx : Ctx) (e : Error) (w : p.World)
      → let out = after_next p on_error ctx (err e) w in
        finally p on_error out.0.0 out.0.1 ≡ on_error none e
  unfolding after_next
  after_next-sent_error ctx e w =
      let (n, sent) = echo.sends_other e in rw sent (finally_stays (err (http n)) _)

  -- The storage middleware, read as returning the response, does the same to the world.
  after_next-world :
      (ctx : Ctx) (handler : Ctx → Exec p.World Response) (w : p.World)
      → (after_next p on_error ctx (handler ctx w).0 (handler ctx w).1).1
        ≡ (branch
            (handler ctx)
            (λ response. map_err (λ _. http 502) (commit_context_tx p ctx) >> pure response)
            (λ e. branch (rollback_context_tx p ctx) (λ _. fail e) (λ _. fail (http 502)))
            w).1
  unfolding after_next
  after_next-world ctx handler w = elim (Result-cases (handler ctx w).0) [
    | inl (a, h) ↦
        let commit = commit_context_tx p ctx (handler ctx w).1 in
        elim (Result-cases commit.0) [
          | inl (u, k) ↦ ground (arith, h, k)
          | inr (f, k) ↦ ground (arith, h, k)
        ]
    | inr (e, h) ↦
        let rollback = rollback_context_tx p ctx (handler ctx w).1 in
        elim (Result-cases rollback.0) [
          | inl (u, k) ↦ ground (arith, h, k)
          | inr (f, k) ↦ ground (arith, h, k)
        ]
  ]

  module _ (o : Outside p) (r : Request) (w : p.World) where
    abbrev start : p.World
    start = (p.begin w).1

    abbrev end : p.World
    end = (serve p o with_tx r start).1

    respond-world : (respond p on_error o r w).1 ≡ (handle_request p o r w).1
    unfolding respond handle_request storage_middleware after_begin begin_tx_context
    respond-world = elim (Result-cases (p.begin w).0) [
      | inl (u, b) ↦ ground (arith, b, after_next-world with_tx (λ ctx. serve p o ctx r) start)
      | inr (e, b) ↦ ground (arith, b)
    ]

    -- What a client is sent is settled before the commit. If no transaction can be begun, it is sent a
    -- 502; if one has begun, it is sent the response of the handler, or for an error the status of an
    -- echo error and 500 for an error of this repository that is none, so also for errorWithStatus,
    -- whatever its status. Where the handler answers with a response and the commit fails, the middleware's 502 is not sent: the client has its response,
    -- the committed tables may be either those from before the commit or the transaction's, and the
    -- requests that the permissions API has accepted stay accepted. The world changes as by the
    -- storage middleware around the handler.
    pub respond-sent :
        ((e : Error) → (p.begin w).0 ≡ err e → (respond p on_error o r w).0 ≡ some (err (http 502)))
        × ((p.begin w).0 ≡ ok tt
            → (a : Response) → (serve p o with_tx r start).0 ≡ ok a
            → (respond p on_error o r w).0 ≡ some (ok a))
        × ((p.begin w).0 ≡ ok tt
            → (n : ℕ) → (serve p o with_tx r start).0 ≡ err (http n)
            → (respond p on_error o r w).0 ≡ some (err (http n)))
        × ((p.begin w).0 ≡ ok tt
            → (e : Error) → (serve p o with_tx r start).0 ≡ err e
            → is_plain e ≡ true
            → (respond p on_error o r w).0 ≡ some (err (http 500)))
        × ((a : Response) (e : Error)
            → (p.begin w).0 ≡ ok tt
            → (serve p o with_tx r start).0 ≡ ok a
            → (p.commit end).0 ≡ err e
            → let after = p.view (respond p on_error o r w).1 in
              ((respond p on_error o r w).0 ≡ some (ok a))
              × ((after.committed ≡ (p.view end).committed)
                  ⊎ (after.committed ≡ (p.view end).working))
              × (after.published ≡ (p.view end).published))
        × ((respond p on_error o r w).1 ≡ (handle_request p o r w).1)
    unfolding respond after_begin after_next begin_tx_context commit_context_tx
    respond-sent = (
      λ e b. rw b (echo.sends 502),
      λ b a h. rw (b, h) (after_next-sent with_tx a end),
      λ b n h. rw (b, h) (after_next-sent_error with_tx (http n) end ∙ echo.sends n),
      λ b e h plain. rw (b, h) (after_next-sent_error with_tx e end ∙ echo.sends_plain e plain),
      λ a e b h k.
          let (c, _, q) = d.commit_failed end e k in
          (
            ground (arith, b, h, k, echo.stays (ok a) (http 502)),
            elim c [
              | inl x ↦ inl (ground (arith, b, h, k, x))
              | inr x ↦ inr (ground (arith, b, h, k, x))
            ],
            ground (arith, b, h, k, q),
          ),
      respond-world,
    )

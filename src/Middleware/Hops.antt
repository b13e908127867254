-- ===== src/Middleware/Hops.antt =====
-- A request is answered after at most one redirect.
use percas.Base.{ℕ, ◌≡◌, ◌≢◌, ◌⊎◌, inl, inr, refl, sym, ap, ◌∙◌}
use percas.Text.{Url}
use percas.Bytes.{Mur3}
use percas.Metrics.{operation_labels, status_redirect, count_add}
use percas.Engine.{Foyer}
use percas.Member.{MemberState}
use percas.Gossip.{GossipState}
use percas.Gossip.Invariant.{IsSound}
use percas.Proxy.{RouteDest, local, remote_addr, route}
use percas.Proxy.Route.{Serves, route-agree}
use percas.Server.Data.{Context, Response, temporary_redirect}
use percas.Middleware.{Request, UrlPath, Endpoint, operation_of, forwarded, call}

module _ ⦃f : Foyer⦄ ⦃mur : Mur3⦄ ⦃u : UrlPath⦄ where
  -- The answer that sends a request to a URL, and the count of it.
  abbrev pub redirected : Context → Request → Url → Context × Response
  redirected ctx req url = (
    record ctx {
      log = count_add 1 (operation_labels (operation_of req.method) status_redirect) ctx.log;
    },
    temporary_redirect (u.set_path url req.path),
  )

  pub call-eq :
      (g : GossipState) (endpoint : Endpoint) (ctx : Context) (req : Request) (r : RouteDest)
      → route g req.key ≡ r
      → call g endpoint ctx req ≡ forwarded endpoint ctx req r
  unfolding call
  call-eq g endpoint ctx req r e = ap (forwarded endpoint ctx req) e

  -- Of two nodes with the same ring and membership, the first sound: the first answers a request itself;
  -- or it redirects it to the data URL of the live member that serves the key, under the request's path,
  -- counts that and leaves the engine, and the second node then answers the request itself if it is that
  -- member, and sends it to the same URL if it is not.
  pub call-cases :
      (g h : GossipState) (endpoint : Endpoint) (ctx ctx' : Context) (req : Request)
      → IsSound g
      → h.ring ≡ g.ring
      → h.membership ≡ g.membership
      → (call g endpoint ctx req ≡ endpoint ctx req)
        ⊎ ((id : ℕ) × (target : MemberState) × Serves g req.key id target
            × (call g endpoint ctx req ≡ redirected ctx req target.info.advertise_data_url)
            × (((h.current_node.node_id ≡ id) × (call h endpoint ctx' req ≡ endpoint ctx' req))
                ⊎ ((h.current_node.node_id ≢ id)
                    × (call h endpoint ctx' req
                        ≡ redirected ctx' req target.info.advertise_data_url))))
  call-cases g h endpoint ctx ctx' req s r m = go (route g req.key) refl
    where
      Cases : Type 0
      Cases =
          (call g endpoint ctx req ≡ endpoint ctx req)
          ⊎ ((id : ℕ) × (target : MemberState) × Serves g req.key id target
              × (call g endpoint ctx req ≡ redirected ctx req target.info.advertise_data_url)
              × (((h.current_node.node_id ≡ id) × (call h endpoint ctx' req ≡ endpoint ctx' req))
                  ⊎ ((h.current_node.node_id ≢ id)
                      × (call h endpoint ctx' req
                          ≡ redirected ctx' req target.info.advertise_data_url))))

      go : (dest : RouteDest) → route g req.key ≡ dest → Cases
      go local e = inl (call-eq g endpoint ctx req local e)
      go (remote_addr url) e =
          let (id, target, v, same, answer) = route-agree g h req.key url s r m e in
          inr (
            id,
            target,
            v,
            call-eq g endpoint ctx req (remote_addr url) e ∙ ap (redirected ctx req) (sym same),
            elim answer [
              | inl own ↦ inl (own.0, call-eq h endpoint ctx' req local own.1)
              | inr other ↦ inr (
                other.0,
                call-eq h endpoint ctx' req (remote_addr url) other.1
                    ∙ ap (redirected ctx' req) (sym same),
              )
            ],
          )

-- ===== src/Middleware.antt =====
-- crates/server/src/middleware.rs: the middleware that sends a request to the node that owns its key.
pub mod Hops
pub mod Limit
use percas.Base.{ℕ, List, [], ◌∷◌, Option, none, some, if◌then◌else◌}
use percas.Text.{String, Url, str_eq}
use percas.Bytes.{Mur3}
use percas.Metrics.{
  operation_labels, operation_get, operation_put, operation_delete, operation_unknown,
  status_redirect, count_add,
}
use percas.Engine.{Foyer}
use percas.Gossip.{GossipState}
use percas.Proxy.{RouteDest, local, remote_addr, route}
use percas.Server.Data.{
  Context, Response, Body, get_not_found, temporary_redirect, get, put, delete,
}

-- A request: its method, its path, the bytes of the key in it, and its body, which may fail to arrive.
-- The route has one parameter, so that `path_params` finds the key.
pub record Request : Type 0 where
  pub method : String
  pub path : String
  pub key : List ℕ
  pub body : Option (List ℕ)

-- `Url::set_path` of the crate `url`.
pub record UrlPath : Type 0 where
  pub set_path : Url → String → Url

abbrev pub operation_of : String → String
operation_of method =
    if str_eq method "GET"
    then operation_get
    else if str_eq method "PUT"
    then operation_put
    else if str_eq method "DELETE"
    then operation_delete
    else operation_unknown

module _ ⦃f : Foyer⦄ ⦃m : Mur3⦄ ⦃u : UrlPath⦄ where
  -- What the endpoint behind the middleware does with a request.
  abbrev pub Endpoint : Type 0
  Endpoint = Context → Request → Context × Response

  abbrev pub forwarded : Endpoint → Context → Request → RouteDest → Context × Response
  forwarded endpoint ctx req local = endpoint ctx req
  forwarded endpoint ctx req (remote_addr url) = (
    record ctx {
      log = count_add 1 (operation_labels (operation_of req.method) status_redirect) ctx.log;
    },
    temporary_redirect (u.set_path url req.path),
  )

  unfoldable pub call : GossipState → Endpoint → Context → Request → Context × Response
  unfolding route
  call proxy endpoint ctx req = forwarded endpoint ctx req (route proxy req.key)

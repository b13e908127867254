-- ===== src/Client/Served.antt =====
-- What a client makes of the answers of the data server, crates/server/src/server.rs.
use percas.Base.{ℕ, List, [], Option, none, some, true, Result, ok, err, ◌≡◌, refl}
use percas.Text.{String, Url}
use percas.Ord.{nat_ord}
use percas.Bytes.{AsRef, Mur3}
use percas.BTreeMap.{keys}
use percas.Ring
use percas.Gossip.{GossipState}
use percas.Gossip.Invariant.{IsSound}
use percas.Proxy.{is_alive}
use percas.Engine.{Foyer, get as engine_get}
use percas.Server.Data.{Context, Response, Body, empty, status_text, octets, get, put, delete, got}
use percas.Middleware.{Request, UrlPath, Endpoint, call}
use percas.Client.{
  Client, Error, opaque, Method, Reqwest, Network, Response as Received, route,
  update_route_table_if_needed,
}
use percas.Client.Calls.{get_answer, put_answer, delete_answer, get as client_get}
use percas.Client.Route.{lookup}
use percas.Client.Route.Lookup.{table}
use percas.Client.Direct.{call-direct}

-- The bytes of a body; `text` are those of the text of a status.
abbrev pub bytes_of : (ℕ → List ℕ) → ℕ → Body → List ℕ
bytes_of text status empty = []
bytes_of text status status_text = text status
bytes_of text status (octets body) = body

-- A response that HTTP delivers.
abbrev pub delivered : (ℕ → List ℕ) → Response → Option Received
delivered text response = some (record {
  status = response.status;
  bytes = some (bytes_of text response.status response.body);
})

abbrev pub stored : Option (List ℕ) → Result (Unit {0}) Error
stored none = err opaque
stored (some bytes) = ok tt

module _ ⦃f : Foyer⦄ ⦃r : Reqwest⦄ where
  got-answer :
      (text : ℕ → List ℕ) (elapsed : ℕ) (log : List percas.Metrics.Measurement)
      (found : f.Cache × Option (List ℕ))
      → get_answer (delivered text (got elapsed log found).1) ≡ ok found.1
  unfolding get_answer
  got-answer text elapsed log (cache, none) = refl
  got-answer text elapsed log (cache, some value) = refl

  -- Where HTTP delivers the status and the body of each answer of the data server, the client makes of a get
  -- what the engine found, of a put `Ok` if the body arrived at the server and an opaque error if not, and of
  -- a delete `Ok`.
  pub answers-served :
      (text : ℕ → List ℕ) (elapsed : ℕ) (ctx : Context) (key : List ℕ) (body : Option (List ℕ))
      → (get_answer (delivered text (get elapsed ctx key).1) ≡ ok (engine_get ctx.engine key).1)
        × (put_answer (delivered text (put elapsed ctx key body).1) ≡ stored body)
        × (delete_answer (delivered text (delete elapsed ctx key).1) ≡ ok tt)
  unfolding get put delete put_answer delete_answer
  answers-served text elapsed ctx key none =
      (got-answer text elapsed ctx.log (engine_get ctx.engine key), refl, refl)
  answers-served text elapsed ctx key (some bytes) =
      (got-answer text elapsed ctx.log (engine_get ctx.engine key), refl, refl)

module _ ⦃a : AsRef ℕ⦄ ⦃mur : Mur3⦄ ⦃f : Foyer⦄ ⦃u : UrlPath⦄ ⦃r : Reqwest⦄ where
  abbrev pub get_endpoint : ℕ → Endpoint
  get_endpoint elapsed ctx req = get elapsed ctx req.key

  -- The table of a client was made of the members of a sound node, whose ring is made of its members, and
  -- is not refreshed by the call. It sends the key to a live member, which has the same ring and membership.
  -- Where the URL of the member and the key make a URL, and the network brings the member's answer to a
  -- request there, the client gets what the engine of the member found.
  pub get-direct :
      (g h : GossipState) (ctx : Context) (req : Request) (id : ℕ) (url to : Url)
      (text : ℕ → List ℕ) (elapsed now later : ℕ) (network : Network) (c : Client) (key : String)
      → IsSound g
      → g.ring ≡ Ring.from (keys g.membership.members)
      → lookup (table g) req.key ≡ some (id, url)
      → is_alive g.membership id ≡ true
      → h.ring ≡ g.ring
      → h.membership ≡ g.membership
      → h.current_node.node_id ≡ id
      → r.as_bytes key ≡ req.key
      → c.route_table ≡ some (table g)
      → update_route_table_if_needed network now later c ≡ (c, ok tt)
      → r.join url key ≡ some to
      → network (record { method = Method.get; url = to; body = [] })
        ≡ delivered text (call h (get_endpoint elapsed) ctx req).1
      → client_get network now later c key ≡ (c, ok (engine_get ctx.engine req.key).1)
  unfolding client_get route
  get-direct g h ctx req id url to text elapsed now later network c key s made e alive same_ring
        same_members own bytes has_table fresh joins answers =
      let (at_url, direct) =
        call-direct g h (get_endpoint elapsed) ctx req id url s made e alive same_ring same_members
          own in
      let routed : route c key ≡ url = rw (route, has_table, bytes, e) refl in
      let answer : get_answer (network (record { method = Method.get; url = to; body = [] }))
          ≡ ok (engine_get ctx.engine req.key).1 =
        rw (answers, direct) (answers-served text elapsed ctx req.key none).0 in
      rw (client_get, fresh, routed, joins, answer) refl

-- ===== src/Client.antt =====
-- client/src/client.rs: the client of a cluster. The crate `reqwest` with its URLs and its JSON is a
-- parameter; a call takes the responses of the network as a function of the requests, and the reading
-- of the clock in nanoseconds.
pub mod Route
pub mod Calls
pub mod Direct
pub mod Served
use percas.Base.{
  ℕ, ◌+◌, ◌-◌, ◌*◌, List, [], ◌∷◌, Option, none, some, Bool, true, false, if◌then◌else◌, ltb, leb,
  ◌==◌, ◌||◌, Result, ok, err, Outcome, returned, panicked, and_then,
}
use percas.Text.{String, Url}
use percas.Bytes.{Mur3}
use percas.Client.Route.{RouteTable, lookup, insert, default}

-- client/src/lib.rs: the message of an opaque error is not kept.
pub data Error : Type 0 where
  too_many_requests opaque : Error

-- The fields that the client reads of a member in the answer to `/members`.
pub record Member : Type 0 where
  pub node_id : ℕ
  pub advertise_data_url : Url
  pub advertise_ctrl_url : Url
  pub incarnation : ℕ
  pub vnodes : List ℕ

pub data Method : Type 0 where
  get put delete : Method

pub record Request : Type 0 where
  pub method : Method
  pub url : Url
  pub body : List ℕ

-- A response: its status and its body, which may fail to arrive.
pub record Response : Type 0 where
  pub status : ℕ
  pub bytes : Option (List ℕ)

-- `reqwest`: URLs, the JSON of the answer to `/members`, and the client that its builder makes without
-- proxies and with two redirects at most. `none` is an error.
pub record Reqwest : Type 1 where
  pub parse : String → Option Url
  pub join : Url → String → Option Url
  pub list_members_response : List ℕ → Option (List Member)
  pub as_bytes : String → List ℕ
  pub HttpClient : Type 0
  pub default_client : Option HttpClient

abbrev pub update_route_table_interval : ℕ
update_route_table_interval = 10 * 1_000_000_000

pub record Client : Type 0 where
  pub data_url : Url
  pub ctrl_url : Url
  pub last_updated : ℕ
  pub route_table : Option RouteTable

module _ ⦃r : Reqwest⦄ where
  pub record ClientBuilder : Type 0 where
    pub data_url : String
    pub ctrl_url : String
    pub client : Option r.HttpClient

  unfoldable pub new : String → String → ClientBuilder
  new data_url ctrl_url = record { data_url = data_url; ctrl_url = ctrl_url; client = none }

  unfoldable pub http_client : r.HttpClient → ClientBuilder → ClientBuilder
  http_client client b = record b { client = some client }

  -- The client that was set, else a default one; `none` is an error of its builder.
  unfoldable pub chosen_client : Option r.HttpClient → Option r.HttpClient
  chosen_client (some client) = some client
  chosen_client none = r.default_client

  -- The HTTP client itself is not kept: the calls take the network that it reaches.
  -- `now - UPDATE_ROUTE_TABLE_INTERVAL - 1s` panics where the clock has no instant so early.
  unfoldable pub build : ℕ → ClientBuilder → Outcome (Result Client Error)
  unfolding chosen_client
  build now b = elim (r.parse b.data_url) [
    | none ↦ returned (err opaque)
    | some data_url ↦ elim (r.parse b.ctrl_url) [
      | none ↦ returned (err opaque)
      | some ctrl_url ↦ elim (chosen_client b.client) [
        | none ↦ returned (err opaque)
        | some client ↦
            if ltb now (update_route_table_interval + 1_000_000_000)
            then panicked
            else returned (
                ok (record {
                  data_url = data_url;
                  ctrl_url = ctrl_url;
                  last_updated = now - update_route_table_interval - 1_000_000_000;
                  route_table = none;
                }))
      ]
    ]
  ]

-- The two loops of `update_route_table_if_needed`.
unfoldable pub insert_vnodes : RouteTable → ℕ → Url → List ℕ → RouteTable
insert_vnodes t node_id url [] = t
insert_vnodes t node_id url (vnode ∷ rest) =
    insert_vnodes (insert t vnode node_id url) node_id url rest

unfoldable pub insert_members : RouteTable → List Member → RouteTable
unfolding insert_vnodes
insert_members t [] = t
insert_members t (member ∷ rest) =
    insert_members (insert_vnodes t member.node_id member.advertise_data_url member.vnodes) rest

-- What the network does with a request.
abbrev pub Network : Type 0
Network = Request → Option Response

module _ ⦃r : Reqwest⦄ ⦃m : Mur3⦄ where
  unfoldable pub route : Client → String → Url
  route c key = elim (and_then c.route_table (λ t. lookup t (r.as_bytes key))) [
    | some (id, url) ↦ url
    | none ↦ c.data_url
  ]

module _ ⦃r : Reqwest⦄ where
  -- The answer to `/members`, by its status.
  unfoldable pub members_of : Option Response → Result (List Member) Error
  members_of none = err opaque
  members_of (some response) =
      if response.status == 200
      then elim (and_then response.bytes r.list_members_response) [
        | none ↦ err opaque
        | some members ↦ ok members
      ]
      else if response.status == 429
      then err too_many_requests
      else err opaque

  -- `now` is read twice, first for the time that has elapsed, then for `last_updated`.
  unfoldable pub update_route_table_if_needed :
      Network → ℕ → ℕ → Client → Client × Result (Unit {0}) Error
  unfolding members_of insert_members default
  update_route_table_if_needed network now later c = elim (r.join c.ctrl_url "members") [
    | none ↦ (c, err opaque)
    | some url ↦
        if ltb update_route_table_interval (now - c.last_updated)
        then elim (members_of (network (record { method = get; url = url; body = [] }))) [
          | err e ↦ (c, err e)
          | ok members ↦ (
            record c { route_table = some (insert_members default members); last_updated = later },
            ok tt,
          )
        ]
        else (c, ok tt)
  ]

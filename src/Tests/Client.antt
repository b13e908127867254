-- ===== src/Tests/Client.antt =====
-- The client, the middleware and a restart, on the settled node of the gossip tests.
use percas.Base.{
  ℕ, List, [], ◌∷◌, true, ◌+◌, ◌%◌, ◌^◌, Option, none, some, if◌then◌else◌, ◌≡◌, ◌≢◌, ◌⊎◌, refl, ok,
  Outcome, returned,
}
use percas.Ord.{nat_ord}
use percas.Text.{◌<>◌}
use percas.BTreeMap.{keys}
use percas.Ring
use percas.FileSystem.{FileSystem}
use percas.Config.{node_file_path}
use percas.Node.{NodeInfo, to_persistent}
use percas.Node.Persist.{Stores}
use percas.Member.{MemberState}
use percas.Member.Map.{lookup as member_of}
use percas.Gossip.{GossipState}
use percas.Gossip.Run.{start_here}
use percas.Engine.{Foyer}
use percas.Proxy.Route.{Serves}
use percas.Server.Data.{Context, get_not_found}
use percas.Server.Start.{current_node, current_node-Reach}
use percas.Middleware.{Request, UrlPath, Endpoint, call}
use percas.Middleware.Hops.{redirected, call-cases}
use percas.Client.Route.{lookup}
use percas.Text.{str_eq}
use percas.Client.{Client, Method, Reqwest, Network, update_route_table_if_needed}
use percas.Client.Calls.{get_answer, put_answer, delete_answer, get as client_get}
use percas.Engine.{get as engine_get}
use percas.Server.Data.{get as data_get, put, delete}
use percas.Client.Served.{delivered, stored, get_endpoint, answers-served, get-direct}
use percas.Proxy.{is_alive}
use percas.Client.Route.Lookup.{table, lookup-table}
use percas.Tests.Params.{toy_mur3, nat_as_ref, toy_json, toy_jiff}
use percas.Tests.Member.{peer}
use percas.Tests.Gossip.{started, started-Inv, settled, settled-IsSound}

-- A node whose ring has just been made of its members.
abbrev rebuilt : GossipState
rebuilt = record settled.state { ring = Ring.from (keys settled.state.membership.members) }

lookup-table_example :
    ((lookup (table rebuilt) (4 ∷ 0 ∷ 0 ∷ 0 ∷ 0 ∷ []) ≡ none)
      × (Ring.lookup rebuilt.ring (4 ∷ 0 ∷ 0 ∷ 0 ∷ 0 ∷ []) ≡ none))
    ⊎ ((id : ℕ) × (s : MemberState) × (member_of rebuilt.membership id ≡ some s)
        × (lookup (table rebuilt) (4 ∷ 0 ∷ 0 ∷ 0 ∷ 0 ∷ []) ≡ some (id, s.info.advertise_data_url))
        × (Ring.lookup rebuilt.ring (4 ∷ 0 ∷ 0 ∷ 0 ∷ 0 ∷ []) ≡ some id))
lookup-table_example = lookup-table rebuilt (4 ∷ 0 ∷ 0 ∷ 0 ∷ 0 ∷ []) settled-IsSound.keyed refl

-- A cache that keeps the last entry.
instance abbrev last_entry : Foyer
last_entry = record {
  Cache = Option (List ℕ);
  get = λ c k. (c, ok c);
  insert = λ c k v. some v;
  remove = λ c k. none;
}

instance abbrev toy_path : UrlPath
toy_path = record { set_path = λ url path. url <> path }

abbrev silent : Endpoint
silent ctx req = (ctx, get_not_found)

abbrev context : Context
context = record { engine = some (1 ∷ []); log = [] }

abbrev request : Request
request = record { method = "GET"; path = "k"; key = 4 ∷ 0 ∷ 0 ∷ 0 ∷ 0 ∷ []; body = some [] }

abbrev other_node : GossipState
other_node = record settled.state { current_node = peer }

call-cases_example :
    (call settled.state silent context request ≡ silent context request)
    ⊎ ((id : ℕ) × (target : MemberState) × Serves settled.state request.key id target
        × (call settled.state silent context request
            ≡ redirected context request target.info.advertise_data_url)
        × (((other_node.current_node.node_id ≡ id)
              × (call other_node silent context request ≡ silent context request))
            ⊎ ((other_node.current_node.node_id ≢ id)
                × (call other_node silent context request
                    ≡ redirected context request target.info.advertise_data_url))))
call-cases_example =
    call-cases settled.state other_node silent context context request settled-IsSound refl refl

abbrev restarted : FileSystem × Outcome NodeInfo
restarted = current_node started.files "d" 9 "other" "http://x/" "http://y/"

abbrev resumed_node : NodeInfo
resumed_node = record started.state.current_node {
  advertise_data_url = "http://x/";
  advertise_ctrl_url = "http://y/";
  incarnation = 1;
}

resumes :
    current_node started.files "d" 9 "other" "http://x/" "http://y/"
    ≡ (restarted.0, returned resumed_node)
unfolding current_node node_file_path percas.Gossip.new
resumes = refl

current_node-Reach_example :
    (resumed_node ≡ record started.state.current_node {
      advertise_data_url = "http://x/";
      advertise_ctrl_url = "http://y/";
      incarnation = (started.state.current_node.incarnation + 1) % 2 ^ 64;
    })
    × Stores restarted.0 (node_file_path "d") (to_persistent resumed_node)
unfolding percas.Node.persist
current_node-Reach_example =
    current_node-Reach "d" 1 9 "other" "http://x/" "http://y/" restarted.0 resumed_node started-Inv
      start_here refl resumes

-- The peer, which knows what the node knows.
abbrev serving : GossipState
serving = record rebuilt { current_node = peer }

owned : lookup (table rebuilt) request.key ≡ some (3, "http://b/")
unfolding lookup percas.BTreeMap.range_from table percas.Client.insert_members
    percas.Server.list_members percas.Gossip.Tasks.rebuild_ring percas.Gossip.handle_message
    percas.Member.is_dead percas.BTreeMap.get percas.Member.update_member percas.Member.update_all
    percas.Gossip.new percas.Member.default percas.BTreeMap.insert percas.Gossip.advance_incarnation
    percas.Node.persist percas.Client.Route.Agree.decoded percas.Bytes.to_le_bytes
    percas.Client.Route.default percas.Client.Route.insert percas.Client.insert_vnodes Ring.add_node
    Ring.add_nodes Ring.add_vnodes Ring.default Ring.from Ring.hash_node Ring.insert_at
    Ring.list_vnodes Ring.range percas.Server.listed
owned = refl

peer_lives : is_alive rebuilt.membership 3 ≡ true
unfolding is_alive percas.BTreeMap.get percas.Gossip.Tasks.rebuild_ring percas.Gossip.handle_message
    percas.Member.is_dead percas.Member.update_member percas.Member.update_all percas.Gossip.new
    percas.Member.default percas.BTreeMap.insert percas.Gossip.advance_incarnation
    percas.Node.persist
peer_lives = refl

-- URLs and bodies of the tests.
instance abbrev toy_reqwest : Reqwest
toy_reqwest = record {
  parse = some;
  join = λ url name. some (url <> name);
  list_members_response = λ bytes. none;
  as_bytes = λ key. 4 ∷ 0 ∷ 0 ∷ 0 ∷ 0 ∷ [];
  HttpClient = Unit {0};
  default_client = some tt;
}

abbrev client : Client
client = record {
  data_url = "http://a/";
  ctrl_url = "http://a:1/";
  last_updated = 0;
  route_table = some (table rebuilt);
}

-- The peer is there, with one entry in its cache.
abbrev to_peer : Network
to_peer sent =
    if str_eq sent.url "http://b/k"
    then delivered (λ status. []) (call serving (get_endpoint 7) context request).1
    else none

still_fresh : update_route_table_if_needed to_peer 1 2 client ≡ (client, ok tt)
unfolding update_route_table_if_needed
still_fresh = refl

reached :
    to_peer (record { method = Method.get; url = "http://b/k"; body = [] })
    ≡ delivered (λ status. []) (call serving (get_endpoint 7) context request).1
reached = refl

get-direct_example :
    client_get to_peer 1 2 client "k" ≡ (client, ok (engine_get context.engine request.key).1)
unfolding percas.Gossip.Tasks.rebuild_ring percas.Gossip.handle_message percas.Member.update_member
    percas.Member.is_dead Ring.from percas.BTreeMap.get percas.Member.update_all percas.Gossip.new
    percas.Member.default percas.BTreeMap.insert percas.Gossip.advance_incarnation
    percas.Node.persist
get-direct_example =
    get-direct rebuilt serving context request 3 "http://b/" "http://b/k" (λ status. []) 7 1 2
      to_peer client "k" settled-IsSound refl owned peer_lives refl refl refl refl refl still_fresh
      refl reached

answers-served_example :
    (get_answer (delivered (λ status. []) (data_get 7 context (9 ∷ [])).1)
      ≡ ok (engine_get context.engine (9 ∷ [])).1)
    × (put_answer (delivered (λ status. []) (put 7 context (9 ∷ []) none).1) ≡ stored none)
    × (delete_answer (delivered (λ status. []) (delete 7 context (9 ∷ [])).1) ≡ ok tt)
answers-served_example = answers-served (λ status. []) 7 context (9 ∷ []) none

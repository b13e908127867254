-- ===== src/Server/Listen.antt =====
-- crates/server/src/server.rs: `make_acceptor_and_advertise_url`, and the process that a start changes. The
-- network of the machine is a parameter.
pub mod Address
use percas.Base.{
  ℕ, List, [], ◌∷◌, Option, none, some, Bool, true, false, ◌&&◌, ◌==◌, if◌then◌else◌, Result, ok,
  err, returned,
}
use percas.Text.{Url}
use percas.Config.{SocketAddr}
use percas.FileSystem.{FileSystem}
use percas.Exec.{Call, ◌>>=◌, pure, unless_err}

-- `poem::listener::TcpAcceptor`, by its first local address; `none` where that is no socket address.
pub record TcpAcceptor : Type 0 where
  pub local_addr : Option SocketAddr

-- What a node runs: the two HTTP servers, the loops of the gossip and the report of the metrics.
pub data Service : Type 0 where
  gossip_server ping_task anti_entropy_task rebuild_ring_task remove_dead_members_task : Service
  data_server report_metrics : Service

-- What a start has done so far, the last first: the listeners bound, the services spawned, whether the
-- handler of ctrl-c is set; and of a shutdown, the services that were told to stop and those waited for.
pub record Process : Type 0 where
  pub files : FileSystem
  pub bound : List TcpAcceptor
  pub spawned : List Service
  pub handler : Bool
  pub stopped : List Service
  pub joined : List Service

-- `TcpListener::bind` given the listeners that are bound already, `local_ip_address::local_ip`, and
-- `Url::parse` of `http://` and an address; `none` is an error.
pub record Network : Type 0 where
  pub bind : List TcpAcceptor → SocketAddr → Option TcpAcceptor
  pub local_ip : Option (List ℕ)
  pub parse_http : SocketAddr → Option Url

-- The errors of `make_acceptor_and_advertise_url`.
pub data ListenError : Type 0 where
  not_bound addr_not_available no_local_ip invalid_input : ListenError

-- `IpAddr::is_unspecified`.
unfoldable pub is_unspecified : List ℕ → Bool
is_unspecified [] = true
is_unspecified (octet ∷ rest) = (octet == 0) && is_unspecified rest

module _ ⦃n : Network⦄ where
  unfoldable pub bind : SocketAddr → Call Process (Result TcpAcceptor ListenError)
  bind addr s = elim (n.bind s.bound addr) [
    | none ↦ (s, returned (err not_bound))
    | some acceptor ↦ (record s { bound = acceptor ∷ s.bound }, returned (ok acceptor))
  ]

  abbrev pub at_local : ℕ → Option (List ℕ) → Result SocketAddr ListenError
  at_local port none = err no_local_ip
  at_local port (some ip) = ok (record { octets = ip; port = port })

  -- The address to advertise for a listener at an address.
  unfoldable pub advertise_addr : SocketAddr → Option SocketAddr → Result SocketAddr ListenError
  unfolding is_unspecified
  advertise_addr listen_addr (some addr) = ok addr
  advertise_addr listen_addr none =
      if is_unspecified listen_addr.octets
      then at_local listen_addr.port n.local_ip
      else ok listen_addr

  abbrev pub with_url : TcpAcceptor → Option Url → Result (TcpAcceptor × Url) ListenError
  with_url acceptor none = err invalid_input
  with_url acceptor (some url) = ok (acceptor, url)

  abbrev pub at_addr :
      TcpAcceptor → Result SocketAddr ListenError → Result (TcpAcceptor × Url) ListenError
  at_addr acceptor (err e) = err e
  at_addr acceptor (ok addr) = with_url acceptor (n.parse_http addr)

  abbrev pub advertised :
      Option SocketAddr → TcpAcceptor → Option SocketAddr → Result (TcpAcceptor × Url) ListenError
  advertised advertise acceptor none = err addr_not_available
  advertised advertise acceptor (some listen_addr) =
      at_addr acceptor (advertise_addr listen_addr advertise)

  unfoldable pub make_acceptor_and_advertise_url :
      SocketAddr → Option SocketAddr → Call Process (Result (TcpAcceptor × Url) ListenError)
  unfolding bind advertise_addr
  make_acceptor_and_advertise_url listen_addr advertise =
      bind listen_addr
      >>= unless_err (λ acceptor. pure (advertised advertise acceptor acceptor.local_addr))

-- ===== src/Server/Listen/Address.antt =====
-- Which address a node advertises.
use percas.Base.{
  ℕ, List, ◌∷◌, Option, none, some, false, Result, ok, err, returned, ◌≡◌, ◌⊎◌, inl, inr, refl, ap,
  sym, Bool-cases, Option-cases, ok-injective, ok-ne-err, returned-injective, returned-injective,
}
use percas.Text.{Url}
use percas.Config.{SocketAddr}
use percas.Server.Listen.{
  TcpAcceptor, Process, Network, ListenError, is_unspecified, advertise_addr, with_url, advertised,
  bind, at_local, at_addr, make_acceptor_and_advertise_url,
}

module _ ⦃n : Network⦄ where
  -- An address at which other nodes can reach the listener, unless it was configured.
  pub record IsReachable (listen_addr addr : SocketAddr) : Type 0 where
    pub port : addr.port ≡ listen_addr.port
    pub specified : is_unspecified addr.octets ≡ false

  -- What a new URL stands for: the configured address, or one at which the listener is reachable.
  pub record Stands (listen_addr : SocketAddr) (advertise : Option SocketAddr) (url : Url)
      : Type 0 where
    pub addr : SocketAddr
    pub parsed : n.parse_http addr ≡ some url
    pub chosen : (advertise ≡ some addr) ⊎ IsReachable listen_addr addr

  local-IsReachable :
      (listen_addr addr : SocketAddr) (o : Option (List ℕ))
      → ((ip : List ℕ) → o ≡ some ip → is_unspecified ip ≡ false)
      → at_local listen_addr.port o ≡ ok addr
      → IsReachable listen_addr addr
  local-IsReachable listen_addr addr none local e = absurd (ok-ne-err (sym e))
  local-IsReachable listen_addr addr (some ip) local e =
      rw (← ok-injective e) (record { port = refl; specified = local ip refl })

  advertise_addr-cases :
      (listen_addr addr : SocketAddr) (advertise : Option SocketAddr)
      → ((ip : List ℕ) → n.local_ip ≡ some ip → is_unspecified ip ≡ false)
      → advertise_addr listen_addr advertise ≡ ok addr
      → (advertise ≡ some addr) ⊎ IsReachable listen_addr addr
  unfolding advertise_addr
  advertise_addr-cases listen_addr addr (some given) local e = inl (ap some (ok-injective e))
  advertise_addr-cases listen_addr addr none local e =
      elim (Bool-cases (is_unspecified listen_addr.octets)) [
        | inl u ↦ inr (local-IsReachable listen_addr addr n.local_ip local (rw u at e))
        | inr u ↦ inr (rw (← ok-injective (rw u at e)) (record { port = refl; specified = u }))
      ]

  some-of_with_url :
      (bound acceptor : TcpAcceptor) (url : Url) (o : Option Url)
      → with_url bound o ≡ ok (acceptor, url)
      → o ≡ some url
  some-of_with_url bound acceptor url none e = absurd (ok-ne-err (sym e))
  some-of_with_url bound acceptor url (some found) e = ap some (ap (λ p. p.1) (ok-injective e))

  advertised-Stands :
      (advertise : Option SocketAddr) (bound acceptor : TcpAcceptor) (listen_addr : SocketAddr)
      (url : Url) (r : Result SocketAddr ListenError)
      → ((ip : List ℕ) → n.local_ip ≡ some ip → is_unspecified ip ≡ false)
      → advertise_addr listen_addr advertise ≡ r
      → at_addr bound r ≡ ok (acceptor, url)
      → Stands listen_addr advertise url
  advertised-Stands advertise bound acceptor listen_addr url (err x) local er e =
      absurd (ok-ne-err (sym e))
  advertised-Stands advertise bound acceptor listen_addr url (ok addr) local er e = record {
    addr = addr;
    parsed = some-of_with_url bound acceptor url (n.parse_http addr) e;
    chosen = advertise_addr-cases listen_addr addr advertise local er;
  }

  same_acceptor :
      (bound acceptor : TcpAcceptor) (url : Url) (o : Option Url)
      → with_url bound o ≡ ok (acceptor, url)
      → bound ≡ acceptor
  same_acceptor bound acceptor url none e = absurd (ok-ne-err (sym e))
  same_acceptor bound acceptor url (some found) e = ap (λ p. p.0) (ok-injective e)

  same_at_addr :
      (bound acceptor : TcpAcceptor) (url : Url) (r : Result SocketAddr ListenError)
      → at_addr bound r ≡ ok (acceptor, url)
      → bound ≡ acceptor
  same_at_addr bound acceptor url (err x) e = absurd (ok-ne-err (sym e))
  same_at_addr bound acceptor url (ok addr) e =
      same_acceptor bound acceptor url (n.parse_http addr) e

  acceptor-Stands :
      (advertise : Option SocketAddr) (bound acceptor : TcpAcceptor) (url : Url)
      (o : Option SocketAddr)
      → ((ip : List ℕ) → n.local_ip ≡ some ip → is_unspecified ip ≡ false)
      → advertised advertise bound o ≡ ok (acceptor, url)
      → (bound ≡ acceptor) × ((local : SocketAddr) × (o ≡ some local) × Stands local advertise url)
  acceptor-Stands advertise bound acceptor url none local e = absurd (ok-ne-err (sym e))
  acceptor-Stands advertise bound acceptor url (some at) local e = (
    same_at_addr bound acceptor url (advertise_addr at advertise) e,
    (
      at,
      refl,
      advertised-Stands advertise bound acceptor at url (advertise_addr at advertise) local refl e,
    ),
  )

  -- Where the local IP address of the machine, if it is known, is not the unspecified one: a listener and a
  -- URL that `make_acceptor_and_advertise_url` returns belong together. The listener is bound, and the URL is
  -- that of the configured address or, without one, of a specified address with the port of the listener.
  pub make_acceptor-Stands :
      (listen_addr : SocketAddr) (advertise : Option SocketAddr) (s s' : Process)
      (acceptor : TcpAcceptor) (url : Url)
      → ((ip : List ℕ) → n.local_ip ≡ some ip → is_unspecified ip ≡ false)
      → make_acceptor_and_advertise_url listen_addr advertise s
        ≡ (s', returned (ok (acceptor, url)))
      → (s' ≡ record s { bound = acceptor ∷ s.bound })
        × ((local : SocketAddr) × (acceptor.local_addr ≡ some local) × Stands local advertise url)
  unfolding make_acceptor_and_advertise_url bind
  make_acceptor-Stands listen_addr advertise s s' acceptor url local e =
      elim (Option-cases (n.bind s.bound listen_addr)) [
        | inl b ↦ absurd (ok-ne-err (sym (returned-injective (ap (λ p. p.1) (rw (b, bind) at e)))))
        | inr (bound, b) ↦
            let f = rw (b, bind) at e in
            let (same, stands) =
              acceptor-Stands advertise bound acceptor url bound.local_addr local
                (returned-injective (ap (λ p. p.1) f)) in
            rw (← same) (sym (ap (λ p. p.0) f), stands)
      ]

-- ===== src/Store/Transport.antt =====
-- server/store/transport.go and tcp_transport.go: the network of raft, over the node's listener. The
-- listener and the dialling are libraries' calls, in a world `W`; `C` are connections, `A` addresses
-- and `T` configurations of TLS.
use casbin_mesh.Prelude.{Str, ◌≡◌, refl, Option, none, some, ℤ}
use casbin_mesh.Result.{Error, Result}

-- `net.Listener`
pub record NetListener (W C A : Type 0) : Type 0 where
  pub accept : W → W × Result C
  pub close : W → W × Option Error
  pub addr : W → A

-- `net.Dialer`, and `tls.DialWithDialer`, with a timeout and an address.
pub record Dialer (W C T : Type 0) : Type 0 where
  pub dial : ℤ → Str → W → W × Result C
  pub dial_tls : T → ℤ → Str → W → W × Result C

-- The interface `Listener` of the store.
pub record Listener (W C A : Type 0) : Type 0 where
  pub accept : W → W × Result C
  pub close : W → W × Option Error
  pub addr : W → A
  pub dial : Str → ℤ → W → W × Result C

-- `ln` may be nil.
pub record TcpTransport (W C A T : Type 0) : Type 0 where
  pub ln : Option (NetListener W C A)
  pub adv_addr : A
  pub client_tls_config : Option T

-- `NewTransport`, whose methods are the listener's.
unfoldable pub new_transport : {W C A : Type 0} → Listener W C A → Listener W C A
new_transport ln = record { accept = ln.accept; close = ln.close; addr = ln.addr; dial = ln.dial }

module _ {W C A T : Type 0} where
  unfoldable pub new_transport_from_listener :
      NetListener W C A → Option T → W → TcpTransport W C A T
  new_transport_from_listener ln client_tls_config w = record {
    ln = some ln;
    adv_addr = ln.addr w;
    client_tls_config = client_tls_config;
  }

  unfoldable pub tcp_dial : Dialer W C T → TcpTransport W C A T → Str → ℤ → W → W × Result C
  tcp_dial d t addr timeout w = elim t.client_tls_config [
    | none ↦ d.dial timeout addr w
    | some config ↦ d.dial_tls config timeout addr w
  ]

  unfoldable pub tcp_close : TcpTransport W C A T → W → W × Option Error
  tcp_close t w = elim t.ln [ none ↦ (w, none) | some ln ↦ ln.close w ]

  -- A `TcpTransport` as the store's `Listener`; the listener accepts, and an error is logged.
  unfoldable pub as_listener :
      Dialer W C T → NetListener W C A → TcpTransport W C A T → Listener W C A
  unfolding tcp_dial tcp_close
  as_listener d ln t = record {
    accept = ln.accept;
    close = tcp_close t;
    addr = λ w. t.adv_addr;
    dial = tcp_dial d t;
  }

  -- The network that raft gets.
  abbrev pub raft_network : Dialer W C T → NetListener W C A → W → Option T → Listener W C A
  raft_network d ln w config =
      new_transport (as_listener d ln (new_transport_from_listener ln config w))

  -- The address of raft's network stays that of the listener when it was made, also once it is closed.
  pub addr-new_transport :
      (d : Dialer W C T) (ln : NetListener W C A) (config : Option T) (w w' : W)
      → (raft_network d ln w config).addr w' ≡ ln.addr w
  unfolding new_transport as_listener new_transport_from_listener
  addr-new_transport d ln config w w' = refl

  -- With a configuration of TLS each connection is made with it, and without one none is.
  pub dial-new_transport :
      (d : Dialer W C T) (ln : NetListener W C A) (config : T) (w w' : W) (addr : Str) (timeout : ℤ)
      → ((raft_network d ln w (some config)).dial addr timeout w'
          ≡ d.dial_tls config timeout addr w')
        × ((raft_network d ln w none).dial addr timeout w' ≡ d.dial timeout addr w')
  unfolding new_transport as_listener new_transport_from_listener
  dial-new_transport d ln config w w' addr timeout = (refl, refl)

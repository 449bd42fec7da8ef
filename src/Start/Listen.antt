-- ===== src/Start/Listen.antt =====
-- server/server.go and server/store/tcp_transport.go: the sockets of a node and their certificates.
-- Sockets, files and certificates are libraries: each call is a field of `Sockets`.
mod Tests
use casbin_mesh.Prelude.{
  subst, ap, ◌∙◌, ℕ, Str, str, Bool, true, false, not, ◌==◌, nat_eq, list_eq, ◌≡◌, refl, Option,
  none, some, List, [], ◌∷◌, ◌++◌, length, suc, zero, ◌+◌, ◌≤◌, arith, if◌then◌else◌, split_byte,
  eq_iff, inl, inr,
}
use casbin_mesh.Result.{Error, Result, Result-cases, ok, err, message, error_text}
use casbin_mesh.Cluster.Listener
use casbin_mesh.Cluster.Listener.{Listener, goroutines, new_listener-fresh}

-- `tls.Config`, of certificates in `C` and pools of authorities in `P`.
pub record TlsConfig (C P : Type 0) : Type 0 where
  pub certificate : C
  pub client_cas : Option P
  pub root_cas : Option P
  pub requires_client_cert : Bool

-- `W` are the sockets that are open, `L` is one of them.
pub record Sockets (W L A C P : Type 0) : Type 0 where
  pub load_x509_key_pair : Str → Str → Result C
  pub read_file : Str → Result Str
  -- `NewCertPool` and `AppendCertsFromPEM`
  pub cert_pool : Str → P
  -- `tls.Listen`, and `net.Listen` without a configuration
  pub listen : Option (TlsConfig C P) → Str → W → W × Result L
  pub resolve_tcp_addr : Str → Result A

length-split_byte : (sep : ℕ) (text : Str) → 1 ≤ length (split_byte sep text)
unfolding split_byte
length-split_byte sep [] = omega arith
length-split_byte sep (c ∷ text) = ground arith

module _ {W L A C P : Type 0} (s : Sockets W L A C P) where
  abbrev with_authority : Bool → C → Result Str → Result (TlsConfig C P)
  with_authority is_server cert (err e) = err e
  with_authority true cert (ok pem) = ok (record {
    certificate = cert;
    client_cas = some (s.cert_pool pem);
    root_cas = none;
    requires_client_cert = false;
  })
  with_authority false cert (ok pem) = ok (record {
    certificate = cert;
    client_cas = none;
    root_cas = some (s.cert_pool pem);
    requires_client_cert = false;
  })

  abbrev with_certificate : Str → Bool → Result C → Result (TlsConfig C P)
  with_certificate ca_file is_server (err e) = err e
  with_certificate ca_file is_server (ok cert) =
      if ca_file == []
      then ok (record {
        certificate = cert;
        client_cas = none;
        root_cas = none;
        requires_client_cert = false;
      })
      else with_authority is_server cert (s.read_file ca_file)

  unfoldable pub create_tls_config : Str → Str → Str → Bool → Result (TlsConfig C P)
  create_tls_config cert_file key_file ca_file is_server =
      with_certificate ca_file is_server (s.load_x509_key_pair cert_file key_file)

  abbrev failing : Str → Error → Error
  failing text e = message (text ++ error_text e)

  abbrev listened : W × Result L → W × Result L
  listened (w, ok l) = (w, ok l)
  listened (w, err e) = (w, err (failing (str "failed to open internode network layer: ") e))

  abbrev secured : Bool → Str → W → Result (TlsConfig C P) → W × Result L
  secured client_auth address w (err e) = (w, err (failing (str "failed to create tls config: ") e))
  secured client_auth address w (ok config) = listened (
      s.listen
        (some (record {
          certificate = config.certificate;
          client_cas = config.client_cas;
          root_cas = config.root_cas;
          requires_client_cert = client_auth;
        }))
        address w)

  -- One round of the loop of `newListener`; `client_auth` is whether clients must show a certificate.
  unfoldable pub open_one : Bool → Str → Str → Str → Bool → Bool → Str → W → W × Result L
  unfolding create_tls_config
  open_one encrypt key_file cert_file ca_file client_auth is_server address w =
      if encrypt
      then secured client_auth address w (create_tls_config cert_file key_file ca_file is_server)
      else listened (s.listen none address w)

  abbrev and_more : (List L → List L) → W × Result (List L) → W × Result (List L)
  and_more f (w, ok ls) = (w, ok (f ls))
  and_more f (w, err e) = (w, err e)

  abbrev after_one : (W → W × Result (List L)) → W × Result L → W × Result (List L)
  after_one rest (w, err e) = (w, err e)
  after_one rest (w, ok l) = and_more (λ ls. l ∷ ls) (rest w)

  -- An error ends the loop and leaves the sockets before it open.
  unfoldable pub open_all : (Str → W → W × Result L) → List Str → W → W × Result (List L)
  open_all one [] w = (w, ok [])
  open_all one (a ∷ addresses) w = after_one (λ w. open_all one addresses w) (one a w)

  abbrev joined : List L → Result (Option A × Listener) → Result (List L × Option A × Listener)
  joined ls (err e) = err e
  joined ls (ok (a, l)) = ok (ls, a, l)

  abbrev bound : Str → W × Result (List L) → W × Result (List L × Option A × Listener)
  bound advertise (w, err e) = (w, err e)
  bound advertise (w, ok ls) =
      (w, joined ls (Listener.new_listener s.resolve_tcp_addr (length ls) advertise))

  unfoldable pub new_listener :
      Str
      → Str
      → Bool
      → Str
      → Str
      → Str
      → Bool
      → Bool
      → W
      → W × Result (List L × Option A × Listener)
  unfolding open_all open_one split_byte Listener.new_listener
  new_listener address advertise encrypt key_file cert_file ca_file client_auth is_server w =
      let addresses = split_byte b',' address in
      if length addresses == 0
      then (w, err (message (str "bind-address cannot empty")))
      else bound advertise
          (open_all (open_one encrypt key_file cert_file ca_file client_auth is_server) addresses w)

  length-and_more :
      (n : ℕ) (l : L) (r : W × Result (List L))
      → ((ls : List L) → r.1 ≡ ok ls → length ls ≡ n)
      → (ls : List L) → (and_more (λ ls. l ∷ ls) r).1 ≡ ok ls
      → length ls ≡ suc n
  length-and_more n l (w, ok rest) count ls h = ground (arith, h, count rest refl)
  length-and_more n l (w, err e) count ls h = ground (arith, h)

  length-after_one :
      (n : ℕ) (rest : W → W × Result (List L)) (r : W × Result L)
      → ((w : W) (ls : List L) → (rest w).1 ≡ ok ls → length ls ≡ n)
      → (ls : List L) → (after_one rest r).1 ≡ ok ls
      → length ls ≡ suc n
  length-after_one n rest (w, ok l) count ls h = length-and_more n l (rest w) (count w) ls h
  length-after_one n rest (w, err e) count ls h = ground (arith, h)

  length-open_all :
      (one : Str → W → W × Result L) (addresses : List Str) (w : W) (ls : List L)
      → (open_all one addresses w).1 ≡ ok ls
      → length ls ≡ length addresses
  unfolding open_all
  length-open_all one [] w ls h = ground (arith, h)
  length-open_all one (a ∷ addresses) w ls h =
      length-after_one (length addresses) (λ w. open_all one addresses w) (one a w)
        (λ w ls h. length-open_all one addresses w ls h) ls h

  joined-same :
      (ls ls' : List L) (a : Option A) (l : Listener) (made : Result (Option A × Listener))
      → joined ls made ≡ ok (ls', a, l)
      → (ls ≡ ls') × (made ≡ ok (a, l))
  joined-same ls ls' a l (ok (a', l')) h = (ground (arith, h), ground (arith, h))
  joined-same ls ls' a l (err e) h = (ground (arith, h), ground (arith, h))

  bound-length :
      (advertise : Str) (n : ℕ) (r : W × Result (List L))
      → ((ls : List L) → r.1 ≡ ok ls → length ls ≡ n)
      → (ls : List L) (a : Option A) (l : Listener) → (bound advertise r).1 ≡ ok (ls, a, l)
      → (length ls ≡ n) × (goroutines l ≡ n)
  bound-length advertise n (w, err e) count ls a l h = (ground (arith, h), ground (arith, h))
  bound-length advertise n (w, ok ls') count ls a l h =
      let (same, made) =
        joined-same ls' ls a l (Listener.new_listener s.resolve_tcp_addr (length ls') advertise)
          h in
      let counted = count ls' refl in
      let started = new_listener-fresh s.resolve_tcp_addr (length ls') advertise a l made in
      (subst (λ ls. length ls ≡ n) same counted, ap goroutines started ∙ omega (arith, counted))

  -- A listener of the node that opens has one socket for each address between the commas, at least
  -- one, and one goroutine for each socket.
  pub new_listener-length :
      (address advertise : Str) (encrypt : Bool) (key_file cert_file ca_file : Str)
      (client_auth is_server : Bool) (w : W) (ls : List L) (a : Option A) (l : Listener)
      → (new_listener address advertise encrypt key_file cert_file ca_file client_auth is_server
          w).1
        ≡ ok (ls, a, l)
      → (length ls ≡ length (split_byte b',' address))
        × (goroutines l ≡ length ls)
        × (1 ≤ length ls)
  unfolding new_listener
  new_listener-length address advertise encrypt key_file cert_file ca_file client_auth is_server w
        ls a l h =
      let addresses = split_byte b',' address in
      let one = open_one encrypt key_file cert_file ca_file client_auth is_server in
      let some_there = length-split_byte b',' address in
      let h' : (bound advertise (open_all one addresses w)).1 ≡ ok (ls, a, l) =
        ground (arith, h, some_there, eq_iff (length addresses) 0) in
      let (count, count') =
        bound-length advertise (length addresses) (open_all one addresses w)
          (λ ls h. length-open_all one addresses w ls h) ls a l h' in
      (count, omega (arith, count, count'), omega (arith, count, some_there))

-- ===== src/Start/Listen/Tests.antt =====
-- Sockets that are their addresses, of which one is taken.
use casbin_mesh.Prelude.{
  ℕ, Str, str, true, false, ◌&&◌, ◌==◌, nat_eq, list_eq, list_beq, ◌≡◌, refl, none, some, List, [],
  ◌∷◌, if◌then◌else◌, split_byte,
}
use casbin_mesh.Result.{Result, ok, err, message, error_text}
use casbin_mesh.Start.Listen.{Sockets, create_tls_config, open_one, open_all, new_listener}

-- The certificate of the file `c` goes with the key of the file `k`.
abbrev loaded : Str → Str → Result ℕ
loaded cert key =
    if cert == str "c" && key == str "k" then ok 1 else err (message (str "no certificate"))

abbrev taken : Str → List Str → List Str × Result Str
taken address w =
    if address == str ":80" then (w, err (message (str "in use"))) else (address ∷ w, ok address)

abbrev sockets : Sockets (List Str) Str Str ℕ Str
sockets = record {
  load_x509_key_pair = loaded;
  read_file = λ name. ok name;
  cert_pool = λ pem. pem;
  listen = λ config address w. taken address w;
  resolve_tcp_addr = λ address. ok address;
}

-- The order in which `Start` passes the files of raft's own certificate.
swapped :
    create_tls_config sockets (str "k") (str "c") [] false ≡ err (message (str "no certificate"))
unfolding create_tls_config list_beq
swapped = refl

secure :
    create_tls_config sockets (str "c") (str "k") (str "ca") false
    ≡ ok (record {
      certificate = 1;
      client_cas = none;
      root_cas = some (str "ca");
      requires_client_cert = false;
    })
unfolding create_tls_config list_beq
secure = refl

-- The second address is taken, and the socket of the first stays open.
left_open :
    new_listener sockets (str ":81,:80") [] false [] [] [] false true []
    ≡ (str ":81" ∷ [], err (message (str "failed to open internode network layer: in use")))
unfolding new_listener open_all open_one list_beq split_byte error_text
left_open = refl

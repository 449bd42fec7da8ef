-- ===== src/Start.antt =====
-- server/server.go: how a node is configured and started. What the start does to the world, from
-- opening a socket to joining a cluster, is an action; a parameter performs it.
mod Config
unfoldable pub use Config.*
pub mod Plan
pub mod Success
pub mod Listen
pub mod Profile
mod Tests
use casbin_mesh.Prelude.{
  ℕ, Str, str, Bool, true, false, not, ◌&&◌, ◌||◌, ◌==◌, nat_eq, list_eq, Option, none, some, List,
  [], ◌∷◌, ◌++◌, ℤ, pos, if◌then◌else◌, split_byte,
}
use casbin_mesh.Result.{Error, Result, ok, err, message, error_text, not_leader, ◌>>=◌}
use casbin_mesh.Dict.{Dict}
use casbin_mesh.Credentials.{AuthType, AuthConfig, basic, noop}

abbrev timeout_is_zero : ℤ → Bool
timeout_is_zero (pos n) = n == 0
timeout_is_zero _ = false

-- What `Start` does, in the order of its text.
pub data Action : Type 0 where
  read_config : Str → Action
  listen_pprof : Str → Action
  start_profile : Str → Str → Action
  listen_http listen_grpc listen_raft : Listening → Action
  -- the files of the key, the certificate and the authority, as `CreateTLSConfig` gets them
  create_tls_config : Str → Str → Str → Action
  add_root : Str → Str → Action
  open_store : Bool → Action
  parse_join_interval read_root_ca : Str → Action
  join_cluster : List Str → Str → Str → Bool → Dict Str → ℤ → AuthConfig → Action
  wait_for_leader wait_for_applied : ℤ → Action
  init_auth : Str → Action
  set_metadata : Dict Str → Action
  start_services : Action

-- `apiAdv := raftAdv`, where nothing is ever assigned to `raftAdv`.
unfoldable pub own_metadata : CmdConfig → Dict Str
own_metadata c =
    (str "api_addr", [])
    ∷ ((str "api_proto", if not (c.x509_cert == []) then str "https" else str "http") ∷ [])

unfoldable pub auth_type_of : CmdConfig → AuthType
auth_type_of c = if c.enable_auth then basic else noop

unfoldable pub advertised : CmdConfig → Str
advertised c = if not (c.raft_adv == []) then c.raft_adv else c.raft_addr

-- A part of the start: it changes the world, and ends with an error or nil.
abbrev pub Run : Type 0 → Type 0
Run W = W → W × Option Error

-- `if err != nil { return err }`, and what follows.
infixl 5 ◌>>◌
abbrev pub next : {W : Type 0} → Run W → W × Option Error → W × Option Error
next k (w, none) = k w
next k (w, some e) = (w, some e)

abbrev pub ◌>>◌ : {W : Type 0} → Run W → Run W → Run W
◌>>◌ m k w = next k (m w)

abbrev renamed : {W : Type 0} → Str → W × Option Error → W × Option Error
renamed text (w, none) = (w, none)
renamed text (w, some e) = (w, some (message (text ++ error_text e)))

-- `fmt.Errorf(text + "%w", err)`
abbrev as_error : {W : Type 0} → Str → Run W → Run W
as_error text m w = renamed text (m w)

module _ {W : Type 0} (perform : Action → Run W) (p : Platform) where
  abbrev when : Bool → Run W → Run W
  when test m w = if test then m w else (w, none)

  -- Without a leader it goes on, unless the configuration asks for one.
  abbrev leader_or_go_on : Bool → W × Option Error → W × Option Error
  leader_or_go_on asked (w, none) = (w, none)
  leader_or_go_on asked (w, some e) = (
    w,
    if asked
        then some (message (str "leader did not appear within timeout: " ++ error_text e))
        else none,
  )

  abbrev wait_with : CmdConfig → ℤ → Run W
  wait_with c timeout = do
    (λ w. leader_or_go_on c.raft_wait_for_leader (perform (wait_for_leader timeout) w))
    as_error (str "log was not fully applied within timeout: ")
        (when (not (timeout_is_zero timeout)) (perform (wait_for_applied timeout)))

  unfoldable pub wait_for_consensus : CmdConfig → Run W
  wait_for_consensus c w = elim (p.parse_duration c.raft_open_timeout) [
    | err e ↦ (
      w,
      some (
          message (
            str "failed to parse Raft open timeout "
            ++ (c.raft_open_timeout ++ (str ": " ++ error_text e)))),
    )
    | ok timeout ↦ wait_with c timeout w
  ]

  -- The part of `Start` up to the opening of the store.
  unfoldable pub prepare : CmdConfig → Run W
  unfolding server_listening raft_listening is_raft_tls_enabled raft_key_file_of raft_cert_file_of
      raft_ca_file_of
  prepare c = do
    when (not (c.config_path == [])) (perform (read_config c.config_path))
    when (not (c.pprof_address == [])) (perform (listen_pprof c.pprof_address))
    perform (start_profile c.cpu_profile c.mem_profile)
    as_error (str "failed to create HTTP listener: ") (
        perform
          (listen_http (server_listening c c.server_http_address c.server_http_advertise_address)))
    as_error (str "failed to create gPRC listener: ") (
        perform
          (listen_grpc (server_listening c c.server_grpc_address c.server_gprc_advertise_address)))
    as_error (str "failed to create Raft listener: ") (perform (listen_raft (raft_listening c)))
    as_error (str "failed to create TLS config of Raft: ") (
        when (is_raft_tls_enabled c) (
          perform
            (create_tls_config (raft_key_file_of c) (raft_cert_file_of c) (raft_ca_file_of c))))
    as_error (str "failed to init credentialsStore: ")
        (when c.enable_auth (perform (add_root c.root_username c.root_password)))

  -- The join of `Start`; the ID is that of the store.
  unfoldable pub join_requested : CmdConfig → List Str → Run W
  unfolding id_or_raft_addr own_metadata auth_type_of advertised
  join_requested c joins = do
    as_error (str "failed to parse Join interval: ") (perform (parse_join_interval c.join_interval))
    when (not (c.x509_ca_cert == [])) (perform (read_root_ca c.x509_ca_cert))
    as_error (str "failed to join cluster: ") (
        perform (
          join_cluster joins (id_or_raft_addr c) (advertised c) (not c.raft_non_voter)
            (own_metadata c) c.join_attempts
            (record {
              username = c.root_username;
              password = c.root_password;
              auth_type = auth_type_of c;
            })))

  abbrev no_error_but_not_leader : W × Option Error → W × Option Error
  no_error_but_not_leader (w, none) = (w, none)
  no_error_but_not_leader (w, some not_leader) = (w, none)
  no_error_but_not_leader (w, some e) =
      (w, some (message (str "failed to set store metadata: " ++ error_text e)))

  -- `Start`. The flag is what `IsNewNode` says of the data directory.
  unfoldable pub start : CmdConfig → Bool → Run W
  unfolding prepare join_requested wait_for_consensus own_metadata determine_join_addresses
  start c is_new =
      let joins = determine_join_addresses c in
      do
        prepare c
        as_error (str "failed to open store: ") (perform (open_store (is_new && (joins == []))))
        when (not (joins == []) && is_new) (join_requested c joins)
        as_error (str "waitForConsensus error: ") (wait_for_consensus c)
        as_error (str "failed to init auth: ")
            (when (is_new && c.enable_auth) (perform (init_auth c.root_username)))
        (λ w. no_error_but_not_leader (perform (set_metadata (own_metadata c)) w))
        perform start_services

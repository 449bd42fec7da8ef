-- ===== src/Start/Success/Carried.antt =====
-- A start in which no action fails does its plan.
use casbin_mesh.Prelude.{
  ◌∙◌, ap, str, Bool, true, false, not, ◌&&◌, ◌==◌, nat_eq, list_eq, ◌≡◌, refl, Option, none, List,
  [], ◌∷◌, ℤ,
}
use casbin_mesh.Result.{Error, ok}
use casbin_mesh.Start.{
  CmdConfig, Platform, Action, Run, when, start, prepare, join_requested, wait_for_consensus,
  wait_with, leader_or_go_on, no_error_but_not_leader, determine_join_addresses, open_store,
  join_cluster, init_auth, add_root, own_metadata, set_metadata, create_tls_config,
  is_raft_tls_enabled, read_config, listen_pprof, start_profile, listen_http, listen_grpc,
  listen_raft, server_listening, raft_listening, raft_key_file_of, raft_cert_file_of,
  raft_ca_file_of, id_or_raft_addr, advertised, auth_type_of, timeout_is_zero, parse_join_interval,
  read_root_ca, wait_for_leader, wait_for_applied, start_services,
}
use casbin_mesh.Start.Plan.{logged}
use casbin_mesh.Start.Success.{Does, only_if, preparing, joining, waiting, plan, onto, seq, named}

module _ {W : Type 0} (perform : Action → Run W) (p : Platform)
    (fine : (a : Action) (w : W) → (perform a w).1 ≡ none) where
  act : (a : Action) → Does (a ∷ []) (logged perform a)
  act a = record { done = λ w t. (fine a w, refl) }

  only :
      {xs : List Action} {m : Run (W × List Action)} (test : Bool)
      → Does xs m
      → Does (only_if test xs) (when (logged perform) p test m)
  only true does = does
  only false does = record { done = λ w t. (refl, refl) }

  only_act :
      (test : Bool) (a : Action)
      → Does (only_if test (a ∷ [])) (when (logged perform) p test (logged perform a))
  only_act test a = only test (act a)

  -- A run whose error is replaced, where there is none.
  kept :
      {xs : List Action} {m : Run (W × List Action)}
      (f : (W × List Action) × Option Error → (W × List Action) × Option Error)
      → ((s : W × List Action) → f (s, none) ≡ (s, none))
      → Does xs m
      → Does xs (λ w. f (m w))
  kept {xs} {m} f same does = record {
    done = λ w t.
        let (fine, added) = does.done w t in
        let whole : m (w, t) ≡ ((m (w, t)).0, none) = ap (λ e. ((m (w, t)).0, e)) fine in
        let same' = ap f whole ∙ same (m (w, t)).0 in
        (ap (λ r. r.1) same', ap (λ r. r.0.1) same' ∙ added);
  }

  prepare-Does : (c : CmdConfig) → Does (preparing c) (prepare (logged perform) p c)
  unfolding prepare
  prepare-Does c = seq (only_act (not (c.config_path == [])) (read_config c.config_path)) (
      seq (only_act (not (c.pprof_address == [])) (listen_pprof c.pprof_address)) (
        seq (act (start_profile c.cpu_profile c.mem_profile)) (
          seq
            (named (str "failed to create HTTP listener: ") (
              act (
                listen_http
                  (server_listening c c.server_http_address c.server_http_advertise_address))))
            (seq
              (named (str "failed to create gPRC listener: ") (
                act (
                  listen_grpc
                    (server_listening c c.server_grpc_address c.server_gprc_advertise_address))))
              (seq
                (named (str "failed to create Raft listener: ")
                  (act (listen_raft (raft_listening c))))
                (seq
                  (named (str "failed to create TLS config of Raft: ") (
                    only_act (is_raft_tls_enabled c) (
                      create_tls_config (raft_key_file_of c) (raft_cert_file_of c)
                        (raft_ca_file_of c))))
                  (named (str "failed to init credentialsStore: ")
                    (only_act c.enable_auth (add_root c.root_username c.root_password)))))))))

  join_requested-Does :
      (c : CmdConfig)
      → Does (joining c) (join_requested (logged perform) p c (determine_join_addresses c))
  unfolding join_requested
  join_requested-Does c =
      seq
        (named (str "failed to parse Join interval: ") (act (parse_join_interval c.join_interval)))
        (seq (only_act (not (c.x509_ca_cert == [])) (read_root_ca c.x509_ca_cert)) (
          named (str "failed to join cluster: ") (
            act (
              join_cluster (determine_join_addresses c) (id_or_raft_addr c) (advertised c)
                (not c.raft_non_voter) (own_metadata c) c.join_attempts
                (record {
                  username = c.root_username;
                  password = c.root_password;
                  auth_type = auth_type_of c;
                })))))

  wait_for_consensus-Does :
      (c : CmdConfig) (timeout : ℤ)
      → p.parse_duration c.raft_open_timeout ≡ ok timeout
      → Does (waiting timeout) (wait_for_consensus (logged perform) p c)
  unfolding wait_for_consensus
  wait_for_consensus-Does c timeout parsed =
      let waits : Does (waiting timeout) (wait_with (logged perform) p c timeout) =
        seq
          (kept (leader_or_go_on (logged perform) p c.raft_wait_for_leader) (λ s. refl)
            (act (wait_for_leader timeout)))
          (named (str "log was not fully applied within timeout: ")
            (only_act (not (timeout_is_zero timeout)) (wait_for_applied timeout))) in
      record { done = λ w t. rw (wait_for_consensus, parsed) (waits.done w t) }

  start-Does :
      (c : CmdConfig) (is_new : Bool) (timeout : ℤ)
      → p.parse_duration c.raft_open_timeout ≡ ok timeout
      → Does (plan c is_new timeout) (start (logged perform) p c is_new)
  unfolding start
  start-Does c is_new timeout parsed =
      let joins = determine_join_addresses c in
      seq (prepare-Does c) (
        seq (named (str "failed to open store: ") (act (open_store (is_new && (joins == []))))) (
          seq (only (not (joins == []) && is_new) (join_requested-Does c)) (
            seq (named (str "waitForConsensus error: ") (wait_for_consensus-Does c timeout parsed))
              (seq
                (named (str "failed to init auth: ")
                  (only_act (is_new && c.enable_auth) (init_auth c.root_username)))
                (seq
                  (kept (no_error_but_not_leader (logged perform) p) (λ s. refl)
                    (act (set_metadata (own_metadata c))))
                  (act start_services))))))

  -- Where nothing that it does fails, and the timeout can be parsed, a start ends without an error and
  -- has done exactly the actions of the plan, in their order.
  pub start-plan :
      (c : CmdConfig) (is_new : Bool) (timeout : ℤ) (w : W)
      → p.parse_duration c.raft_open_timeout ≡ ok timeout
      → ((start (logged perform) p c is_new (w, [])).1 ≡ none)
        × ((start (logged perform) p c is_new (w, [])).0.1 ≡ onto (plan c is_new timeout) [])
  start-plan c is_new timeout w parsed = (start-Does c is_new timeout parsed).done w []

-- ===== src/Start/Plan.antt =====
-- What a start may do, whatever the actions meet: a ledger of the actions shows it.
use casbin_mesh.Prelude.{
  sym, subst, Str, str, Bool, true, false, not, ◌&&◌, ◌==◌, nat_eq, list_eq, ◌≡◌, ◌≢◌, refl, Option,
  none, some, List, [], ◌∷◌, arith, eq_iff, All, inl, inr, ℤ,
}
use casbin_mesh.Result.{Error, Result-cases}
use casbin_mesh.Start.{
  CmdConfig, Platform, Action, Run, next, ◌>>◌, as_error, renamed, when, start, prepare,
  join_requested, wait_for_consensus, wait_with, leader_or_go_on, no_error_but_not_leader,
  determine_join_addresses, open_store, join_cluster, init_auth, add_root, own_metadata,
  set_metadata, create_tls_config, is_raft_tls_enabled, read_config, listen_pprof, start_profile,
  listen_http, listen_grpc, listen_raft, server_listening, raft_listening, raft_key_file_of,
  raft_cert_file_of, raft_ca_file_of, id_or_raft_addr, advertised, auth_type_of, timeout_is_zero,
  parse_join_interval, read_root_ca, wait_for_leader, wait_for_applied, start_services,
}

-- What a start may do: the store bootstraps exactly if the node is new and no addresses are given, a
-- node joins only if it is new, at the given addresses, as a voter unless it is configured otherwise,
-- and accounts and their rules are set up only where authentication is on.
abbrev pub Allowed : CmdConfig → Bool → Action → Type 0
Allowed c is_new (open_store bootstrap) = bootstrap ≡ (is_new && (determine_join_addresses c == []))
Allowed c is_new (join_cluster addrs id adv voter meta attempts auth) =
    (is_new ≡ true)
    × (addrs ≡ determine_join_addresses c)
    × (addrs ≢ [])
    × (voter ≡ not c.raft_non_voter)
    × (meta ≡ own_metadata c)
Allowed c is_new (init_auth username) = (is_new ≡ true) × (c.enable_auth ≡ true)
Allowed c is_new (add_root username password) = c.enable_auth ≡ true
Allowed c is_new other = Unit

module _ {W : Type 0} (perform : Action → Run W) where
  -- Each action is written into the ledger, the last first.
  abbrev pub logged : Action → Run (W × List Action)
  logged a (w, t) = (((perform a w).0, a ∷ t), (perform a w).1)

-- Every action that the run adds to the ledger has the property.
record Keeps {W : Type 0} (Q : Action → Type 0) (m : Run (W × List Action)) : Type 0 where
  kept : (w : W) (t : List Action) → All Q t → All Q (m (w, t)).0.1

renamed-All :
    {W : Type 0} (P : Action → Type 0) (text : Str) (r : (W × List Action) × Option Error)
    → All P r.0.1
    → All P (renamed text r).0.1
renamed-All P text ((w, t), none) before = before
renamed-All P text ((w, t), some e) before = before

module _ {W : Type 0} {Q : Action → Type 0} where
  next-All :
      (k : Run (W × List Action)) (r : (W × List Action) × Option Error)
      → Keeps Q k
      → All Q r.0.1
      → All Q (next k r).0.1
  next-All k ((w, t), none) keeps before = keeps.kept w t before
  next-All k ((w, t), some e) keeps before = before

  seq : {m k : Run (W × List Action)} → Keeps Q m → Keeps Q k → Keeps Q (m >> k)
  seq {m} {k} first second = record {
    kept = λ w t before. next-All k (m (w, t)) second (first.kept w t before);
  }

  named : {m : Run (W × List Action)} (text : Str) → Keeps Q m → Keeps Q (as_error text m)
  named {m} text keeps = record {
    kept = λ w t before. renamed-All Q text (m (w, t)) (keeps.kept w t before);
  }

module _ {W : Type 0} {Q : Action → Type 0} (perform : Action → Run W) (p : Platform) where
  done : (a : Action) → Q a → Keeps Q (logged perform a)
  done a allowed = record { kept = λ w t before. (allowed, before) }

  only :
      {m : Run (W × List Action)} (test : Bool)
      → (test ≡ true → Keeps Q m)
      → Keeps Q (when (logged perform) p test m)
  only true keeps = keeps refl
  only false keeps = record { kept = λ w t before. before }

module _ {W : Type 0} (c : CmdConfig) (is_new : Bool) (perform : Action → Run W)
    (p : Platform) where
  abbrev Kept : Run (W × List Action) → Type 0
  Kept = Keeps (Allowed c is_new)

  abbrev act : (a : Action) → Allowed c is_new a → Kept (logged perform a)
  act a allowed = done perform p a allowed

  prepare-Keeps : Kept (prepare (logged perform) p c)
  unfolding prepare
  prepare-Keeps =
      seq (only perform p (not (c.config_path == [])) (λ h. act (read_config c.config_path) tt)) (
        seq
          (only perform p (not (c.pprof_address == []))
            (λ h. act (listen_pprof c.pprof_address) tt))
          (seq (act (start_profile c.cpu_profile c.mem_profile) tt) (
            seq
              (named (str "failed to create HTTP listener: ") (
                act
                  (listen_http
                    (server_listening c c.server_http_address c.server_http_advertise_address))
                  tt))
              (seq
                (named (str "failed to create gPRC listener: ") (
                  act
                    (listen_grpc
                      (server_listening c c.server_grpc_address c.server_gprc_advertise_address))
                    tt))
                (seq
                  (named (str "failed to create Raft listener: ")
                    (act (listen_raft (raft_listening c)) tt))
                  (seq
                    (named (str "failed to create TLS config of Raft: ") (
                      only perform p (is_raft_tls_enabled c) (λ h.
                        act
                          (create_tls_config (raft_key_file_of c) (raft_cert_file_of c)
                            (raft_ca_file_of c))
                          tt)))
                    (named (str "failed to init credentialsStore: ") (
                      only perform p c.enable_auth
                        (λ h. act (add_root c.root_username c.root_password) h)))))))))

  join_requested-Keeps :
      is_new ≡ true
      → determine_join_addresses c ≢ []
      → Kept (join_requested (logged perform) p c (determine_join_addresses c))
  unfolding join_requested
  join_requested-Keeps new given =
      seq
        (named (str "failed to parse Join interval: ")
          (act (parse_join_interval c.join_interval) tt))
        (seq
          (only perform p (not (c.x509_ca_cert == [])) (λ h. act (read_root_ca c.x509_ca_cert) tt))
          (named (str "failed to join cluster: ") (
            act
              (join_cluster (determine_join_addresses c) (id_or_raft_addr c) (advertised c)
                (not c.raft_non_voter) (own_metadata c) c.join_attempts
                (record {
                  username = c.root_username;
                  password = c.root_password;
                  auth_type = auth_type_of c;
                }))
              (new, refl, given, refl, refl))))

  -- A run whose error is replaced adds the same actions.
  altered :
      {m : Run (W × List Action)}
      (f : (W × List Action) × Option Error → (W × List Action) × Option Error)
      → ((r : (W × List Action) × Option Error) → (f r).0 ≡ r.0)
      → Kept m
      → Kept (λ w. f (m w))
  altered {m} f same keeps = record {
    kept = λ w t before.
        subst (λ s. All (Allowed c is_new) s.1) (sym (same (m (w, t)))) (keeps.kept w t before);
  }

  leader_or_go_on-same :
      (asked : Bool) (r : (W × List Action) × Option Error)
      → (leader_or_go_on (logged perform) p asked r).0 ≡ r.0
  leader_or_go_on-same asked (s, none) = refl
  leader_or_go_on-same asked (s, some e) = refl

  no_error-same :
      (r : (W × List Action) × Option Error)
      → (no_error_but_not_leader (logged perform) p r).0 ≡ r.0
  no_error-same (s, none) = refl
  no_error-same (s, some e) = ground arith

  wait_with-Keeps : (timeout : ℤ) → Kept (wait_with (logged perform) p c timeout)
  wait_with-Keeps timeout =
      seq
        (altered (leader_or_go_on (logged perform) p c.raft_wait_for_leader)
          (leader_or_go_on-same c.raft_wait_for_leader) (act (wait_for_leader timeout) tt))
        (named (str "log was not fully applied within timeout: ")
          (only perform p (not (timeout_is_zero timeout)) (λ h. act (wait_for_applied timeout) tt)))

  wait_for_consensus-Keeps : Kept (wait_for_consensus (logged perform) p c)
  unfolding wait_for_consensus
  wait_for_consensus-Keeps = elim (Result-cases (p.parse_duration c.raft_open_timeout)) [
    | inr (e, bad) ↦ record { kept = λ w t before. rw (wait_for_consensus, bad) before }
    | inl (timeout, parsed) ↦ record {
      kept =
          λ w t before. rw (wait_for_consensus, parsed) ((wait_with-Keeps timeout).kept w t before);
    }
  ]

  start-Keeps : Kept (start (logged perform) p c is_new)
  unfolding start
  start-Keeps =
      let joins = determine_join_addresses c in
      seq prepare-Keeps (
        seq (named (str "failed to open store: ") (act (open_store (is_new && (joins == []))) refl))
          (seq
            (only perform p (not (joins == []) && is_new)
              (λ h. join_requested-Keeps (ground (arith, h)) (ground (arith, h, eq_iff joins []))))
            (seq (named (str "waitForConsensus error: ") wait_for_consensus-Keeps) (
              seq
                (named (str "failed to init auth: ") (
                  only perform p (is_new && c.enable_auth)
                    (λ h. act (init_auth c.root_username) (ground (arith, h), ground (arith, h)))))
                (seq
                  (altered (no_error_but_not_leader (logged perform) p) no_error-same
                    (act (set_metadata (own_metadata c)) tt))
                  (act start_services tt))))))

  -- Whatever the actions meet, all that a start does is allowed: it bootstraps exactly if the node is
  -- new and no addresses to join are given, it joins only if the node is new, at the given addresses,
  -- and it sets up accounts and their rules only where authentication is on.
  pub start-Allowed :
      (w : W) → All (Allowed c is_new) (start (logged perform) p c is_new (w, [])).0.1
  start-Allowed w = start-Keeps.kept w [] tt

-- ===== src/Start/Success.antt =====
-- What a start does where nothing fails: a plan of the configuration alone.
pub mod Carried
use casbin_mesh.Prelude.{
  ◌∙◌, ap, sym, Str, str, Bool, true, false, not, ◌&&◌, ◌==◌, nat_eq, list_eq, ◌≡◌, refl, Option,
  none, some, List, [], ◌∷◌, ◌++◌, arith, ℤ, if◌then◌else◌,
}
use casbin_mesh.Result.{Error, ok}
use casbin_mesh.Start.{
  CmdConfig, Platform, Action, Run, next, ◌>>◌, as_error, renamed, when, start, prepare,
  join_requested, wait_for_consensus, wait_with, leader_or_go_on, no_error_but_not_leader,
  determine_join_addresses, open_store, join_cluster, init_auth, add_root, own_metadata,
  set_metadata, create_tls_config, is_raft_tls_enabled, read_config, listen_pprof, start_profile,
  listen_http, listen_grpc, listen_raft, server_listening, raft_listening, raft_key_file_of,
  raft_cert_file_of, raft_ca_file_of, id_or_raft_addr, advertised, auth_type_of, timeout_is_zero,
  parse_join_interval, read_root_ca, wait_for_leader, wait_for_applied, start_services,
}
use casbin_mesh.Start.Plan.{logged}

abbrev only_if : Bool → List Action → List Action
only_if test xs = if test then xs else []

abbrev pub preparing : CmdConfig → List Action
preparing c =
    only_if (not (c.config_path == [])) (read_config c.config_path ∷ [])
    ++ (only_if (not (c.pprof_address == [])) (listen_pprof c.pprof_address ∷ [])
        ++ ((start_profile c.cpu_profile c.mem_profile ∷ [])
            ++ ((listen_http
                    (server_listening c c.server_http_address c.server_http_advertise_address)
                  ∷ [])
                ++ ((listen_grpc
                        (server_listening c c.server_grpc_address c.server_gprc_advertise_address)
                      ∷ [])
                    ++ ((listen_raft (raft_listening c) ∷ [])
                        ++ (only_if (is_raft_tls_enabled c) (
                              create_tls_config (raft_key_file_of c) (raft_cert_file_of c)
                                (raft_ca_file_of c)
                              ∷ [])
                            ++ only_if c.enable_auth
                                (add_root c.root_username c.root_password ∷ [])))))))

abbrev pub joining : CmdConfig → List Action
joining c =
    (parse_join_interval c.join_interval ∷ [])
    ++ (only_if (not (c.x509_ca_cert == [])) (read_root_ca c.x509_ca_cert ∷ [])
        ++ (join_cluster (determine_join_addresses c) (id_or_raft_addr c) (advertised c)
              (not c.raft_non_voter) (own_metadata c) c.join_attempts
              (record {
                username = c.root_username;
                password = c.root_password;
                auth_type = auth_type_of c;
              })
            ∷ []))

abbrev pub waiting : ℤ → List Action
waiting timeout =
    (wait_for_leader timeout ∷ [])
    ++ only_if (not (timeout_is_zero timeout)) (wait_for_applied timeout ∷ [])

-- The whole of it, with the timeout for the opening.
abbrev pub plan : CmdConfig → Bool → ℤ → List Action
plan c is_new timeout =
    let joins = determine_join_addresses c in
    preparing c
    ++ ((open_store (is_new && (joins == [])) ∷ [])
        ++ (only_if (not (joins == []) && is_new) (joining c)
            ++ (waiting timeout
                ++ (only_if (is_new && c.enable_auth) (init_auth c.root_username ∷ [])
                    ++ ((set_metadata (own_metadata c) ∷ []) ++ (start_services ∷ []))))))

-- The actions on top of those before, the last first.
abbrev pub onto : List Action → List Action → List Action
onto [] t = t
onto (a ∷ xs) t = onto xs (a ∷ t)

onto-append : (xs ys t : List Action) → onto (xs ++ ys) t ≡ onto ys (onto xs t)
onto-append [] ys t = refl
onto-append (a ∷ xs) ys t = onto-append xs ys (a ∷ t)

-- The run ends without an error, and does these actions.
record Does {W : Type 0} (xs : List Action) (m : Run (W × List Action)) : Type 0 where
  done : (w : W) (t : List Action) → ((m (w, t)).1 ≡ none) × ((m (w, t)).0.1 ≡ onto xs t)

module _ {W : Type 0} where
  next_fine :
      (k : Run (W × List Action)) (r : (W × List Action) × Option Error)
      → r.1 ≡ none
      → next k r ≡ k r.0
  next_fine k (s, none) h = refl
  next_fine k (s, some e) h = ground (arith, h)

  renamed_fine :
      (text : Str) (r : (W × List Action) × Option Error) → r.1 ≡ none → renamed text r ≡ r
  renamed_fine text (s, none) h = refl
  renamed_fine text (s, some e) h = ground (arith, h)

  seq :
      {xs ys : List Action} {m k : Run (W × List Action)}
      → Does xs m
      → Does ys k
      → Does (xs ++ ys) (m >> k)
  seq {xs} {ys} {m} {k} first second = record {
    done = λ w t.
        let (fine, added) = first.done w t in
        let (fine', added') = second.done (m (w, t)).0.0 (m (w, t)).0.1 in
        let same = next_fine k (m (w, t)) fine in
        (
          ap (λ r. r.1) same ∙ fine',
          ap (λ r. r.0.1) same ∙ added' ∙ ap (onto ys) added ∙ sym (onto-append xs ys t),
        );
  }

  named :
      {xs : List Action} {m : Run (W × List Action)} (text : Str)
      → Does xs m
      → Does xs (as_error text m)
  named {xs} {m} text does = record {
    done = λ w t.
        let (fine, added) = does.done w t in
        let same = renamed_fine text (m (w, t)) fine in
        (ap (λ r. r.1) same ∙ fine, ap (λ r. r.0.1) same ∙ added);
  }

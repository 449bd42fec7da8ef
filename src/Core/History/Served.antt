-- ===== src/Core/History/Served.antt =====
-- Every request of the core, and any number of them one after the other.
use casbin_mesh.Prelude.{Str, Bool, ◌≡◌, ◌≢◌, List, [], ℤ, arith, inl, inr, nat_eq, list_eq}
use casbin_mesh.Result.{Result, Result-cases}
use casbin_mesh.Badger.{Badger}
use casbin_mesh.Casbin.{Casbin}
use casbin_mesh.Command
use casbin_mesh.Command.{Proto, Level, new_string_array}
use casbin_mesh.Fsm
use casbin_mesh.Fsm.{replay}
use casbin_mesh.Store
use casbin_mesh.Store.{
  Raft, Node, Answer, Server, Future, observe, wait, answer_rules, answer_flag, answer_error,
}
use casbin_mesh.Store.Policies
use casbin_mesh.Store.Policies.{rules_payload, update_payload}
use casbin_mesh.Store.Manage
use casbin_mesh.Core.History.{
  ByEntries, unchanged, moved, request-ByEntries, answer_rules-node, answer_flag-node,
  answer_error-node, answer_namespaces-node, answer_policies-node, answer_model-node,
  answer_enforce-node,
}

module _ (b : Badger) (casbin : Casbin b) (proto : Proto) (raft : Raft) where
  abbrev NodeOf : Type 0
  NodeOf = Node b casbin proto raft

  -- A request of the log, and the reading of its response.
  logged :
      {A : Type 0} (answer : NodeOf × Result Fsm.Response → NodeOf × A)
      → ((r : NodeOf × Result Fsm.Response) → (answer r).0 ≡ r.0)
      → (c : Command.Command) (n : NodeOf)
      → ByEntries b casbin proto raft n (answer (Store.request b casbin proto raft c n)).0
  logged answer same c n =
      moved b casbin proto raft n (Store.request b casbin proto raft c n).0
        (answer (Store.request b casbin proto raft c n)).0
        (same (Store.request b casbin proto raft c n)) (request-ByEntries b casbin proto raft c n)

  pub create_namespace-ByEntries :
      (ns : Str) (n : NodeOf)
      → ByEntries b casbin proto raft n (Manage.create_namespace b casbin proto raft ns n).0
  unfolding Manage.create_namespace
  create_namespace-ByEntries ns n =
      logged (answer_error b casbin proto raft) (answer_error-node b casbin proto raft)
        (record { kind = Command.create_namespace; namespace = ns; payload = [] }) n

  pub set_model_from_string-ByEntries :
      (ns : Str) (text : Str) (n : NodeOf)
      → ByEntries b casbin proto raft n
          (Manage.set_model_from_string b casbin proto raft ns text n).0
  unfolding Manage.set_model_from_string
  set_model_from_string-ByEntries ns text n = elim (Result-cases (proto.model_text.marshal text)) [
    | inl (payload, fine) ↦
        rw (Manage.set_model_from_string, fine)
          (logged (answer_error b casbin proto raft) (answer_error-node b casbin proto raft)
            (record { kind = Command.set_model; namespace = ns; payload = payload }) n)
    | inr (e, bad) ↦ rw (Manage.set_model_from_string, bad) (unchanged b casbin proto raft n)
  ]

  pub clear_policy-ByEntries :
      (ns : Str) (n : NodeOf)
      → ByEntries b casbin proto raft n (Policies.clear_policy b casbin proto raft ns n).0
  unfolding Policies.clear_policy
  clear_policy-ByEntries ns n =
      logged (answer_error b casbin proto raft) (answer_error-node b casbin proto raft)
        (record { kind = Command.clear_policy; namespace = ns; payload = [] }) n

  pub print_model-ByEntries :
      (ns : Str) (n : NodeOf)
      → ByEntries b casbin proto raft n (Manage.print_model b casbin proto raft ns n).0
  unfolding Manage.print_model
  print_model-ByEntries ns n =
      logged (Manage.answer_model b casbin proto raft) (answer_model-node b casbin proto raft)
        (record { kind = Command.print_model; namespace = ns; payload = [] }) n

  pub add_policies-ByEntries :
      (ns : Str) (sec : Str) (p_type : Str) (rules : List (List Str)) (n : NodeOf)
      → ByEntries b casbin proto raft n
          (Policies.add_policies b casbin proto raft ns sec p_type rules n).0
  unfolding Policies.add_policies
  add_policies-ByEntries ns sec p_type rules n =
      elim (Result-cases (proto.rules.marshal (rules_payload sec p_type rules))) [
        | inl (payload, fine) ↦
            rw (Policies.add_policies, fine)
              (logged (answer_rules b casbin proto raft) (answer_rules-node b casbin proto raft)
                (record { kind = Command.add_policies; namespace = ns; payload = payload }) n)
        | inr (e, bad) ↦ rw (Policies.add_policies, bad) (unchanged b casbin proto raft n)
      ]

  pub remove_policies-ByEntries :
      (ns : Str) (sec : Str) (p_type : Str) (rules : List (List Str)) (n : NodeOf)
      → ByEntries b casbin proto raft n
          (Policies.remove_policies b casbin proto raft ns sec p_type rules n).0
  unfolding Policies.remove_policies
  remove_policies-ByEntries ns sec p_type rules n =
      elim (Result-cases (proto.rules.marshal (rules_payload sec p_type rules))) [
        | inl (payload, fine) ↦
            rw (Policies.remove_policies, fine)
              (logged (answer_rules b casbin proto raft) (answer_rules-node b casbin proto raft)
                (record { kind = Command.remove_policies; namespace = ns; payload = payload }) n)
        | inr (e, bad) ↦ rw (Policies.remove_policies, bad) (unchanged b casbin proto raft n)
      ]

  pub remove_filtered_policy-ByEntries :
      (ns : Str) (sec : Str) (p_type : Str) (fi : ℤ) (fv : List Str) (n : NodeOf)
      → ByEntries b casbin proto raft n
          (Policies.remove_filtered_policy b casbin proto raft ns sec p_type fi fv n).0
  unfolding Policies.remove_filtered_policy
  remove_filtered_policy-ByEntries ns sec p_type fi fv n =
      elim (Result-cases (
        proto.filtered.marshal
          (record { sec = sec; p_type = p_type; field_index = fi; field_values = fv }))) [
            | inl (payload, fine) ↦
                rw (Policies.remove_filtered_policy, fine)
                  (logged (answer_rules b casbin proto raft) (answer_rules-node b casbin proto raft)
                    (record {
                      kind = Command.remove_filtered_policy;
                      namespace = ns;
                      payload = payload;
                    })
                    n)
            | inr (e, bad) ↦
                rw (Policies.remove_filtered_policy, bad) (unchanged b casbin proto raft n)
          ]

  pub update_policies-ByEntries :
      (ns : Str) (sec : Str) (p_type : Str) (nr : List (List Str)) (old : List (List Str))
      (n : NodeOf)
      → ByEntries b casbin proto raft n
          (Policies.update_policies b casbin proto raft ns sec p_type nr old n).0
  unfolding Policies.update_policies
  update_policies-ByEntries ns sec p_type nr old n =
      elim (Result-cases (proto.update.marshal (update_payload sec p_type nr old))) [
        | inl (payload, fine) ↦
            rw (Policies.update_policies, fine)
              (logged (answer_flag b casbin proto raft) (answer_flag-node b casbin proto raft)
                (record { kind = Command.update_policies; namespace = ns; payload = payload }) n)
        | inr (e, bad) ↦ rw (Policies.update_policies, bad) (unchanged b casbin proto raft n)
      ]

  pub list_policies-ByEntries :
      (ns : Str) (cursor : Str) (skip : ℤ) (limit : ℤ) (reverse : Bool) (n : NodeOf)
      → ByEntries b casbin proto raft n
          (Manage.list_policies b casbin proto raft ns cursor skip limit reverse n).0
  unfolding Manage.list_policies
  list_policies-ByEntries ns cursor skip limit reverse n =
      elim (Result-cases (
        proto.listing.marshal
          (record { cursor = cursor; skip = skip; limit = limit; reverse = reverse }))) [
            | inl (payload, fine) ↦
                rw (Manage.list_policies, fine)
                  (logged (Manage.answer_policies b casbin proto raft)
                    (answer_policies-node b casbin proto raft)
                    (record { kind = Command.list_policies; namespace = ns; payload = payload }) n)
            | inr (e, bad) ↦ rw (Manage.list_policies, bad) (unchanged b casbin proto raft n)
          ]

  pub list_namespace-ByEntries :
      (n : NodeOf) → ByEntries b casbin proto raft n (Manage.list_namespace b casbin proto raft n).0
  unfolding Manage.list_namespace
  list_namespace-ByEntries n =
      logged (Manage.answer_namespaces b casbin proto raft)
        (answer_namespaces-node b casbin proto raft)
        (record { kind = Command.list_namespaces; namespace = []; payload = [] }) n

  enforce_strong-ByEntries :
      (ns : Str) (freshness : ℤ) (params : List casbin.Param) (n : NodeOf)
      → ByEntries b casbin proto raft n
          (Manage.enforce_strong b casbin proto raft ns freshness params n).0
  unfolding Manage.enforce_strong
  enforce_strong-ByEntries ns freshness params n =
      elim (Result-cases (Manage.marshal_params b casbin proto raft params)) [
        | inr (e, bad) ↦ rw (Manage.enforce_strong, bad) (unchanged b casbin proto raft n)
        | inl (texts, fine) ↦
            elim (Result-cases (
              proto.enforce.marshal
                (record { b = texts; level = Command.strong; freshness = freshness }))) [
                  | inr (e, bad) ↦
                      rw (Manage.enforce_strong, fine, bad) (unchanged b casbin proto raft n)
                  | inl (payload, made) ↦
                      rw (Manage.enforce_strong, fine, made)
                        (logged (Manage.answer_enforce b casbin proto raft)
                          (answer_enforce-node b casbin proto raft)
                          (record {
                            kind = Command.enforce_request;
                            namespace = ns;
                            payload = payload;
                          })
                          n)
                ]
      ]

  -- A decision of the node's own leaves it as it is.
  enforce-same :
      (ns : Str) (level : Level) (freshness : ℤ) (params : List casbin.Param) (n : NodeOf)
      → level ≢ Command.strong
      → (Manage.enforce b casbin proto raft ns level freshness params n).0 ≡ n
  unfolding Manage.enforce Manage.enforce_local
  enforce-same ns level freshness params n weaker = ground (arith, weaker)

  pub enforce-ByEntries :
      (ns : Str) (level : Level) (freshness : ℤ) (params : List casbin.Param) (n : NodeOf)
      → ByEntries b casbin proto raft n
          (Manage.enforce b casbin proto raft ns level freshness params n).0
  unfolding Manage.enforce
  enforce-ByEntries ns Command.strong freshness params n =
      enforce_strong-ByEntries ns freshness params n
  enforce-ByEntries ns Command.weak freshness params n =
      moved b casbin proto raft n n
        (Manage.enforce b casbin proto raft ns Command.weak freshness params n).0
        (enforce-same ns Command.weak freshness params n (ground arith))
        (unchanged b casbin proto raft n)
  enforce-ByEntries ns Command.none freshness params n =
      moved b casbin proto raft n n
        (Manage.enforce b casbin proto raft ns Command.none freshness params n).0
        (enforce-same ns Command.none freshness params n (ground arith))
        (unchanged b casbin proto raft n)
  enforce-ByEntries ns (Command.other i) freshness params n =
      moved b casbin proto raft n n
        (Manage.enforce b casbin proto raft ns (Command.other i) freshness params n).0
        (enforce-same ns (Command.other i) freshness params n (ground arith))
        (unchanged b casbin proto raft n)

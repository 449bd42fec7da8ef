-- ===== src/Store/Manage.antt =====
-- server/store/manage.go and enforcer.go: namespaces, models and decisions.
use casbin_mesh.Prelude.{
  str, nat_eq, list_eq, Str, Bool, false, ◌&&◌, not, Option, none, some, List, [], ◌∷◌, ℤ, pos,
  ltb_ℤ, if◌then◌else◌,
}
use casbin_mesh.Result.{Error, Result, ok, err, not_leader, stale_read, namespace_not_exist}
use casbin_mesh.Dict
use casbin_mesh.Badger.{Badger}
use casbin_mesh.Casbin.{Casbin}
use casbin_mesh.Command
use casbin_mesh.Command.{Command, Proto, Level}
use casbin_mesh.Fsm
use casbin_mesh.Fsm.{Response}
use casbin_mesh.Store.{Raft, Answer, Node, request, answer_error}
use casbin_mesh.Store.Policies.{add_policies}

-- `_const.RBACModel` and `_const.SystemRules` of server/const, and the name of `SystemEnforce`.
pub record Defaults : Type 0 where
  pub system_enforce : Str
  pub rbac_model : Str
  pub system_rules : List (List Str)

module _ (b : Badger) (casbin : Casbin b) (proto : Proto) (raft : Raft) where
  unfoldable pub create_namespace :
      Str → Node b casbin proto raft → Node b casbin proto raft × Option (Option Error)
  unfolding request answer_error
  create_namespace ns n = answer_error b casbin proto raft (
      request b casbin proto raft
        (record { kind = Command.create_namespace; namespace = ns; payload = [] }) n)

  unfoldable pub set_model_from_string :
      Str → Str → Node b casbin proto raft → Node b casbin proto raft × Option (Option Error)
  unfolding request answer_error
  set_model_from_string ns text n = elim (proto.model_text.marshal text) [
    | err e ↦ (n, some (some e))
    | ok payload ↦ answer_error b casbin proto raft (
        request b casbin proto raft
          (record { kind = Command.set_model; namespace = ns; payload = payload }) n)
  ]

  -- `r := f.Response().(*ListNamespacesResponse)` and its like, by the type that is asserted
  unfoldable pub answer_namespaces :
      Node b casbin proto raft × Result Response → Node b casbin proto raft × Answer (List Str)
  answer_namespaces (n, err e) = (n, some ([], some e))
  answer_namespaces (n, ok (Fsm.list_namespaces_response names e)) = (n, some (names, e))
  answer_namespaces (n, ok other) = (n, none)

  unfoldable pub answer_policies :
      Node b casbin proto raft × Result Response
      → Node b casbin proto raft × Answer (List (List Str))
  answer_policies (n, err e) = (n, some ([], some e))
  answer_policies (n, ok (Fsm.list_policies_response rows e)) = (n, some (rows, e))
  answer_policies (n, ok other) = (n, none)

  unfoldable pub answer_model :
      Node b casbin proto raft × Result Response → Node b casbin proto raft × Answer Str
  answer_model (n, err e) = (n, some ([], some e))
  answer_model (n, ok (Fsm.print_model_response text e)) = (n, some (text, e))
  answer_model (n, ok other) = (n, none)

  unfoldable pub answer_enforce :
      Node b casbin proto raft × Result Response → Node b casbin proto raft × Answer Bool
  answer_enforce (n, err e) = (n, some (false, some e))
  answer_enforce (n, ok (Fsm.fsm_enforce_response allowed e)) = (n, some (allowed, e))
  answer_enforce (n, ok other) = (n, none)

  unfoldable pub list_namespace :
      Node b casbin proto raft → Node b casbin proto raft × Answer (List Str)
  unfolding request answer_namespaces
  list_namespace n = answer_namespaces (
      request b casbin proto raft
        (record { kind = Command.list_namespaces; namespace = []; payload = [] }) n)

  unfoldable pub list_policies :
      Str
      → Str
      → ℤ
      → ℤ
      → Bool
      → Node b casbin proto raft
      → Node b casbin proto raft × Answer (List (List Str))
  unfolding request answer_policies
  list_policies ns cursor skip limit reverse n =
      elim (proto.listing.marshal
        (record { cursor = cursor; skip = skip; limit = limit; reverse = reverse })) [
          | err e ↦ (n, some ([], some e))
          | ok payload ↦ answer_policies (
              request b casbin proto raft
                (record { kind = Command.list_policies; namespace = ns; payload = payload }) n)
        ]

  unfoldable pub print_model :
      Str → Node b casbin proto raft → Node b casbin proto raft × Answer Str
  unfolding request answer_model
  print_model ns n = answer_model (
      request b casbin proto raft
        (record { kind = Command.print_model; namespace = ns; payload = [] }) n)

  -- `json.Marshal` of each value
  unfoldable pub marshal_params : List casbin.Param → Result (List Str)
  marshal_params [] = ok []
  marshal_params (p ∷ ps) = elim (casbin.print_param p) [
    | err e ↦ err e
    | ok t ↦ elim (marshal_params ps) [ err e ↦ err e | ok ts ↦ ok (t ∷ ts) ]
  ]

  -- The decision of this node's enforcer.
  unfoldable pub enforce_local :
      Str → List casbin.Param → Node b casbin proto raft → Node b casbin proto raft × Answer Bool
  enforce_local ns params n = elim (Dict.lookup ns n.fsm.enforcers) [
    | none ↦ (n, some (false, some namespace_not_exist))
    | some e ↦ elim (casbin.enforce params e) [
      | ok r ↦ (n, some (r, none))
      | err x ↦ (n, some (false, some x))
    ]
  ]

  -- A strong read goes through the log.
  unfoldable pub enforce_strong :
      Str
      → ℤ
      → List casbin.Param
      → Node b casbin proto raft
      → Node b casbin proto raft × Answer Bool
  unfolding marshal_params request answer_enforce
  enforce_strong ns freshness params n = elim (marshal_params params) [
    | err e ↦ (n, some (false, some e))
    | ok texts ↦
        elim (proto.enforce.marshal
          (record { b = texts; level = Command.strong; freshness = freshness })) [
            | err e ↦ (n, some (false, some e))
            | ok payload ↦ answer_enforce (
                request b casbin proto raft
                  (record { kind = Command.enforce_request; namespace = ns; payload = payload }) n)
          ]
  ]

  -- `freshness > 0`, not the leader, and the last contact longer ago than that
  unfoldable pub is_stale : ℤ → Node b casbin proto raft → Bool
  is_stale freshness n =
      ltb_ℤ (pos 0) freshness
      && (not (raft.is_leader n.raft_state) && ltb_ℤ freshness (raft.since_contact n.raft_state))

  unfoldable pub enforce :
      Str
      → Level
      → ℤ
      → List casbin.Param
      → Node b casbin proto raft
      → Node b casbin proto raft × Answer Bool
  unfolding enforce_strong is_stale enforce_local
  enforce ns Command.strong freshness params n = enforce_strong ns freshness params n
  enforce ns Command.weak freshness params n =
      if raft.is_leader n.raft_state
      then enforce_local ns params n
      else (n, some (false, some not_leader))
  enforce ns Command.none freshness params n =
      if is_stale freshness n then (n, some (false, some stale_read)) else enforce_local ns params n
  enforce ns (Command.other i) freshness params n = enforce_local ns params n

  -- `if err := m; err != nil { return err }; k`
  abbrev then_do :
      (Node b casbin proto raft → Node b casbin proto raft × Option (Option Error))
      → Node b casbin proto raft × Option (Option Error)
      → Node b casbin proto raft × Option (Option Error)
  then_do k (n, some none) = k n
  then_do k (n, some (some e)) = (n, some (some e))
  then_do k (n, none) = (n, none)

  abbrev only_error :
      Node b casbin proto raft × Answer (List (List Str))
      → Node b casbin proto raft × Option (Option Error)
  only_error (n, none) = (n, none)
  only_error (n, some (rules, e)) = (n, some e)

  unfoldable pub init_auth :
      Defaults → Node b casbin proto raft → Node b casbin proto raft × Option (Option Error)
  unfolding create_namespace set_model_from_string
  init_auth d n =
      if raft.is_leader n.raft_state
      then then_do
          (λ n'.
            then_do
              (λ n''. only_error (
                add_policies b casbin proto raft d.system_enforce (str "g") (str "g") d.system_rules
                  n''))
              (set_model_from_string d.system_enforce d.rbac_model n'))
          (create_namespace d.system_enforce n)
      else (n, some none)

-- ===== src/Fsm/Namespaces.antt =====
-- Which namespaces a committed entry touches.
use casbin_mesh.Command
use casbin_mesh.Result.{Result-cases, ok}
use casbin_mesh.Prelude.{
  inr, inl, [], ◌∷◌, refl, List, Str, ◌≡◌, ◌≢◌, ◌∙◌, none, arith, nat_eq, list_eq, eq_iff,
}
use casbin_mesh.Dict
use casbin_mesh.Dict.{lookup-insert}
use casbin_mesh.Badger.{Badger}
use casbin_mesh.Casbin.{Casbin}
use casbin_mesh.Command.{ListPoliciesPayload, CommandType, Command, Proto}
use casbin_mesh.Fsm.{
  replay, list_policies_with, apply_update_policies, apply_set_model, apply_remove_policies,
  apply_remove_filtered_policy, apply_print_model, apply_metadata_set, apply_metadata_delete,
  apply_list_policies, apply_list_namespaces, apply_enforce_request, apply_command,
  apply_clear_policy, apply, State, Response, apply_create_namespace, apply_add_policies,
}

module _ (b : Badger) (casbin : Casbin b) (proto : Proto) where
  -- Of an entry for the namespace `ns`: another namespace keeps its enforcer, and a namespace that
  -- exists goes on to exist.
  abbrev pub Kept : Str → Str → State b casbin proto → State b casbin proto × Response → Type 0
  Kept ns m s r =
      (ns ≢ m → Dict.lookup m r.0.enforcers ≡ Dict.lookup m s.enforcers)
      × (Dict.lookup m s.enforcers ≢ none → Dict.lookup m r.0.enforcers ≢ none)

  module _ (ns m payload : Str) (s : State b casbin proto) where
    Kept-create : Kept ns m s (apply_create_namespace b casbin proto ns s)
    unfolding apply_create_namespace
    Kept-create = grind (arith, lookup-insert, eq_iff ns m)

    Kept-add : Kept ns m s (apply_add_policies b casbin proto ns payload s)
    unfolding apply_add_policies
    Kept-add = grind (arith, lookup-insert, eq_iff ns m)

    Kept-update : Kept ns m s (apply_update_policies b casbin proto ns payload s)
    unfolding apply_update_policies
    Kept-update = grind (arith, lookup-insert, eq_iff ns m)

    Kept-remove : Kept ns m s (apply_remove_policies b casbin proto ns payload s)
    unfolding apply_remove_policies
    Kept-remove = grind (arith, lookup-insert, eq_iff ns m)

    Kept-filtered : Kept ns m s (apply_remove_filtered_policy b casbin proto ns payload s)
    unfolding apply_remove_filtered_policy
    Kept-filtered = grind (arith, lookup-insert, eq_iff ns m)

    Kept-clear : Kept ns m s (apply_clear_policy b casbin proto ns s)
    unfolding apply_clear_policy
    Kept-clear = grind (arith, lookup-insert, eq_iff ns m)

    Kept-metadata_set : Kept ns m s (apply_metadata_set b casbin proto payload s)
    unfolding apply_metadata_set
    Kept-metadata_set = grind (arith, lookup-insert, eq_iff ns m)

    Kept-metadata_delete : Kept ns m s (apply_metadata_delete b casbin proto payload s)
    unfolding apply_metadata_delete
    Kept-metadata_delete = grind (arith, lookup-insert, eq_iff ns m)

    Kept-listing :
        (p : ListPoliciesPayload) → Kept ns m s (list_policies_with b casbin proto ns p s)
    unfolding list_policies_with
    Kept-listing p = grind (arith, lookup-insert, eq_iff ns m)

    Kept-set_model : Kept ns m s (apply_set_model b casbin proto ns payload s)
    unfolding apply_set_model
    Kept-set_model = grind (arith, lookup-insert, eq_iff ns m)

    Kept-list : Kept ns m s (apply_list_policies b casbin proto ns payload s)
    unfolding apply_list_policies
    Kept-list = grind (arith, Kept-listing)

    Kept-print : Kept ns m s (apply_print_model b casbin proto ns s)
    unfolding apply_print_model
    Kept-print = ground arith

    Kept-enforce : Kept ns m s (apply_enforce_request b casbin proto ns payload s)
    unfolding apply_enforce_request
    Kept-enforce = ground arith

    Kept-names : Kept ns m s (apply_list_namespaces b casbin proto s)
    unfolding apply_list_namespaces
    Kept-names = (λ h. refl, λ h. h)

    -- Every command.
    Kept-command :
        (kind : CommandType) → Kept ns m s (apply_command b casbin proto kind ns payload s)
    unfolding apply_command
    Kept-command Command.list_namespaces = Kept-names
    Kept-command Command.print_model = Kept-print
    Kept-command Command.list_policies = Kept-list
    Kept-command Command.enforce_request = Kept-enforce
    Kept-command Command.create_namespace = Kept-create
    Kept-command Command.set_model = Kept-set_model
    Kept-command Command.add_policies = Kept-add
    Kept-command Command.update_policies = Kept-update
    Kept-command Command.remove_policies = Kept-remove
    Kept-command Command.remove_filtered_policy = Kept-filtered
    Kept-command Command.clear_policy = Kept-clear
    Kept-command Command.metadata_set = Kept-metadata_set
    Kept-command Command.metadata_delete = Kept-metadata_delete
    Kept-command (Command.unknown n) = (λ h. refl, λ h. h)

  -- No entry of the log is for the namespace `m`, once decoded.
  abbrev pub NoneFor : Str → List Str → Type 0
  NoneFor m [] = Unit
  NoneFor m (entry ∷ log) =
      ((c : Command) → proto.command.unmarshal entry ≡ ok c → c.namespace ≢ m) × NoneFor m log

  others-apply :
      (m entry : Str) (s : State b casbin proto)
      → ((c : Command) → proto.command.unmarshal entry ≡ ok c → c.namespace ≢ m)
      → Dict.lookup m (apply b casbin proto entry s).0.enforcers ≡ Dict.lookup m s.enforcers
  unfolding apply
  others-apply m entry s h = elim (Result-cases (proto.command.unmarshal entry)) [
    | inl (c, e) ↦ rw (e, apply) ((Kept-command c.namespace m c.payload s c.kind).0 (h c e))
    | inr (x, e) ↦ rw (e, apply) refl
  ]

  -- A log without an entry for a namespace leaves that namespace's enforcer as it is.
  pub replay_others :
      (m : Str) (log : List Str) (s : State b casbin proto)
      → NoneFor m log
      → Dict.lookup m (replay b casbin proto log s).enforcers ≡ Dict.lookup m s.enforcers
  unfolding replay
  replay_others m [] s h = refl
  replay_others m (entry ∷ log) s h =
      replay_others m log (apply b casbin proto entry s).0 h.1 ∙ others-apply m entry s h.0

  stays-apply :
      (m entry : Str) (s : State b casbin proto)
      → Dict.lookup m s.enforcers ≢ none
      → Dict.lookup m (apply b casbin proto entry s).0.enforcers ≢ none
  unfolding apply
  stays-apply m entry s h = elim (Result-cases (proto.command.unmarshal entry)) [
    | inl (c, e) ↦ rw (e, apply) ((Kept-command c.namespace m c.payload s c.kind).1 h)
    | inr (x, e) ↦ rw (e, apply) h
  ]

  -- No log removes a namespace.
  pub replay_stays :
      (m : Str) (log : List Str) (s : State b casbin proto)
      → Dict.lookup m s.enforcers ≢ none
      → Dict.lookup m (replay b casbin proto log s).enforcers ≢ none
  unfolding replay
  replay_stays m [] s h = h
  replay_stays m (entry ∷ log) s h =
      replay_stays m log (apply b casbin proto entry s).0 (stays-apply m entry s h)

-- ===== src/Store/Typed.antt =====
-- The type assertions on responses: which requests can meet a response of another type, and panic.
use casbin_mesh.Prelude.{Str, ◌≡◌, ◌≢◌, none, some, List, [], arith, ℤ, inl, inr}
use casbin_mesh.Result.{Result, ok, err, Result-cases}
use casbin_mesh.Dict
use casbin_mesh.Badger.{Badger}
use casbin_mesh.Casbin.{Casbin}
use casbin_mesh.Command
use casbin_mesh.Command.{Command, CommandType, Proto, RoundTrips}
use casbin_mesh.Fsm
use casbin_mesh.Fsm.{
  Response, State, replay, apply, apply_command, apply_create_namespace, apply_set_model,
  apply_add_policies, apply_update_policies, apply_remove_policies, apply_remove_filtered_policy,
  apply_clear_policy, apply_metadata_set, apply_metadata_delete, apply_print_model, set_model_of,
}
use casbin_mesh.Store.{Raft, Node, observe, wait, request, answer_rules, answer_flag, answer_error}
use casbin_mesh.Store.Policies.{
  add_policies, remove_policies, remove_filtered_policy, update_policies, clear_policy,
}
use casbin_mesh.Store.Manage.{create_namespace, set_model_from_string, print_model, answer_model}
use casbin_mesh.Store.Writes.{Sent, request-committed}

-- The response of the type that the writers assert.
abbrev IsFsmResponse : Response → Type 0
IsFsmResponse (Fsm.fsm_response e effected rules) = Unit
IsFsmResponse other = ⊥

-- The commands that write, but for the metadata, whose responses are not read.
abbrev pub Writes : CommandType → Type 0
Writes Command.create_namespace = Unit
Writes Command.set_model = Unit
Writes Command.add_policies = Unit
Writes Command.update_policies = Unit
Writes Command.remove_policies = Unit
Writes Command.remove_filtered_policy = Unit
Writes Command.clear_policy = Unit
Writes other = ⊥

module _ (b : Badger) (casbin : Casbin b) (proto : Proto) where
  typed :
      (kind : CommandType) (ns payload : Str) (s : State b casbin proto)
      → Writes kind
      → IsFsmResponse (apply_command b casbin proto kind ns payload s).1
  unfolding apply_command apply_create_namespace apply_set_model apply_add_policies
      apply_update_policies apply_remove_policies apply_remove_filtered_policy apply_clear_policy
      set_model_of
  typed Command.create_namespace ns payload s h = ground arith
  typed Command.set_model ns payload s h = ground arith
  typed Command.add_policies ns payload s h = ground arith
  typed Command.update_policies ns payload s h = ground arith
  typed Command.remove_policies ns payload s h = ground arith
  typed Command.remove_filtered_policy ns payload s h = ground arith
  typed Command.clear_policy ns payload s h = ground arith
  typed Command.list_namespaces ns payload s h = elim h [ ]
  typed Command.print_model ns payload s h = elim h [ ]
  typed Command.list_policies ns payload s h = elim h [ ]
  typed Command.enforce_request ns payload s h = elim h [ ]
  typed Command.metadata_set ns payload s h = elim h [ ]
  typed Command.metadata_delete ns payload s h = elim h [ ]
  typed (Command.unknown i) ns payload s h = elim h [ ]

module _ (b : Badger) (casbin : Casbin b) (proto : Proto) (raft : Raft)
    (trip : RoundTrips proto.command) where
  -- The answer of a request: an error, or a response of the asserted type.
  abbrev Fits : Result Response → Type 0
  Fits (err e) = Unit
  Fits (ok r) = IsFsmResponse r

  wait-Fits :
      (c : Command) (entry : Str) (n : Node b casbin proto raft)
      → Writes c.kind
      → proto.command.unmarshal entry ≡ ok c
      → Fits (wait b casbin proto raft entry n).1
  unfolding wait apply
  wait-Fits c entry n h decoded = ground (
    arith,
    decoded,
    typed b casbin proto c.kind c.namespace c.payload
        (replay b casbin proto (raft.submit entry n.raft_state).1 n.fsm) h,
  )

  request-Fits :
      (c : Command) (n : Node b casbin proto raft)
      → Writes c.kind
      → Fits (request b casbin proto raft c n).1
  unfolding request
  request-Fits c n h = elim (Result-cases (proto.command.marshal c)) [
    | inl (entry, e) ↦ rw (e, request) (wait-Fits c entry n h (trip.decoded c entry e))
    | inr (x, e) ↦ rw (e, request) tt
  ]

  rules-Fits :
      (a : Node b casbin proto raft × Result Response)
      → Fits a.1
      → (answer_rules b casbin proto raft a).1 ≢ none
  unfolding answer_rules
  rules-Fits a h = ground arith

  flag-Fits :
      (a : Node b casbin proto raft × Result Response)
      → Fits a.1
      → (answer_flag b casbin proto raft a).1 ≢ none
  unfolding answer_flag
  flag-Fits a h = ground arith

  error-Fits :
      (a : Node b casbin proto raft × Result Response)
      → Fits a.1
      → (answer_error b casbin proto raft a).1 ≢ none
  unfolding answer_error
  error-Fits a h = ground arith

  -- No request that writes panics on the type of its response, whatever raft and the state machine
  -- do: each returns a result or an error, if a command that was encoded is decoded as itself.
  pub writes_return :
      (ns sec p_type text : Str) (fi : ℤ) (rules others : List (List Str)) (fv : List Str)
      (n : Node b casbin proto raft)
      → ((add_policies b casbin proto raft ns sec p_type rules n).1 ≢ none)
        × ((remove_policies b casbin proto raft ns sec p_type rules n).1 ≢ none)
        × ((remove_filtered_policy b casbin proto raft ns sec p_type fi fv n).1 ≢ none)
        × ((update_policies b casbin proto raft ns sec p_type rules others n).1 ≢ none)
        × ((clear_policy b casbin proto raft ns n).1 ≢ none)
        × ((create_namespace b casbin proto raft ns n).1 ≢ none)
        × ((set_model_from_string b casbin proto raft ns text n).1 ≢ none)
  unfolding add_policies remove_policies remove_filtered_policy update_policies clear_policy
      create_namespace set_model_from_string
  writes_return ns sec p_type text fi rules others fv n = (
    grind (arith, rules-Fits, request-Fits),
    grind (arith, rules-Fits, request-Fits),
    grind (arith, rules-Fits, request-Fits),
    grind (arith, flag-Fits, request-Fits),
    error-Fits _ (request-Fits _ n tt),
    error-Fits _ (request-Fits _ n tt),
    grind (arith, error-Fits, request-Fits),
  )

-- `PrintModel` of a namespace that has no model yet panics, once its entry is committed: the state
-- machine answers with a response of the type for decisions.
pub print_model-panics :
    (b : Badger) (casbin : Casbin b) (proto : Proto) (raft : Raft) (ns entry : Str)
    (n : Node b casbin proto raft) (r : raft.R) (before : List Str) (e : casbin.Enforcer)
    → Sent b casbin proto raft
        (record { kind = Command.print_model; namespace = ns; payload = [] })
        entry
    → raft.submit entry n.raft_state ≡ (r, before, none)
    → Dict.lookup ns (observe b casbin proto raft r before n).fsm.enforcers ≡ some e
    → casbin.get_model e ≡ none
    → print_model b casbin proto raft ns n ≡ (observe b casbin proto raft r before n, none)
unfolding print_model apply_print_model apply_command answer_model
print_model-panics b casbin proto raft ns entry n r before e sent committed there unset =
    ground (arith, request-committed b casbin proto raft _ entry n r before sent committed)

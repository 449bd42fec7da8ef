-- ===== src/Fsm.antt =====
-- server/store/fsm.go: the replicated state machine. `apply` runs one committed log entry; the case
-- for each command is a function of its own. An enforcer is a shared pointer, so what a failing call
-- left of it stays in the map.
mod Reads
unfoldable pub use Reads.*
pub mod Namespaces
pub mod Metadata
pub mod Branches
pub mod Snapshot
pub mod Toy
mod Tests
use casbin_mesh.Prelude.{
  ℕ, Str, str, Bool, true, false, not, Option, none, some, List, [], ◌∷◌, ◌++◌, ◌==◌, nat_eq,
  list_eq, if◌then◌else◌, ℤ, pos,
}
use casbin_mesh.Result.{
  Error, Result, ok, err, namespace_existed, model_unset_yet, namespace_not_exist, unmarshal_failed,
  state_transaction_failed, message,
}
use casbin_mesh.Dict
use casbin_mesh.Dict.{Dict}
use casbin_mesh.Badger.{Badger}
use casbin_mesh.Bucket
use casbin_mesh.Adapter.{RuleCodec, new_adapter}
use casbin_mesh.Casbin.{Casbin}
use casbin_mesh.Command
use casbin_mesh.Command.{
  Command, CommandType, Proto, MetadataSet, ListPoliciesPayload, to_string_array,
}
use casbin_mesh.Credentials.{CredentialsStore}

module _ (b : Badger) (casbin : Casbin b) (proto : Proto) where
  open casbin use {Enforcer}

  unfoldable pub apply_create_namespace :
      Str → State b casbin proto → State b casbin proto × Response
  apply_create_namespace ns s = elim (Dict.lookup ns s.enforcers) [
    | some e ↦ (s, failed namespace_existed)
    | none ↦ elim casbin.new_distributed_enforcer [
      | err e ↦ (s, failed e)
      | ok e ↦ (record s { enforcers = Dict.insert ns e s.enforcers }, succeeded)
    ]
  ]

  -- The pointer in the map, and the database, after a call on the enforcer.
  unfoldable pub put_enforcer : Str → Enforcer → b.Db → State b casbin proto → State b casbin proto
  put_enforcer ns e db s = record s { enforcers = Dict.insert ns e s.enforcers; db = db }

  unfoldable pub set_model_of :
      Str → Str → Enforcer → State b casbin proto → State b casbin proto × Response
  unfolding new_adapter put_enforcer
  set_model_of ns text enforcer s =
      let (db', e) = new_adapter b ns s.db in
      elim e [
        | some x ↦ (record s { db = db' }, failed x)
        | none ↦ elim (casbin.new_model_from_string text) [
          | err x ↦ (record s { db = db' }, failed x)
          | ok model ↦
              let (enforcer', x) = casbin.init_with_model_and_adapter model ns db' enforcer in
              (put_enforcer ns enforcer' db' s, error_response x)
        ]
      ]

  unfoldable pub apply_set_model :
      Str → Str → State b casbin proto → State b casbin proto × Response
  unfolding set_model_of
  apply_set_model ns payload s = elim (proto.model_text.unmarshal payload) [
    | err e ↦ (s, failed unmarshal_failed)
    | ok text ↦ elim (Dict.lookup ns s.enforcers) [
      | none ↦ (s, failed namespace_not_exist)
      | some enforcer ↦ set_model_of ns text enforcer s
    ]
  ]

  -- After a call that answers with rules, with a flag, or with an error alone.
  abbrev after_rules :
      Str
      → State b casbin proto
      → Enforcer × b.Db × Result (List (List Str))
      → State b casbin proto × Response
  after_rules ns s (e, db, r) = (put_enforcer ns e db s, rules_response r)

  abbrev after_flag :
      Str → State b casbin proto → Enforcer × b.Db × Result Bool → State b casbin proto × Response
  after_flag ns s (e, db, r) = (put_enforcer ns e db s, effected_response r)

  abbrev after_error :
      Str → State b casbin proto → Enforcer × b.Db × Option Error → State b casbin proto × Response
  after_error ns s (e, db, r) = (put_enforcer ns e db s, error_response r)

  -- A payload that cannot be decoded is reported as a missing namespace here.
  unfoldable pub apply_add_policies :
      Str → Str → State b casbin proto → State b casbin proto × Response
  unfolding put_enforcer
  apply_add_policies ns payload s = elim (proto.rules.unmarshal payload) [
    | err e ↦ (s, failed namespace_not_exist)
    | ok p ↦ elim (Dict.lookup ns s.enforcers) [
      | none ↦ (s, failed namespace_not_exist)
      | some e ↦ elim (casbin.get_model e) [
        | none ↦ (s, failed model_unset_yet)
        | some m ↦
            after_rules ns s
              (casbin.add_policies_self p.sec p.p_type (to_string_array p.rules) e s.db)
      ]
    ]
  ]

  unfoldable pub apply_update_policies :
      Str → Str → State b casbin proto → State b casbin proto × Response
  unfolding put_enforcer
  apply_update_policies ns payload s = elim (proto.update.unmarshal payload) [
    | err e ↦ (s, failed unmarshal_failed)
    | ok p ↦ elim (Dict.lookup ns s.enforcers) [
      | none ↦ (s, failed namespace_not_exist)
      | some e ↦ after_flag ns s (
          casbin.update_policies_self p.sec p.p_type (to_string_array p.old_rules)
            (to_string_array p.new_rules) e s.db)
    ]
  ]

  unfoldable pub apply_remove_policies :
      Str → Str → State b casbin proto → State b casbin proto × Response
  unfolding put_enforcer
  apply_remove_policies ns payload s = elim (proto.rules.unmarshal payload) [
    | err e ↦ (s, failed unmarshal_failed)
    | ok p ↦ elim (Dict.lookup ns s.enforcers) [
      | none ↦ (s, failed namespace_not_exist)
      | some e ↦
          after_rules ns s
            (casbin.remove_policies_self p.sec p.p_type (to_string_array p.rules) e s.db)
    ]
  ]

  unfoldable pub apply_remove_filtered_policy :
      Str → Str → State b casbin proto → State b casbin proto × Response
  unfolding put_enforcer
  apply_remove_filtered_policy ns payload s = elim (proto.filtered.unmarshal payload) [
    | err e ↦ (s, failed unmarshal_failed)
    | ok p ↦ elim (Dict.lookup ns s.enforcers) [
      | none ↦ (s, failed namespace_not_exist)
      | some e ↦
          after_rules ns s
            (casbin.remove_filtered_policy_self p.sec p.p_type p.field_index p.field_values e s.db)
    ]
  ]

  unfoldable pub apply_clear_policy : Str → State b casbin proto → State b casbin proto × Response
  unfolding put_enforcer
  apply_clear_policy ns s = elim (Dict.lookup ns s.enforcers) [
    | none ↦ (s, failed namespace_not_exist)
    | some e ↦ after_error ns s (casbin.clear_policy_self e s.db)
  ]

  abbrev pub or_empty : Option (Dict Str) → Dict Str
  or_empty none = []
  or_empty (some m) = m

  unfoldable pub apply_metadata_set : Str → State b casbin proto → State b casbin proto × Response
  apply_metadata_set payload s = elim (proto.metadata.unmarshal payload) [
    | err e ↦ (s, failed unmarshal_failed)
    | ok ms ↦ (
      record s {
        meta =
            Dict.insert ms.raft_id
              (Dict.insert_all ms.entries (or_empty (Dict.lookup ms.raft_id s.meta))) s.meta;
      },
      succeeded,
    )
  ]

  unfoldable pub apply_metadata_delete :
      Str → State b casbin proto → State b casbin proto × Response
  apply_metadata_delete payload s = elim (proto.metadata_id.unmarshal payload) [
    | err e ↦ (s, failed unmarshal_failed)
    | ok id ↦ (record s { meta = Dict.delete id s.meta }, succeeded)
  ]

  -- The switch over the type of the command.
  unfoldable pub apply_command :
      CommandType → Str → Str → State b casbin proto → State b casbin proto × Response
  apply_command Command.list_namespaces ns payload = apply_list_namespaces b casbin proto
  apply_command Command.print_model ns payload = apply_print_model b casbin proto ns
  apply_command Command.list_policies ns payload = apply_list_policies b casbin proto ns payload
  apply_command Command.enforce_request ns payload = apply_enforce_request b casbin proto ns payload
  apply_command Command.create_namespace ns payload = apply_create_namespace ns
  apply_command Command.set_model ns payload = apply_set_model ns payload
  apply_command Command.add_policies ns payload = apply_add_policies ns payload
  apply_command Command.update_policies ns payload = apply_update_policies ns payload
  apply_command Command.remove_policies ns payload = apply_remove_policies ns payload
  apply_command Command.remove_filtered_policy ns payload = apply_remove_filtered_policy ns payload
  apply_command Command.clear_policy ns payload = apply_clear_policy ns
  apply_command Command.metadata_set ns payload = apply_metadata_set payload
  apply_command Command.metadata_delete ns payload = apply_metadata_delete payload
  apply_command (Command.unknown n) ns payload =
      λ s. (s, failed (message (str "unhandled command")))

  unfoldable pub apply : Str → State b casbin proto → State b casbin proto × Response
  unfolding apply_command
  apply entry s = elim (proto.command.unmarshal entry) [
    | err e ↦ (s, failed unmarshal_failed)
    | ok c ↦ apply_command c.kind c.namespace c.payload s
  ]

  -- The log entries in their order, as every replica applies them.
  unfoldable pub replay : List Str → State b casbin proto → State b casbin proto
  unfolding apply
  replay [] s = s
  replay (entry ∷ log) s = replay log (apply entry s).0

-- ===== src/Store/Policies.antt =====
-- server/store/adapter.go: the requests that write policies. Each is encoded, sent through the log,
-- and answered with what the state machine made of it.
use casbin_mesh.Prelude.{Str, Bool, false, Option, none, some, List, [], ℤ, pos}
use casbin_mesh.Result.{Error, ok, err}
use casbin_mesh.Badger.{Badger}
use casbin_mesh.Bucket
use casbin_mesh.Casbin.{Casbin}
use casbin_mesh.Command
use casbin_mesh.Command.{
  Command, Proto, RulesPayload, UpdatePoliciesPayload, RemoveFilteredPolicyPayload,
  ListPoliciesPayload, new_string_array,
}
use casbin_mesh.Fsm.{row_texts}
use casbin_mesh.Store.{Raft, Answer, Node, request, answer_rules, answer_flag, answer_error}

abbrev pub rules_payload : Str → Str → List (List Str) → RulesPayload
rules_payload sec p_type rules = record {
  sec = sec;
  p_type = p_type;
  rules = new_string_array rules;
}

abbrev pub update_payload : Str → Str → List (List Str) → List (List Str) → UpdatePoliciesPayload
update_payload sec p_type nr old = record {
  sec = sec;
  p_type = p_type;
  new_rules = new_string_array nr;
  old_rules = new_string_array old;
}

-- `ListPoliciesOptions`, and what stands for a nil pointer
abbrev default_list_policies_options : ListPoliciesPayload
default_list_policies_options = record {
  cursor = [];
  skip = pos 0;
  limit = pos 1000;
  reverse = false;
}

module _ (b : Badger) (casbin : Casbin b) (proto : Proto) (raft : Raft) where
  unfoldable pub add_policies :
      Str
      → Str
      → Str
      → List (List Str)
      → Node b casbin proto raft
      → Node b casbin proto raft × Answer (List (List Str))
  unfolding request answer_rules
  add_policies ns sec p_type rules n = elim (proto.rules.marshal (rules_payload sec p_type rules)) [
    | err e ↦ (n, some ([], some e))
    | ok payload ↦ answer_rules b casbin proto raft (
        request b casbin proto raft
          (record { kind = Command.add_policies; namespace = ns; payload = payload }) n)
  ]

  unfoldable pub remove_policies :
      Str
      → Str
      → Str
      → List (List Str)
      → Node b casbin proto raft
      → Node b casbin proto raft × Answer (List (List Str))
  unfolding request answer_rules
  remove_policies ns sec p_type rules n =
      elim (proto.rules.marshal (rules_payload sec p_type rules)) [
        | err e ↦ (n, some ([], some e))
        | ok payload ↦ answer_rules b casbin proto raft (
            request b casbin proto raft
              (record { kind = Command.remove_policies; namespace = ns; payload = payload }) n)
      ]

  unfoldable pub remove_filtered_policy :
      Str
      → Str
      → Str
      → ℤ
      → List Str
      → Node b casbin proto raft
      → Node b casbin proto raft × Answer (List (List Str))
  unfolding request answer_rules
  remove_filtered_policy ns sec p_type fi fv n =
      elim (proto.filtered.marshal
        (record { sec = sec; p_type = p_type; field_index = fi; field_values = fv })) [
          | err e ↦ (n, some ([], some e))
          | ok payload ↦ answer_rules b casbin proto raft (
              request b casbin proto raft
                (record {
                  kind = Command.remove_filtered_policy;
                  namespace = ns;
                  payload = payload;
                })
                n)
        ]

  unfoldable pub update_policies :
      Str
      → Str
      → Str
      → List (List Str)
      → List (List Str)
      → Node b casbin proto raft
      → Node b casbin proto raft × Answer Bool
  unfolding request answer_flag
  update_policies ns sec p_type nr old n =
      elim (proto.update.marshal (update_payload sec p_type nr old)) [
        | err e ↦ (n, some (false, some e))
        | ok payload ↦ answer_flag b casbin proto raft (
            request b casbin proto raft
              (record { kind = Command.update_policies; namespace = ns; payload = payload }) n)
      ]

  unfoldable pub clear_policy :
      Str → Node b casbin proto raft → Node b casbin proto raft × Option (Option Error)
  unfolding request answer_error
  clear_policy ns n = answer_error b casbin proto raft (
      request b casbin proto raft
        (record { kind = Command.clear_policy; namespace = ns; payload = [] }) n)

  abbrev options_or_default : Option ListPoliciesPayload → ListPoliciesPayload
  options_or_default none = default_list_policies_options
  options_or_default (some p) = p

  -- `Policies` reads this node's database: the rows, and the error of the view's commit.
  unfoldable pub policies :
      Str
      → Option ListPoliciesPayload
      → Node b casbin proto raft
      → Node b casbin proto raft × Answer (List (List Str))
  unfolding row_texts Bucket.list Bucket.view
  policies ns options n =
      let p = options_or_default options in
      elim (Bucket.list b ns p.cursor p.skip p.limit p.reverse n.fsm.db) [
        | none ↦ (n, none)
        | some (rows, x) ↦
            let (db', e) = Bucket.view b (λ t. (t, x)) n.fsm.db in
            (record n { fsm = record n.fsm { db = db' } }, some (row_texts rows, e))
      ]

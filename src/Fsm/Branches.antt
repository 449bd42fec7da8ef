-- ===== src/Fsm/Branches.antt =====
-- What the log entries answer, and what they leave alone.
use casbin_mesh.Prelude.{Str, ◌≡◌, ◌≢◌, none, arith, nat_eq, list_eq, eq_refl}
use casbin_mesh.Result.{Error, ok, err, namespace_not_exist, namespace_existed, unmarshal_failed}
use casbin_mesh.Dict
use casbin_mesh.Dict.{Dict, lookup-insert}
use casbin_mesh.Badger.{Badger}
use casbin_mesh.Casbin.{Casbin}
use casbin_mesh.Command.{Proto, RulesPayload, UpdatePoliciesPayload, RemoveFilteredPolicyPayload}
use casbin_mesh.Fsm.{
  State, failed, apply_create_namespace, apply_set_model, apply_add_policies, apply_update_policies,
  apply_remove_policies, apply_remove_filtered_policy, apply_clear_policy,
}

module _ (b : Badger) (casbin : Casbin b) (proto : Proto) where
  -- An entry that sets the model or that adds, removes, updates or clears policies, for a namespace
  -- that does not exist, is refused with that error and changes nothing, if its payload can be decoded;
  -- one that adds policies also if it cannot.
  pub unknown_namespace :
      (ns payload text : Str) (p : RulesPayload) (q : UpdatePoliciesPayload)
      (f : RemoveFilteredPolicyPayload) (s : State b casbin proto)
      → Dict.lookup ns s.enforcers ≡ none
      → (apply_clear_policy b casbin proto ns s ≡ (s, failed namespace_not_exist))
        × (apply_add_policies b casbin proto ns payload s ≡ (s, failed namespace_not_exist))
        × (proto.model_text.unmarshal payload ≡ ok text
            → apply_set_model b casbin proto ns payload s ≡ (s, failed namespace_not_exist))
        × (proto.rules.unmarshal payload ≡ ok p
            → apply_remove_policies b casbin proto ns payload s ≡ (s, failed namespace_not_exist))
        × (proto.update.unmarshal payload ≡ ok q
            → apply_update_policies b casbin proto ns payload s ≡ (s, failed namespace_not_exist))
        × (proto.filtered.unmarshal payload ≡ ok f
            → apply_remove_filtered_policy b casbin proto ns payload s
              ≡ (s, failed namespace_not_exist))
  unfolding apply_clear_policy apply_add_policies apply_set_model apply_remove_policies
      apply_update_policies apply_remove_filtered_policy
  unknown_namespace ns payload text p q f s missing = (
    ground arith,
    ground arith,
    λ e. ground arith,
    λ e. ground arith,
    λ e. ground arith,
    λ e. ground arith,
  )

  -- A payload that cannot be decoded changes nothing. The entry is answered with UnmarshalFailed,
  -- but for ADD_POLICIES, which answers that the namespace does not exist, also where it does.
  pub undecodable :
      (ns payload : Str) (s : State b casbin proto) (x y z : Error)
      → proto.rules.unmarshal payload ≡ err x
      → proto.update.unmarshal payload ≡ err y
      → proto.filtered.unmarshal payload ≡ err z
      → (apply_add_policies b casbin proto ns payload s ≡ (s, failed namespace_not_exist))
        × (apply_remove_policies b casbin proto ns payload s ≡ (s, failed unmarshal_failed))
        × (apply_update_policies b casbin proto ns payload s ≡ (s, failed unmarshal_failed))
        × (apply_remove_filtered_policy b casbin proto ns payload s ≡ (s, failed unmarshal_failed))
  unfolding apply_add_policies apply_remove_policies apply_update_policies
      apply_remove_filtered_policy
  undecodable ns payload s x y z ex ey ez = (ground arith, ground arith, ground arith, ground arith)

  -- Whether or not the namespace was there, after CREATE_NAMESPACE it is, and a second one is refused
  -- and changes nothing, if casbin can make an enforcer.
  pub create_twice :
      (ns : Str) (e : casbin.Enforcer) (s : State b casbin proto)
      → casbin.new_distributed_enforcer ≡ ok e
      → let s' = (apply_create_namespace b casbin proto ns s).0 in
        (Dict.lookup ns s'.enforcers ≢ none)
        × (apply_create_namespace b casbin proto ns s' ≡ (s', failed namespace_existed))
  unfolding apply_create_namespace
  create_twice ns e s made = (
    ground (arith, lookup-insert ns ns e s.enforcers, eq_refl ns),
    ground (arith, lookup-insert ns ns e s.enforcers, eq_refl ns),
  )

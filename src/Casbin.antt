-- ===== src/Casbin.antt =====
-- casbin/v2, the policy engine that the nodes replicate: a parameter. The calls of a distributed
-- enforcer that write also write through its adapter, so they go from a database to a database.
use casbin_mesh.Prelude.{Str, Bool, Option, List, ℤ}
use casbin_mesh.Result.{Error, Result}
use casbin_mesh.Badger.{Badger}

pub record Casbin (b : Badger) : Type 1 where
  pub Enforcer : Type 0
  pub Model : Type 0
  -- a request value, as JSON decodes it
  pub Param : Type 0
  pub parse_param : Str → Result Param
  pub print_param : Param → Result Str
  pub new_distributed_enforcer : Result Enforcer
  -- `nil` where none is set
  pub get_model : Enforcer → Option Model
  pub to_text : Model → Str
  pub new_model_from_string : Str → Result Model
  -- the adapter is that of a namespace
  pub init_with_model_and_adapter : Model → Str → b.Db → Enforcer → Enforcer × Option Error
  pub add_policies_self :
      Str → Str → List (List Str) → Enforcer → b.Db → Enforcer × b.Db × Result (List (List Str))
  pub update_policies_self :
      Str
      → Str
      → List (List Str)
      → List (List Str)
      → Enforcer
      → b.Db
      → Enforcer × b.Db × Result Bool
  pub remove_policies_self :
      Str → Str → List (List Str) → Enforcer → b.Db → Enforcer × b.Db × Result (List (List Str))
  pub remove_filtered_policy_self :
      Str → Str → ℤ → List Str → Enforcer → b.Db → Enforcer × b.Db × Result (List (List Str))
  pub clear_policy_self : Enforcer → b.Db → Enforcer × b.Db × Option Error
  pub enforce : List Param → Enforcer → Result Bool

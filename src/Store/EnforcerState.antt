-- ===== src/Store/EnforcerState.antt =====
-- server/store/util.go: the state of an enforcer, and its model made of it again. A Go map is copied
-- by a loop over its entries, whose keys are distinct, so the copy has an entry for each.
pub mod Linked
mod Tests
use casbin_mesh.Prelude.{
  ℕ, ◌+◌, Str, str, Bool, true, false, ◌==◌, nat_eq, list_eq, ◌≡◌, refl, Option, none, some, List,
  [], ◌∷◌, if◌then◌else◌, ltb, length, take,
}
use casbin_mesh.Result.{Error, Result, ok, err, message}
use casbin_mesh.Dict
use casbin_mesh.Dict.{Dict}

pub record AssertionState : Type 0 where
  pub key : Str
  pub value : Str
  pub tokens : List Str
  pub policy : List (List Str)
  pub policy_map : Dict ℕ

abbrev pub AssertionStateMap : Type 0
AssertionStateMap = Dict AssertionState

abbrev pub ModelState : Type 0
ModelState = Dict AssertionStateMap

pub record EnforcerState : Type 0 where
  pub model : ModelState

-- casbin's role manager, and its `AddLink`, which changes it.
pub record Roles : Type 1 where
  pub Manager : Type 0
  pub new_role_manager : ℕ → Manager
  pub add_link : Str → Str → List Str → Manager → Manager × Option Error

-- The fields of casbin's `Assertion` that are read or set; `rm` may be nil.
pub record Assertion (roles : Roles) : Type 0 where
  pub key : Str
  pub value : Str
  pub tokens : List Str
  pub policy : List (List Str)
  pub policy_map : Dict ℕ
  pub rm : Option roles.Manager

-- `strings.Count(value, "_")`
unfoldable pub count_blanks : Str → ℕ
count_blanks [] = 0
count_blanks (c ∷ s) = if c == b'_' then 1 + count_blanks s else count_blanks s

module _ (roles : Roles) where
  abbrev pub AssertionMap : Type 0
  AssertionMap = Dict (Assertion roles)

  abbrev pub Model : Type 0
  Model = Dict AssertionMap

  abbrev assertion_state : Assertion roles → AssertionState
  assertion_state v = record {
    key = v.key;
    value = v.value;
    tokens = v.tokens;
    policy = v.policy;
    policy_map = v.policy_map;
  }

  abbrev assertion_states : AssertionMap → AssertionStateMap
  assertion_states [] = []
  assertion_states ((k2, v) ∷ vs) = (k2, assertion_state v) ∷ assertion_states vs

  unfoldable pub model_state : Model → ModelState
  model_state [] = []
  model_state ((k, vs) ∷ m) = (k, assertion_states vs) ∷ model_state m

  -- `CreateEnforcerState` of an enforcer, or of nil, by its model.
  unfoldable pub create_enforcer_state : Option Model → Result EnforcerState
  unfolding model_state
  create_enforcer_state none = err (message (str "nil input"))
  create_enforcer_state (some m) = ok (record { model = model_state m })

  -- The links of a rule that is cut already; `none` is the panic of `rule[0]` or `rule[1]`.
  unfoldable pub link_rule : List Str → roles.Manager → Option (roles.Manager × Option Error)
  link_rule (a ∷ (b ∷ domain)) rm = some (roles.add_link a b domain rm)
  link_rule _ rm = none

  -- The loop over the rules of a policy.
  unfoldable pub link_rules : ℕ → List (List Str) → roles.Manager → Option (Result roles.Manager)
  unfolding link_rule
  link_rules count [] rm = some (ok rm)
  link_rules count (rule ∷ rules) rm =
      if ltb (length rule) count
      then some (err (message (str "grouping policy elements do not meet role definition")))
      else elim (link_rule (if ltb count (length rule) then take count rule else rule) rm) [
        | none ↦ none
        | some (rm', some e) ↦ some (err e)
        | some (rm', none) ↦ link_rules count rules rm'
      ]

  abbrev assertion : AssertionState → Option roles.Manager → Assertion roles
  assertion v rm = record {
    key = v.key;
    value = v.value;
    tokens = v.tokens;
    policy = v.policy;
    policy_map = v.policy_map;
    rm = rm;
  }

  abbrev with_roles :
      AssertionState → Option (Result roles.Manager) → Option (Result (Assertion roles))
  with_roles v none = none
  with_roles v (some (err e)) = some (err e)
  with_roles v (some (ok rm)) = some (ok (assertion v (some rm)))

  unfoldable pub create_assertion : Str → AssertionState → Option (Result (Assertion roles))
  unfolding link_rules count_blanks
  create_assertion k2 v =
      if k2 == str "g"
      then with_roles v (link_rules (count_blanks v.value) v.policy (roles.new_role_manager 10))
      else some (ok (assertion v none))

  -- One section; on an error it is dropped.
  unfoldable pub create_assertions : AssertionStateMap → Option (Result AssertionMap)
  unfolding create_assertion
  create_assertions [] = some (ok [])
  create_assertions ((k2, v) ∷ vs) =
      let rest = create_assertions vs in
      elim (create_assertion k2 v) [
        | none ↦ none
        | some (err e) ↦ some (err e)
        | some (ok a) ↦ elim rest [
          | none ↦ none
          | some (err e) ↦ some (err e)
          | some (ok am) ↦ some (ok ((k2, a) ∷ am))
        ]
      ]

  -- The loop over the sections, from the model `m`; on an error, `m` as it is then comes with it.
  unfoldable pub create_sections : ModelState → Model → Option (Model × Option Error)
  unfolding create_assertions Dict.insert
  create_sections [] m = some (m, none)
  create_sections ((k, vs) ∷ ms) m = elim (create_assertions vs) [
    | none ↦ none
    | some (err e) ↦ some (m, some e)
    | some (ok am) ↦ create_sections ms (Dict.insert k am m)
  ]

  -- `CreateModelFormEnforcerState`; `new_model` is what casbin's `NewModel` gives.
  unfoldable pub create_model_form_enforcer_state :
      Model → EnforcerState → Option (Model × Option Error)
  unfolding create_sections
  create_model_form_enforcer_state new_model state = create_sections state.model new_model

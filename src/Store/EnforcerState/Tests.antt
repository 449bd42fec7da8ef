-- ===== src/Store/EnforcerState/Tests.antt =====
-- A model with a policy and a section of roles, whose manager keeps its links.
use casbin_mesh.Prelude.{
  Str, str, ◌≡◌, refl, nat_eq, list_eq, list_beq, none, some, List, [], ◌∷◌, arith,
}
use casbin_mesh.Result.{ok, message}
use casbin_mesh.Dict
use casbin_mesh.Store.EnforcerState.{
  EnforcerState, Roles, Assertion, Model, count_blanks, create_enforcer_state,
  create_model_form_enforcer_state, model_state,
}
use casbin_mesh.Store.EnforcerState.Linked.{relinked, create_model_form_enforcer_state-create}

abbrev kept_links : Roles
kept_links = record {
  Manager = List (Str × Str);
  new_role_manager = λ depth. [];
  add_link = λ a b domain rm. ((a, b) ∷ rm, none);
}

abbrev policy_of : Str → Str → List (List Str) → Assertion kept_links
policy_of key value policy = record {
  key = key;
  value = value;
  tokens = [];
  policy = policy;
  policy_map = [];
  rm = none;
}

abbrev roles_of : List (List Str) → Model kept_links
roles_of policy =
    (
      str "p",
      (str "p", policy_of (str "p") (str "sub, obj") ((str "r" ∷ (str "d" ∷ [])) ∷ [])) ∷ [],
    )
    ∷ ((str "g", (str "g", policy_of (str "g") (str "_, _") policy) ∷ []) ∷ [])

abbrev two_roles : Model kept_links
two_roles =
    roles_of ((str "ann" ∷ (str "r" ∷ [])) ∷ ((str "bob" ∷ (str "r" ∷ (str "x" ∷ []))) ∷ []))

-- A new model has a section of its own.
abbrev fresh : Model kept_links
fresh = (str "logger", []) ∷ []

-- A rule that is too short: the sections before it come with the error.
short_rule :
    create_model_form_enforcer_state kept_links fresh
      (record { model = model_state kept_links (roles_of ((str "ann" ∷ []) ∷ [])) })
    ≡ some (
      (str "logger", [])
          ∷ ((
            str "p",
            (str "p", policy_of (str "p") (str "sub, obj") ((str "r" ∷ (str "d" ∷ [])) ∷ [])) ∷ [],
          )
              ∷ []),
      some (message (str "grouping policy elements do not meet role definition")),
    )
unfolding create_model_form_enforcer_state model_state count_blanks list_beq Dict.insert
short_rule = refl

create_model_form_enforcer_state-create_example :
    (state : EnforcerState) × (create_enforcer_state kept_links (some two_roles) ≡ ok state)
    × (create_model_form_enforcer_state kept_links fresh state
        ≡ some (Dict.insert_all (relinked kept_links two_roles) fresh, none))
unfolding count_blanks list_beq
create_model_form_enforcer_state-create_example =
    create_model_form_enforcer_state-create kept_links (λ a b domain rm. refl) fresh two_roles
      (
        ((λ h. ground (arith, h)), tt),
        (((λ h. (ground arith, (ground arith, (ground arith, tt)))), tt), tt),
      )

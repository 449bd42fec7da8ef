-- ===== src/Store/EnforcerState/Linked.antt =====
-- The model that is made of a model's state.
use casbin_mesh.Prelude.{
  ℕ, ◌≤◌, zero, suc, Str, str, true, false, ◌==◌, nat_eq, list_eq, ◌≡◌, refl, none, some, List, [],
  ◌∷◌, if◌then◌else◌, ltb, length, length-take, take, All, arith, Bool-cases, inl, inr, ◌∙◌, ap,
  sym,
}
use casbin_mesh.Result.{ok}
use casbin_mesh.Dict
use casbin_mesh.Store.EnforcerState.{
  EnforcerState, Roles, Assertion, AssertionMap, Model, count_blanks, assertion_state,
  assertion_states, link_rule, link_rules, create_assertion, create_assertions, create_sections,
  model_state, create_enforcer_state, create_model_form_enforcer_state,
}

module _ (roles : Roles) where
  -- The manager with a rule linked.
  abbrev linked : List Str → roles.Manager → roles.Manager
  linked (a ∷ (b ∷ domain)) rm = (roles.add_link a b domain rm).0
  linked _ rm = rm

  abbrev pub link_all : ℕ → List (List Str) → roles.Manager → roles.Manager
  link_all count [] rm = rm
  link_all count (rule ∷ rules) rm = link_all count rules (linked (take count rule) rm)

  -- The role definition has two places at least, and each rule has a value for each.
  abbrev pub Fits : Assertion roles → Type 0
  Fits v = (2 ≤ count_blanks v.value) × All (λ rule. count_blanks v.value ≤ length rule) v.policy

  abbrev pub GroupFits : Str × Assertion roles → Type 0
  GroupFits entry = entry.0 == str "g" ≡ true → Fits entry.1

  abbrev pub relinked_assertion : Str → Assertion roles → Assertion roles
  relinked_assertion k2 v = record v {
    rm =
        if k2 == str "g"
        then some (link_all (count_blanks v.value) v.policy (roles.new_role_manager 10))
        else none;
  }

  abbrev pub relinked_section : AssertionMap roles → AssertionMap roles
  relinked_section [] = []
  relinked_section ((k2, v) ∷ vs) = (k2, relinked_assertion k2 v) ∷ relinked_section vs

  abbrev pub relinked : Model roles → Model roles
  relinked [] = []
  relinked ((k, vs) ∷ m) = (k, relinked_section vs) ∷ relinked m

  take_all : {A : Type 0} (n : ℕ) (xs : List A) → n ≡ length xs → take n xs ≡ xs
  take_all zero [] h = refl
  take_all zero (x ∷ xs) h = absurd (omega (arith, h))
  take_all (suc n) [] h = absurd (omega (arith, h))
  take_all (suc n) (x ∷ xs) h = ap (λ ys. x ∷ ys) (take_all n xs (omega (arith, h)))

  -- Cutting a rule that is too long is taking as many values as there are places.
  cut_lem :
      (count : ℕ) (rule : List Str)
      → count ≤ length rule
      → (if ltb count (length rule) then take count rule else rule) ≡ take count rule
  cut_lem count rule enough = elim (Bool-cases (ltb count (length rule))) [
    | inl long ↦ ap (λ c. if c then take count rule else rule) long
    | inr fits ↦
        ap (λ c. if c then take count rule else rule) fits
        ∙ sym (take_all count rule (ground (arith, fits, enough)))
  ]

  module _
      (links : (a b : Str) (domain : List Str) (rm : roles.Manager)
        → (roles.add_link a b domain rm).1 ≡ none) where
    link_rule_lem :
        (rule : List Str) (rm : roles.Manager)
        → 2 ≤ length rule
        → link_rule roles rule rm ≡ some (linked rule rm, none)
    unfolding link_rule
    link_rule_lem [] rm two = absurd (omega (arith, two))
    link_rule_lem (a ∷ []) rm two = absurd (omega (arith, two))
    link_rule_lem (a ∷ (b ∷ domain)) rm two =
        ap (λ e. some ((roles.add_link a b domain rm).0, e)) (links a b domain rm)

    link_rules_lem :
        (count : ℕ) (rules : List (List Str)) (rm : roles.Manager)
        → 2 ≤ count
        → All (λ rule. count ≤ length rule) rules
        → link_rules roles count rules rm ≡ some (ok (link_all count rules rm))
    unfolding link_rules
    link_rules_lem count [] rm two fit = refl
    link_rules_lem count (rule ∷ rules) rm two fit =
        let enough : ltb (length rule) count ≡ false = ground (arith, fit.0) in
        let taken : 2 ≤ length (take count rule) =
          omega (arith, two, fit.0, length-take count rule) in
        let rest = link_rules_lem count rules (linked (take count rule) rm) two fit.1 in
        rw (link_rules, enough, cut_lem count rule fit.0, link_rule_lem (take count rule) rm taken)
          rest

    create_assertion_lem :
        (k2 : Str) (v : Assertion roles)
        → GroupFits (k2, v)
        → create_assertion roles k2 (assertion_state roles v) ≡ some (ok (relinked_assertion k2 v))
    unfolding create_assertion
    create_assertion_lem k2 v fits = elim (Bool-cases (k2 == str "g")) [
      | inl group ↦
          rw
            (
              create_assertion,
              group,
              link_rules_lem (count_blanks v.value) v.policy (roles.new_role_manager 10)
                  (fits group).0 (fits group).1,
            )
            refl
      | inr plain ↦ rw (create_assertion, plain) refl
    ]

    create_assertions_lem :
        (vs : AssertionMap roles)
        → All GroupFits vs
        → create_assertions roles (assertion_states roles vs) ≡ some (ok (relinked_section vs))
    unfolding create_assertions
    create_assertions_lem [] fit = refl
    create_assertions_lem ((k2, v) ∷ vs) fit =
        rw (create_assertions, create_assertion_lem k2 v fit.0, create_assertions_lem vs fit.1) refl

    create_sections_lem :
        (m : Model roles)
        → All (λ section. All GroupFits section.1) m
        → (old : Model roles)
        → create_sections roles (model_state roles m) old
          ≡ some (Dict.insert_all (relinked m) old, none)
    unfolding create_sections model_state Dict.insert_all
    create_sections_lem [] fit old = refl
    create_sections_lem ((k, vs) ∷ m) fit old =
        rw (create_sections, model_state, create_assertions_lem vs fit.0)
          (create_sections_lem m fit.1 (Dict.insert k (relinked_section vs) old))

    -- Where no link fails, and each rule of a definition named `g` has a value for each of at least two
    -- places, the state of a model gives its sections again, set in the model that `NewModel` gives. The
    -- definition `g` gets a new role manager, made of all its rules in their order; every other
    -- definition comes without the role manager that it had, also one of a second role named `g2`.
    pub create_model_form_enforcer_state-create :
        (new_model m : Model roles)
        → All (λ section. All GroupFits section.1) m
        → (state : EnforcerState) × (create_enforcer_state roles (some m) ≡ ok state)
          × (create_model_form_enforcer_state roles new_model state
              ≡ some (Dict.insert_all (relinked m) new_model, none))
    unfolding create_enforcer_state create_model_form_enforcer_state
    create_model_form_enforcer_state-create new_model m fit =
        (record { model = model_state roles m }, refl, create_sections_lem m fit new_model)

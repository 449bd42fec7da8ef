-- ===== src/Fsm/Reads.antt =====
-- server/store/fsm.go: what the state machine keeps, its responses, and the commands that read.
use casbin_mesh.Prelude.{
  Str, Bool, false, Option, none, some, List, [], ◌∷◌, ◌==◌, nat_eq, list_eq, if◌then◌else◌, pos,
}
use casbin_mesh.Result.{
  Error, Result, ok, err, namespace_not_exist, unmarshal_failed, state_transaction_failed,
}
use casbin_mesh.Dict
use casbin_mesh.Dict.{Dict}
use casbin_mesh.Badger.{Badger}
use casbin_mesh.Bucket
use casbin_mesh.Casbin.{Casbin}
use casbin_mesh.Command.{Proto, ListPoliciesPayload}
use casbin_mesh.Credentials.{CredentialsStore}

-- The results of `Apply`, by their Go types. A panic of the code is a result here.
pub data Response : Type 0 where
  fsm_response : Option Error → Bool → List (List Str) → Response
  fsm_enforce_response : Bool → Option Error → Response
  list_namespaces_response : List Str → Option Error → Response
  list_policies_response : List (List Str) → Option Error → Response
  print_model_response : Str → Option Error → Response
  panics : Response

-- `&FSMResponse{error: e}` and `&FSMResponse{}`
abbrev pub failed : Error → Response
failed e = fsm_response (some e) false []

abbrev pub succeeded : Response
succeeded = fsm_response none false []

-- What a call of the enforcer on rules answers.
abbrev pub rules_response : Result (List (List Str)) → Response
rules_response (ok rules) = fsm_response none false rules
rules_response (err e) = failed e

abbrev pub effected_response : Result Bool → Response
effected_response (ok effected) = fsm_response none effected []
effected_response (err e) = failed e

abbrev pub error_response : Option Error → Response
error_response none = succeeded
error_response (some e) = failed e

-- `[]string{key, value}` for each row of `Bucket.List`
unfoldable pub row_texts : List (Str × Str) → List (List Str)
row_texts [] = []
row_texts ((k, v) ∷ rows) = (k ∷ (v ∷ [])) ∷ row_texts rows

unfoldable pub names_of : List (Str × Str) → List Str
names_of [] = []
names_of ((k, v) ∷ rows) = k ∷ names_of rows

module _ (b : Badger) (casbin : Casbin b) (proto : Proto) where
  open casbin use {Enforcer, Param}

  -- The fields of `Store` that the state machine keeps.
  pub record State : Type 0 where
    pub enforcers : Dict Enforcer
    pub db : b.Db
    pub meta : Dict (Dict Str)
    -- a field that fsm.go names and the struct `Store` does not have
    pub auth_cred_store : Option CredentialsStore

  unfoldable pub apply_list_namespaces : State → State × Response
  unfolding names_of Bucket.namespaces
  apply_list_namespaces s = (s, list_namespaces_response (names_of (Bucket.namespaces b s.db)) none)

  abbrev model_response : Option casbin.Model → Response
  model_response none = fsm_enforce_response false none
  model_response (some m) = print_model_response (casbin.to_text m) none

  -- Without a model the response is of another type than the caller expects.
  unfoldable pub apply_print_model : Str → State → State × Response
  apply_print_model ns s = elim (Dict.lookup ns s.enforcers) [
    | none ↦ (s, print_model_response [] (some namespace_not_exist))
    | some e ↦ (s, model_response (casbin.get_model e))
  ]

  -- `payload.Limit = 1000` where there is no payload
  abbrev default_listing : ListPoliciesPayload
  default_listing = record { cursor = []; skip = pos 0; limit = pos 1000; reverse = false }

  unfoldable pub list_policies_with : Str → ListPoliciesPayload → State → State × Response
  unfolding row_texts Bucket.list Bucket.view
  list_policies_with ns p s = elim (Bucket.list b ns p.cursor p.skip p.limit p.reverse s.db) [
    | none ↦ (s, panics)
    | some (rows, x) ↦
        let (db', e) = Bucket.view b (λ t. (t, x)) s.db in
        (
          record s { db = db' },
          elim e [
            | none ↦ list_policies_response (row_texts rows) none
            | some y ↦ list_policies_response [] (some state_transaction_failed)
          ],
        )
  ]

  unfoldable pub apply_list_policies : Str → Str → State → State × Response
  unfolding list_policies_with
  apply_list_policies ns payload s =
      if payload == []
      then list_policies_with ns default_listing s
      else elim (proto.listing.unmarshal payload) [
        | err e ↦ (s, list_policies_response [] (some unmarshal_failed))
        | ok p ↦ list_policies_with ns p s
      ]

  -- The values of a request; an error is that of the first text that is no JSON.
  unfoldable pub parse_params : List Str → Result (List Param)
  parse_params [] = ok []
  parse_params (t ∷ ts) = elim (casbin.parse_param t) [
    | err e ↦ err e
    | ok v ↦ elim (parse_params ts) [ err e ↦ err e | ok vs ↦ ok (v ∷ vs) ]
  ]

  abbrev pub enforce_response : Result Bool → Response
  enforce_response (ok r) = fsm_enforce_response r none
  enforce_response (err e) = fsm_enforce_response false (some e)

  unfoldable pub apply_enforce_request : Str → Str → State → State × Response
  unfolding parse_params
  apply_enforce_request ns payload s = elim (proto.enforce.unmarshal payload) [
    | err e ↦ (s, fsm_enforce_response false (some unmarshal_failed))
    | ok p ↦ elim (parse_params p.b) [
      | err e ↦ (s, fsm_enforce_response false (some unmarshal_failed))
      | ok params ↦ elim (Dict.lookup ns s.enforcers) [
        | none ↦ (s, fsm_enforce_response false (some namespace_not_exist))
        | some e ↦ (s, enforce_response (casbin.enforce params e))
      ]
    ]
  ]

-- ===== src/Http/Requests.antt =====
-- server/core/http.go: the requests of the HTTP service, and how they are decoded and validated.
use casbin_mesh.Prelude.{
  ◌≢◌, ◌≡◌, Str, str, Bool, true, false, Option, none, some, List, [], ◌∷◌, ◌++◌, ℤ, pos, negsuc,
  ◌^◌, ◌-◌, if◌then◌else◌, nat_eq, list_eq,
}
use casbin_mesh.Result.{Error, Result, ok, err, ◌>>=◌}
use casbin_mesh.Dict.{Dict}
use casbin_mesh.Http.{Body}
use casbin_mesh.Http.Json.{
  Json, Array, no_items, item, Fields, field, fields_of, text_of, flag_of, int_of, texts_of,
  rows_of, entries_of, JsonText, json_null, json_array, mismatch,
}

-- go-playground/validator: which values it takes for a field that is `required`, by the field's type,
-- and the error that names the others. A nil slice is `none`.
pub record Validator : Type 0 where
  pub text_set : Str → Bool
  pub flag_set : Bool → Bool
  pub int_set : ℤ → Bool
  pub texts_set : Option (List Str) → Bool
  pub rows_set : Option (List (List Str)) → Bool
  pub missing : List Str → Error

-- A zero value is missing, and any other value is there.
pub record ValidatorLaws (v : Validator) : Type 0 where
  pub text_given : (s : Str) → s ≢ [] → v.text_set s ≡ true
  pub flag_given : (f : Bool) → v.flag_set f ≡ f
  pub int_zero : v.int_set (pos 0) ≡ false

-- `map[string]interface{}` and `[]interface{}` keep the values as they are.
unfoldable pub items_in : Array → List Json
items_in no_items = []
items_in (item v a) = v ∷ items_in a

unfoldable pub items_of : Json → Result (List Json)
unfolding items_in
items_of json_null = ok []
items_of (json_array a) = ok (items_in a)
items_of _ = err mismatch

abbrev int32_of : Json → Result ℤ
int32_of v = int_of (negsuc (2 ^ 31 - 1)) (pos (2 ^ 31 - 1)) v

abbrev int64_of : Json → Result ℤ
int64_of v = int_of (negsuc (2 ^ 63 - 1)) (pos (2 ^ 63 - 1)) v

abbrev or_nil {ℓ} : {A : Type ℓ} → Option (List A) → List A
or_nil none = []
or_nil (some l) = l

-- The field's name, if the value is missing.
abbrev unless : Bool → Str → List Str
unless set name = if set then [] else name ∷ []

pub record JoinRequest : Type 0 where
  pub id : Str
  pub addr : Str
  pub voter : Bool
  pub metadata : Dict Str

pub record RemoveRequest : Type 0 where
  pub id : Str

pub record CreateNamespaceRequest : Type 0 where
  pub ns : Str

pub record SetModelFromStringRequest : Type 0 where
  pub ns : Str
  pub text : Str

pub record EnforceRequest : Type 0 where
  pub ns : Str
  pub level : ℤ
  pub freshness : ℤ
  pub params : List Json

pub record AddPoliciesRequest : Type 0 where
  pub ns : Str
  pub sec : Str
  pub p_type : Str
  pub rules : List (List Str)

pub record RemovePoliciesRequest : Type 0 where
  pub ns : Str
  pub sec : Str
  pub p_type : Str
  pub rules : List (List Str)

pub record RemoveFilteredPolicyRequest : Type 0 where
  pub ns : Str
  pub sec : Str
  pub p_type : Str
  pub field_index : ℤ
  pub field_values : List Str

pub record UpdatePoliciesRequest : Type 0 where
  pub ns : Str
  pub sec : Str
  pub p_type : Str
  pub new_rules : List (List Str)
  pub old_rules : List (List Str)

pub record ClearPolicyRequest : Type 0 where
  pub ns : Str

pub record ListPoliciesRequest : Type 0 where
  pub ns : Str
  pub cursor : Str
  pub skip : ℤ
  pub limit : ℤ
  pub reverse : Bool

pub record PrintModelRequest : Type 0 where
  pub ns : Str

-- `s.Validate.Struct(output)` after the decoding
abbrev checked {ℓ} : {A : Type ℓ} → (List Str → Error) → List Str → A → Result A
checked missing [] a = ok a
checked missing (name ∷ names) a = err (missing (name ∷ names))

-- `decode` for each request: the body is parsed, read field by field, and validated.
module _ (j : JsonText) (v : Validator) where
  abbrev parsed : Body → Result Fields
  parsed body = do o ← j.parse body; fields_of o

  unfoldable pub decode_join : Body → Result JoinRequest
  unfolding field entries_of
  decode_join body = do
    m ← parsed body
    id ← text_of (field (str "id") m)
    addr ← text_of (field (str "addr") m)
    voter ← flag_of (field (str "voter") m)
    metadata ← entries_of (field (str "metadata") m)
    checked v.missing
        (unless (v.text_set id) (str "id")
          ++ unless (v.text_set addr) (str "addr")
          ++ unless (v.flag_set voter) (str "voter"))
        (record { id = id; addr = addr; voter = voter; metadata = metadata })

  unfoldable pub decode_remove : Body → Result RemoveRequest
  unfolding field
  decode_remove body = do
    m ← parsed body
    id ← text_of (field (str "id") m)
    checked v.missing (unless (v.text_set id) (str "id")) (record { id = id })

  unfoldable pub decode_create_namespace : Body → Result CreateNamespaceRequest
  unfolding field
  decode_create_namespace body = do
    m ← parsed body
    ns ← text_of (field (str "ns") m)
    checked v.missing (unless (v.text_set ns) (str "ns")) (record { ns = ns })

  unfoldable pub decode_set_model_from_string : Body → Result SetModelFromStringRequest
  unfolding field
  decode_set_model_from_string body = do
    m ← parsed body
    ns ← text_of (field (str "ns") m)
    text ← text_of (field (str "text") m)
    checked v.missing (unless (v.text_set ns) (str "ns") ++ unless (v.text_set text) (str "text"))
        (record { ns = ns; text = text })

  unfoldable pub decode_enforce : Body → Result EnforceRequest
  unfolding field items_of
  decode_enforce body = do
    m ← parsed body
    ns ← text_of (field (str "ns") m)
    level ← int32_of (field (str "level") m)
    freshness ← int64_of (field (str "freshness") m)
    params ← items_of (field (str "params") m)
    checked v.missing (unless (v.text_set ns) (str "ns"))
        (record { ns = ns; level = level; freshness = freshness; params = params })

  unfoldable pub decode_add_policies : Body → Result AddPoliciesRequest
  unfolding field rows_of
  decode_add_policies body = do
    m ← parsed body
    ns ← text_of (field (str "ns") m)
    sec ← text_of (field (str "sec") m)
    p_type ← text_of (field (str "ptype") m)
    rules ← rows_of (field (str "rules") m)
    checked v.missing
        (unless (v.text_set ns) (str "ns")
          ++ unless (v.text_set sec) (str "sec")
          ++ unless (v.text_set p_type) (str "ptype")
          ++ unless (v.rows_set rules) (str "rules"))
        (record { ns = ns; sec = sec; p_type = p_type; rules = or_nil rules })

  unfoldable pub decode_remove_policies : Body → Result RemovePoliciesRequest
  unfolding field rows_of
  decode_remove_policies body = do
    m ← parsed body
    ns ← text_of (field (str "ns") m)
    sec ← text_of (field (str "sec") m)
    p_type ← text_of (field (str "ptype") m)
    rules ← rows_of (field (str "rules") m)
    checked v.missing
        (unless (v.text_set ns) (str "ns")
          ++ unless (v.text_set sec) (str "sec")
          ++ unless (v.text_set p_type) (str "ptype")
          ++ unless (v.rows_set rules) (str "rules"))
        (record { ns = ns; sec = sec; p_type = p_type; rules = or_nil rules })

  unfoldable pub decode_remove_filtered_policy : Body → Result RemoveFilteredPolicyRequest
  unfolding field texts_of
  decode_remove_filtered_policy body = do
    m ← parsed body
    ns ← text_of (field (str "ns") m)
    sec ← text_of (field (str "sec") m)
    p_type ← text_of (field (str "ptype") m)
    field_index ← int32_of (field (str "fieldIndex") m)
    field_values ← texts_of (field (str "fieldValues") m)
    checked v.missing
        (unless (v.text_set ns) (str "ns")
          ++ unless (v.text_set sec) (str "sec")
          ++ unless (v.text_set p_type) (str "ptype")
          ++ unless (v.int_set field_index) (str "fieldIndex")
          ++ unless (v.texts_set field_values) (str "fieldValues"))
        (record {
          ns = ns;
          sec = sec;
          p_type = p_type;
          field_index = field_index;
          field_values = or_nil field_values;
        })

  unfoldable pub decode_update_policies : Body → Result UpdatePoliciesRequest
  unfolding field rows_of
  decode_update_policies body = do
    m ← parsed body
    ns ← text_of (field (str "ns") m)
    sec ← text_of (field (str "sec") m)
    p_type ← text_of (field (str "ptype") m)
    new_rules ← rows_of (field (str "newRules") m)
    old_rules ← rows_of (field (str "oldRules") m)
    checked v.missing
        (unless (v.text_set ns) (str "ns")
          ++ unless (v.text_set sec) (str "sec")
          ++ unless (v.text_set p_type) (str "ptype")
          ++ unless (v.rows_set new_rules) (str "newRules")
          ++ unless (v.rows_set old_rules) (str "oldRules"))
        (record {
          ns = ns;
          sec = sec;
          p_type = p_type;
          new_rules = or_nil new_rules;
          old_rules = or_nil old_rules;
        })

  unfoldable pub decode_clear_policy : Body → Result ClearPolicyRequest
  unfolding field
  decode_clear_policy body = do
    m ← parsed body
    ns ← text_of (field (str "ns") m)
    checked v.missing (unless (v.text_set ns) (str "ns")) (record { ns = ns })

  unfoldable pub decode_list_policies : Body → Result ListPoliciesRequest
  unfolding field
  decode_list_policies body = do
    m ← parsed body
    ns ← text_of (field (str "ns") m)
    cursor ← text_of (field (str "cursor") m)
    skip ← int64_of (field (str "skip") m)
    limit ← int64_of (field (str "limit") m)
    reverse ← flag_of (field (str "reverse") m)
    checked v.missing (unless (v.text_set ns) (str "ns"))
        (record { ns = ns; cursor = cursor; skip = skip; limit = limit; reverse = reverse })

  unfoldable pub decode_print_model : Body → Result PrintModelRequest
  unfolding field
  decode_print_model body = do
    m ← parsed body
    ns ← text_of (field (str "ns") m)
    checked v.missing (unless (v.text_set ns) (str "ns")) (record { ns = ns })

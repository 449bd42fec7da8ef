-- ===== src/Command.antt =====
-- proto/command: the commands of the Raft log and their payloads. The generated code is a parameter:
-- it encodes and decodes the messages. `util.go` converts rules to messages and back.
use casbin_mesh.Prelude.{ℕ, Str, ◌≡◌, refl, ap, Bool, List, [], ◌∷◌, ℤ}
use casbin_mesh.Result.{Result, ok}
use casbin_mesh.Dict.{Dict}

pub data CommandType : Type 0 where
  list_namespaces print_model list_policies enforce_request : CommandType
  create_namespace set_model : CommandType
  add_policies update_policies remove_policies remove_filtered_policy clear_policy : CommandType
  metadata_set metadata_delete : CommandType
  unknown : ℕ → CommandType

-- The bytes field `payload` is nil exactly if it is empty, since an empty one is not encoded.
pub record Command : Type 0 where
  pub kind : CommandType
  pub namespace : Str
  pub payload : Str

pub record StringArray : Type 0 where
  pub s : List Str

pub record RulesPayload : Type 0 where
  pub sec : Str
  pub p_type : Str
  pub rules : List StringArray

pub record UpdatePoliciesPayload : Type 0 where
  pub sec : Str
  pub p_type : Str
  pub new_rules : List StringArray
  pub old_rules : List StringArray

pub record RemoveFilteredPolicyPayload : Type 0 where
  pub sec : Str
  pub p_type : Str
  pub field_index : ℤ
  pub field_values : List Str

pub record ListPoliciesPayload : Type 0 where
  pub cursor : Str
  pub skip : ℤ
  pub limit : ℤ
  pub reverse : Bool

pub data Level : Type 0 where
  none weak strong : Level
  other : ℕ → Level

pub record EnforcePayload : Type 0 where
  pub b : List Str
  pub level : Level
  pub freshness : ℤ

pub record MetadataSet : Type 0 where
  pub raft_id : Str
  pub entries : Dict Str

-- `proto.Marshal` and `proto.Unmarshal` for one message type.
pub record Codec (A : Type 0) : Type 0 where
  pub marshal : A → Result Str
  pub unmarshal : Str → Result A

-- What is encoded is decoded again.
pub record RoundTrips {A : Type 0} (c : Codec A) : Type 0 where
  pub decoded : (a : A) (bytes : Str) → c.marshal a ≡ ok bytes → c.unmarshal bytes ≡ ok a

pub record Proto : Type 0 where
  pub command : Codec Command
  -- AddPoliciesPayload and RemovePoliciesPayload have the same fields
  pub rules : Codec RulesPayload
  pub update : Codec UpdatePoliciesPayload
  pub filtered : Codec RemoveFilteredPolicyPayload
  pub listing : Codec ListPoliciesPayload
  pub enforce : Codec EnforcePayload
  pub model_text : Codec Str
  pub metadata : Codec MetadataSet
  pub metadata_id : Codec Str

unfoldable pub new_string_array : List (List Str) → List StringArray
new_string_array [] = []
new_string_array (s ∷ input) = record { s = s } ∷ new_string_array input

unfoldable pub to_string_array : List StringArray → List (List Str)
to_string_array [] = []
to_string_array (i ∷ input) = i.s ∷ to_string_array input

-- Rules come back from their messages.
pub to_string_array-new_string_array :
    (rules : List (List Str)) → to_string_array (new_string_array rules) ≡ rules
unfolding to_string_array new_string_array
to_string_array-new_string_array [] = refl
to_string_array-new_string_array (r ∷ rules) = ap (◌∷◌ r) (to_string_array-new_string_array rules)

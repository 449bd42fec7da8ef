-- ===== src/Store/Fields.antt =====
-- server/store/log.go: the arguments of a message of raft, as the fields of zap.
mod Tests
use casbin_mesh.Prelude.{
  Str, str, ◌≡◌, refl, Option, none, some, List, [], ◌∷◌, ◌++◌, arith, Option-cases, inl, inr,
}

-- A value of any type, of which a string is told apart.
pub data Arg (V : Type 0) : Type 0 where
  text : Str → Arg V
  other : V → Arg V

abbrev put_field :
    {V : Type 0} → Str × Arg V → Option (List (Str × Arg V)) → Option (List (Str × Arg V))
put_field f none = none
put_field f (some fields) = some (f ∷ fields)

-- `argsToFields`; `none` is the panic of `args[i+1]` out of range.
unfoldable pub args_to_fields : {V : Type 0} → List (Arg V) → Option (List (Str × Arg V))
args_to_fields [] = some []
args_to_fields (text k ∷ []) = none
args_to_fields (other v ∷ []) = some []
args_to_fields (text k ∷ (a ∷ args)) = put_field (k, a) (args_to_fields args)
args_to_fields (other v ∷ (a ∷ args)) = args_to_fields args

abbrev pub flattened : {V : Type 0} → List (Str × Arg V) → List (Arg V)
flattened [] = []
flattened ((k, a) ∷ fields) = text k ∷ (a ∷ flattened fields)

pub args_to_fields-flattened :
    {V : Type 0} (fields : List (Str × Arg V)) → args_to_fields (flattened fields) ≡ some fields
unfolding args_to_fields
args_to_fields-flattened [] = refl
args_to_fields-flattened ((k, a) ∷ fields) = rw (args_to_fields-flattened fields) refl

args_to_fields-drops :
    {V : Type 0} (fields : List (Str × Arg V)) (v : V)
    → args_to_fields (flattened fields ++ (other v ∷ [])) ≡ some fields
unfolding args_to_fields
args_to_fields-drops [] v = refl
args_to_fields-drops ((k, a) ∷ fields) v = rw (args_to_fields-drops fields v) refl

args_to_fields-panics :
    {V : Type 0} (fields : List (Str × Arg V)) (k : Str)
    → args_to_fields (flattened fields ++ (text k ∷ [])) ≡ none
unfolding args_to_fields
args_to_fields-panics [] k = refl
args_to_fields-panics ((k', a) ∷ fields) k = rw (args_to_fields-panics fields k) refl

-- Keys, each with its value after it, become the fields in their order; a last value without a key is
-- left out, and a last key without a value is a panic.
pub args_to_fields_lem :
    {V : Type 0} (fields : List (Str × Arg V)) (v : V) (k : Str)
    → (args_to_fields (flattened fields) ≡ some fields)
      × (args_to_fields (flattened fields ++ (other v ∷ [])) ≡ some fields)
      × (args_to_fields (flattened fields ++ (text k ∷ [])) ≡ none)
unfolding args_to_fields
args_to_fields_lem fields v k =
    (args_to_fields-flattened fields, args_to_fields-drops fields v, args_to_fields-panics fields k)

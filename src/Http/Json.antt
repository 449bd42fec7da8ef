-- ===== src/Http/Json.antt =====
-- encoding/json as the HTTP service uses it: the values, and how the fields of a struct are read from
-- an object. The text of a value is parsed by a parameter. A key that an object has twice counts
-- with its last value.
use casbin_mesh.Prelude.{
  Str, str, Bool, false, Option, none, some, List, [], ◌∷◌, ℤ, pos, ◌==◌, ◌||◌, nat_eq, list_eq,
  to_upper, ltb_ℤ, if◌then◌else◌,
}
use casbin_mesh.Result.{Error, Result, ok, err, message, ◌>>=◌}
use casbin_mesh.Dict.{Dict}
use casbin_mesh.Http.{Body}

mutual
  pub data Json : Type 0 where
    json_null : Json
    json_bool : Bool → Json
    json_int : ℤ → Json
    -- a number that is no integer, by its text
    json_number : Str → Json
    json_text : Str → Json
    json_array : Array → Json
    json_object : Fields → Json

  pub data Array : Type 0 where
    no_items : Array
    item : Json → Array → Array

  pub data Fields : Type 0 where
    no_fields : Fields
    with_field : Str → Json → Fields → Fields

-- The decoder of a body, and the encoder with its line feed.
pub record JsonText : Type 0 where
  pub parse : Body → Result Json
  pub print : Json → Str

unfoldable pub found : Str → Fields → Option Json
found name no_fields = none
found name (with_field k v m) =
    let later = found name m in
    elim later [ some w ↦ some w | none ↦ if to_upper k == to_upper name then some v else none ]

-- The value of a struct's field, null if the object has no such key. Keys match without regard to
-- case.
unfoldable pub field : Str → Fields → Json
unfolding found
field name m = elim (found name m) [ some v ↦ v | none ↦ json_null ]

abbrev pub mismatch : Error
mismatch = message (str "json: cannot unmarshal value into Go struct field")

abbrev pub fields_of : Json → Result Fields
fields_of (json_object m) = ok m
fields_of _ = err mismatch

-- Null leaves the zero value of the field's type.
abbrev pub text_of : Json → Result Str
text_of json_null = ok []
text_of (json_text s) = ok s
text_of _ = err mismatch

abbrev pub flag_of : Json → Result Bool
flag_of json_null = ok false
flag_of (json_bool b) = ok b
flag_of _ = err mismatch

-- An integer of a type with the bounds `low` and `high`.
abbrev pub int_of : ℤ → ℤ → Json → Result ℤ
int_of low high json_null = ok (pos 0)
int_of low high (json_int i) = if ltb_ℤ i low || ltb_ℤ high i then err mismatch else ok i
int_of low high _ = err mismatch

-- `[]string`; a nil slice is `none`.
unfoldable pub texts_in : Array → Result (List Str)
texts_in no_items = ok []
texts_in (item v a) = do s ← text_of v; rest ← texts_in a; ok (s ∷ rest)

unfoldable pub texts_of : Json → Result (Option (List Str))
unfolding texts_in
texts_of json_null = ok none
texts_of (json_array a) = do l ← texts_in a; ok (some l)
texts_of _ = err mismatch

abbrev or_empty {ℓ} : {A : Type ℓ} → Option (List A) → List A
or_empty none = []
or_empty (some l) = l

-- `[][]string`
unfoldable pub rows_in : Array → Result (List (List Str))
rows_in no_items = ok []
rows_in (item v a) = do row ← texts_of v; rest ← rows_in a; ok (or_empty row ∷ rest)

unfoldable pub rows_of : Json → Result (Option (List (List Str)))
unfolding rows_in
rows_of json_null = ok none
rows_of (json_array a) = do l ← rows_in a; ok (some l)
rows_of _ = err mismatch

-- `map[string]string`
unfoldable pub entries_in : Fields → Result (Dict Str)
entries_in no_fields = ok []
entries_in (with_field k v m) = do s ← text_of v; rest ← entries_in m; ok ((k, s) ∷ rest)

unfoldable pub entries_of : Json → Result (Dict Str)
unfolding entries_in
entries_of json_null = ok []
entries_of (json_object m) = entries_in m
entries_of _ = err mismatch

-- The values of an object or an array, written down.
abbrev pub object : Dict Json → Fields
object [] = no_fields
object ((k, v) ∷ m) = with_field k v (object m)

abbrev pub array_of_texts : List Str → Array
array_of_texts [] = no_items
array_of_texts (s ∷ l) = item (json_text s) (array_of_texts l)

abbrev pub array_of_rows : List (List Str) → Array
array_of_rows [] = no_items
array_of_rows (row ∷ l) = item (json_array (array_of_texts row)) (array_of_rows l)

abbrev pub object_of_texts : Dict Str → Fields
object_of_texts [] = no_fields
object_of_texts ((k, v) ∷ m) = with_field k (json_text v) (object_of_texts m)

-- ===== src/Http/Service.antt =====
-- server/core/http.go: the HTTP service of a node. The state of a handler is the node, with what is
-- beyond it, the network, which a request to the leader goes through.
use casbin_mesh.Prelude.{
  ℕ, Str, str, Bool, true, Option, List, [], ◌∷◌, ◌==◌, nat_eq, list_eq, ℤ, pos, negsuc, ◌-◌, ◌^◌,
  if◌then◌else◌,
}
use casbin_mesh.Result.{Error, Result}
use casbin_mesh.Dict.{Dict}
use casbin_mesh.Badger.{Badger}
use casbin_mesh.Casbin.{Casbin}
use casbin_mesh.Command
use casbin_mesh.Command.{Proto, Level}
use casbin_mesh.Credentials.{Bcrypt}
use casbin_mesh.Http.{Writer, passed, Handler, set_header, write}
use casbin_mesh.Badger.{Badger}
use casbin_mesh.Casbin.{Casbin}
use casbin_mesh.Credentials.{Bcrypt}
use casbin_mesh.Http.Requests.{Validator}
use casbin_mesh.Http.Json.{
  Json, json_null, json_bool, json_array, json_object, JsonText, no_fields, with_field,
  array_of_texts, array_of_rows,
}
use casbin_mesh.Http.Requests.{Validator}

-- The request that is sent on to the leader, and what is read of the response: what arrives of its
-- body, and the error that ends it.
pub record ProxyRequest : Type 0 where
  pub method : Str
  pub url : Str
  pub header : Dict (List Str)
  pub text : Str

pub record ProxyReply : Type 0 where
  pub status : ℕ
  pub text : Str
  pub failure : Option Error

-- net/http's default client over a network: `http.NewRequest` refuses some URLs.
pub record Proxy (Net : Type 0) : Type 0 where
  pub url_error : Str → Option Error
  pub send : ProxyRequest → Net → Net × Result ProxyReply

-- The libraries of the service. `param` is a JSON value as casbin takes it.
pub record Libraries {b : Badger} (casbin : Casbin b) : Type 0 where
  pub json : JsonText
  pub validator : Validator
  pub bcrypt : Bcrypt
  pub param : Json → casbin.Param

-- `json:",omitempty"` leaves an empty slice and a false flag out.
unfoldable pub rules_json : List (List Str) → Json
rules_json [] = json_object no_fields
rules_json (row ∷ rules) =
    json_object
      (with_field (str "effected_rules") (json_array (array_of_rows (row ∷ rules))) no_fields)

unfoldable pub effected_json : Bool → Json
effected_json effected =
    if effected
    then json_object (with_field (str "effected") (json_bool true) no_fields)
    else json_object no_fields

-- A slice that nothing was appended to is nil.
abbrev pub rows_json : List (List Str) → Json
rows_json [] = json_null
rows_json (row ∷ rows) = json_array (array_of_rows (row ∷ rows))

abbrev pub names_json : List Str → Json
names_json [] = json_null
names_json (name ∷ names) = json_array (array_of_texts (name ∷ names))

-- `command.EnforcePayload_Level(level)`
unfoldable pub level_of : ℤ → Level
level_of (pos i) =
    if i == 0
    then Command.none
    else if i == 1
    then Command.weak
    else if i == 2
    then Command.strong
    else Command.other i
level_of (negsuc i) = Command.other (2 ^ 32 - 1 - i)

-- `io.Copy`: nothing is written for an empty text.
abbrev pub copy : Str → Writer → Writer
copy [] o = o
copy (c ∷ text) o = write (c ∷ text) o

unfoldable pub set_response_header : {W : Type 0} → Handler W
set_response_header r w o =
    (w, set_header (str "Content-Type") (str "application/json; charset=utf-8") o, passed)

abbrev pub Middleware : Type 0 → Type 0
Middleware W = Handler W → Handler W

-- `chain`
abbrev wrap : {W : Type 0} → List (Middleware W) → Middleware W
wrap [] next = next
wrap (m ∷ others) next = m (wrap others next)

unfoldable pub chain : {W : Type 0} → Middleware W → List (Middleware W) → Middleware W
chain outer others next = outer (wrap others next)

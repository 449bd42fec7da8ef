-- ===== src/Http.antt =====
-- server/handler/http: handlers in a chain over a response writer, and the server that finds the
-- chain of a path. What handlers read and change beside the response is a state `W`.
pub mod Chain
pub mod Json
pub mod Requests
pub mod Service
pub mod Handlers
pub mod Routes
pub mod Guard
pub mod Join
pub mod Forward
pub mod Filter
pub mod Toy
mod Tests
use casbin_mesh.Prelude.{
  ℕ, zero, suc, Str, str, Bool, true, false, Option, none, some, List, [], ◌∷◌, ◌++◌, map, ◌-◌, ◌%◌,
  ℤ, pos, negsuc, pos_part, ltb, length, get_elem?, if◌then◌else◌, ◌&&◌,
}
use casbin_mesh.Result.{Error, unauthorized, error_text}
use casbin_mesh.Dict
use casbin_mesh.Dict.{Dict}

-- A body of a request: what can be read of it, and the error that ends the reading early.
pub record Body : Type 0 where
  pub text : Str
  pub failure : Option Error

-- `http.Request`. `basic` is what `BasicAuth` finds in its header.
pub record Request : Type 0 where
  pub method : Str
  pub path : Str
  pub request_uri : Str
  pub is_tls : Bool
  pub header : Dict (List Str)
  pub basic : Option (Str × Str)
  pub body : Body

-- `http.ResponseWriter`: the header that is still edited, what was sent of it with the status, and
-- the body.
pub record Writer : Type 0 where
  pub header : Dict (List Str)
  pub sent : Option (ℕ × Dict (List Str))
  pub body : Str

abbrev pub blank_writer : Writer
blank_writer = record { header = []; sent = none; body = [] }

-- net/http: `Header().Set`, `Header().Add` and `Header().Del`.
abbrev pub set_header : Str → Str → Writer → Writer
set_header k v o = record o { header = Dict.insert k (v ∷ []) o.header }

abbrev values : Option (List Str) → List Str
values none = []
values (some vs) = vs

abbrev pub add_header : Str → Str → Writer → Writer
add_header k v o = record o {
  header = Dict.insert k (values (Dict.lookup k o.header) ++ (v ∷ [])) o.header;
}

abbrev pub delete_header : Str → Writer → Writer
delete_header k o = record o { header = Dict.delete k o.header }

-- `WriteHeader`: only the first call counts. `Write` sends 200 if there was none.
unfoldable pub write_header : ℕ → Writer → Writer
write_header code o = elim o.sent [
  | some before ↦ o
  | none ↦ record o { sent = some (code, o.header) }
]

unfoldable pub write : Str → Writer → Writer
unfolding write_header
write text o = let o' = write_header 200 o in record o' { body = o'.body ++ text }

-- `http.Error`
unfoldable pub http_error : Str → ℕ → Writer → Writer
unfolding write_header write
http_error text code o = write (text ++ (10 ∷ [])) (
    write_header code (
      set_header (str "X-Content-Type-Options") (str "nosniff")
        (set_header (str "Content-Type") (str "text/plain; charset=utf-8") o)))

-- What a handler returns: nil, an error, or nothing since it panicked.
pub data Outcome : Type 0 where
  passed : Outcome
  failed : Error → Outcome
  panicked : Outcome

abbrev pub Handler : Type 0 → Type 0
Handler W = Request → W → Writer → W × Writer × Outcome

-- `int8(n)`
unfoldable pub int8 : ℕ → ℤ
int8 n = let low = n % 256 in if ltb low 128 then pos low else negsuc (255 - low)

unfoldable pub err2code : Error → ℕ
err2code e = 500

-- `ErrorEncoder`; `encode` makes the JSON of its message.
unfoldable pub error_encoder : (Str → Str) → Error → Writer → Writer
unfolding write_header write error_text err2code
error_encoder encode e o = write (encode (error_text e)) (write_header (err2code e) o)

unfoldable pub unauthorized_response : Str → Writer → Writer
unfolding write_header
unauthorized_response realm o =
    write_header 401
      (add_header (str "WWW-Authenticate") (str "Basic realm=" ++ (34 ∷ (realm ++ (34 ∷ [])))) o)

-- `server`: the global middlewares, and the chain of each pattern.
pub record HttpServer (W : Type 0) : Type 0 where
  pub middlewares : List (Handler W)
  pub mux : Dict (List (Handler W))

-- What net/http's `ServeMux` makes of a request: an answer of its own, or the pattern for it.
pub data Found : Type 0 where
  own : (answer : Writer → Writer) → Found
  no_pattern : Found
  served_by : (pattern : Str) → Found

abbrev pub ServeMux : Type 0
ServeMux = List Str → Request → Found

module _ {W : Type 0} where
  -- The loop of `Next` from index `i`, with as many rounds left as there are up to the limit.
  unfoldable pub next_from : ℕ → ℕ → List (Handler W) → Handler W
  next_from zero i handlers r w o = (w, o, passed)
  next_from (suc left) i handlers r w o = elim (get_elem? handlers i) [
    | none ↦ (w, o, panicked)
    | some h ↦
        let (w', o', out) = h r w o in
        elim out [
          | passed ↦ next_from left (suc i) handlers r w' o'
          | failed e ↦ (w', o', failed e)
          | panicked ↦ (w', o', panicked)
        ]
  ]

  -- `Next`: the handlers while the index is below `int8(len(c.handlers))`
  unfoldable pub next : List (Handler W) → Handler W
  unfolding int8 next_from
  next handlers = next_from (pos_part (int8 (length handlers))) 0 handlers

  unfoldable pub serve_http : (Str → Str) → List (Handler W) → Handler W
  unfolding next error_encoder
  serve_http encode handlers r w o =
      let (w', o', out) = next handlers r w o in
      elim out [
        | passed ↦ (w', o', passed)
        | failed e ↦ (w', error_encoder encode e o', passed)
        | panicked ↦ (w', o', panicked)
      ]

  -- `BasicAuthor`, of a test on the state
  unfoldable pub basic_author : (W → Str → Str → Bool) → Handler W
  unfolding unauthorized_response
  basic_author author r w o = elim r.basic [
    | none ↦ (w, unauthorized_response [] o, failed unauthorized)
    | some (username, password) ↦
        if author w username password
        then (w, o, passed)
        else (w, unauthorized_response username o, failed unauthorized)
  ]

  unfoldable pub new_server : HttpServer W
  new_server = record { middlewares = []; mux = [] }

  -- `Use`
  unfoldable pub use_middleware : Handler W → HttpServer W → HttpServer W
  use_middleware m s = record s { middlewares = s.middlewares ++ (m ∷ []) }

  -- `Handle`: a pattern takes the middlewares of its time; `none` is the panic on a second handler.
  unfoldable pub handle : Str → Handler W → HttpServer W → Option (HttpServer W)
  handle pattern h s = elim (Dict.lookup pattern s.mux) [
    | some before ↦ none
    | none ↦ some (record s { mux = Dict.insert pattern (s.middlewares ++ (h ∷ [])) s.mux })
  ]

  -- `ServeHTTP` of the server, by net/http's `ServeMux`, a parameter: of the patterns and a request it
  -- gives an answer of its own (a redirect to a clean path, a bad request), or the pattern that serves
  -- the request, if there is one.
  unfoldable pub serve : ServeMux → (Str → Str) → HttpServer W → Handler W
  unfolding http_error serve_http
  serve mux encode s r w o = elim (mux (map (λ entry. entry.0) s.mux) r) [
    | own answer ↦ (w, answer o, passed)
    | no_pattern ↦ (w, http_error (str "404 page not found") 404 o, passed)
    | served_by p ↦ elim (Dict.lookup p s.mux) [
      | none ↦ (w, http_error (str "404 page not found") 404 o, passed)
      | some handlers ↦ serve_http encode handlers r w o
    ]
  ]

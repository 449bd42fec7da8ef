-- ===== src/Cli/Login.antt =====
-- cmd/cli/main.go, cmd/cli/input.go and `NewClient` of client/v2: how the interactive client is started.
-- promptkit and the dialling of gRPC are parameters. An error ends the process with the code 1.
mod Tests
use casbin_mesh.Prelude.{
  ℕ, Str, str, Bool, true, false, ◌==◌, nat_eq, list_eq, list_beq, ◌≡◌, ◌≢◌, refl, Option, none,
  some, List, [], ◌∷◌, ◌++◌, if◌then◌else◌, All, arith, ◌⊎◌, inl, inr, Bool-cases, ◌∙◌, ap,
}
use casbin_mesh.Result.{Error, Result, ok, err, unauthorized, Result-cases}
use casbin_mesh.Dict
use casbin_mesh.Dict.{Dict}
use casbin_mesh.Credentials.{AuthType, basic, noop}
use casbin_mesh.Grpc.Auth.{
  Base64, Base64Laws, intercepted, with_credentials, intercepted-with_credentials,
}

-- A text input of promptkit: its prompt, placeholder, limit of characters (0 for none), and whether it
-- is hidden; and a selection of choices. The world has the terminal.
pub record Prompts (W : Type 0) : Type 0 where
  pub text_input : Str → Str → ℕ → Bool → W → W × Result Str
  pub selection : Str → List Str → W → W × Result Str

-- A program that may end the process, in the world.
abbrev pub Prompting : Type 0 → Type 0 → Type 0
Prompting W A = W → W × Result A

infixl 5 ◌>>=◌
abbrev continue : {W A B : Type 0} → (A → Prompting W B) → W × Result A → W × Result B
continue f (w, ok a) = f a w
continue f (w, err e) = (w, err e)

abbrev ◌>>=◌ : {W A B : Type 0} → Prompting W A → (A → Prompting W B) → Prompting W B
(m >>= f) w = continue f (m w)

-- `Options` of client/v2, whose types of authentication are texts.
pub record Options : Type 0 where
  pub target : Str
  pub auth_type : Str
  pub username : Str
  pub password : Str

-- The dial options: they are insecure and blocking, and may have the interceptor `BasicAuthor`.
pub record DialOptions : Type 0 where
  pub insecure : Bool
  pub block : Bool
  pub interceptor : Option (Str × Str)

unfoldable pub dial_options : Options → DialOptions
dial_options op = record {
  insecure = true;
  block = true;
  interceptor = if op.auth_type == str "Basic" then some (op.username, op.password) else none;
}

-- What the session starts with: the options of the connection, and the prefix of each line.
pub record Started (Conn : Type 0) : Type 0 where
  pub conn : Conn
  pub dialled : DialOptions
  pub prefix : Str

-- The metadata with which a call leaves the client.
unfoldable pub outgoing : Base64 → DialOptions → Dict (List Str) → Dict (List Str)
unfolding with_credentials
outgoing b o md = elim o.interceptor [
  | none ↦ md
  | some (username, password) ↦ with_credentials b username password md
]

module _ {W Conn : Type 0} (p : Prompts W) (dial : DialOptions → Str → Prompting W Conn) where
  unfoldable pub get_host : Prompting W Str
  get_host = p.text_input (str "Enter an Host address") (str "127.0.0.1:4002") 15 false

  unfoldable pub get_auth_type : Prompting W Str
  get_auth_type = p.selection (str "Auth Type:") (str "Noop" ∷ (str "Basic" ∷ []))

  unfoldable pub get_username : Prompting W Str
  get_username = p.text_input (str "Username:") [] 0 false

  unfoldable pub get_pwd : Prompting W Str
  get_pwd = p.text_input (str "Password:") [] 0 true

  -- `NewClient`
  unfoldable pub new_client : Options → Prompting W (DialOptions × Conn)
  unfolding dial_options
  new_client op = do conn ← dial (dial_options op) op.target; (λ w. (w, ok (dial_options op, conn)))

  abbrev ask_credentials : Prompting W (Str × Str)
  ask_credentials = do name ← get_username; pwd ← get_pwd; (λ w. (w, ok (name, pwd)))

  -- The name and the password, which only `Basic` asks for.
  unfoldable pub get_credentials : Str → Prompting W (Str × Str)
  unfolding get_username get_pwd
  get_credentials auth_type =
      if auth_type == str "Basic" then ask_credentials else (λ w. (w, ok ([], [])))

  -- `main` up to the prompt: it connects with `Basic`, whichever type was chosen.
  abbrev connect : Str → Str × Str → Prompting W (Started Conn)
  connect host (name, pwd) = do
    (dialled, conn) ←
        new_client
          (record { target = host; auth_type = str "Basic"; username = name; password = pwd })
    (λ w. (w, ok (record { conn = conn; dialled = dialled; prefix = host ++ str " >> " })))

  abbrev after_type : Str → Str → Prompting W (Started Conn)
  after_type host auth_type = do credentials ← get_credentials auth_type; connect host credentials

  abbrev after_host : Str → Prompting W (Started Conn)
  after_host host = do auth_type ← get_auth_type; after_type host auth_type

  unfoldable pub login : Prompting W (Started Conn)
  unfolding get_host get_auth_type get_credentials new_client
  login = do host ← get_host; after_host host

module _ {W Conn : Type 0} (p : Prompts W) (dial : DialOptions → Str → Prompting W Conn) where
  -- What the prompts were answered, one after the other.
  pub record Asked (w : W) : Type 0 where
    pub host : Str
    pub auth_type : Str
    pub name : Str
    pub pwd : Str
    pub w1 : W
    pub w2 : W
    pub w3 : W
    pub host_given : get_host p dial w ≡ (w1, ok host)
    pub type_chosen : get_auth_type p dial w1 ≡ (w2, ok auth_type)
    pub credentials_given : get_credentials p dial auth_type w2 ≡ (w3, ok (name, pwd))

  -- What the client is made with.
  abbrev pub options : {w : W} → Asked w → Options
  options a = record {
    target = a.host;
    auth_type = str "Basic";
    username = a.name;
    password = a.pwd;
  }

  login-Asked :
      (w w' : W) (conn : Conn) (a : Asked w)
      → dial (dial_options (options a)) a.host a.w3 ≡ (w', ok conn)
      → login p dial w ≡ (
        w',
        ok (record {
          conn = conn;
          dialled = dial_options (options a);
          prefix = a.host ++ str " >> ";
        }),
      )
  unfolding login new_client
  login-Asked w w' conn a connects =
      rw (login, a.host_given, a.type_chosen, a.credentials_given, connects) refl

  -- Once the prompts are answered and the node is dialled, the client gets to its own prompt, with the
  -- name and the password that were given, or blank ones where `Noop` was chosen. If the name has no
  -- colon, each of its calls that has not set the header is run by a node with basic authentication
  -- exactly if the node accepts these, and otherwise fails without an effect; a node without
  -- authentication runs it.
  pub login-intercepted :
      {N A : Type 0} (b : Base64) (laws : Base64Laws b) (w w' : W) (conn : Conn)
      (author : N → Str → Str → Bool) (md : Dict (List Str)) (handler : N → N × Result A) (n : N)
      (a : Asked w)
      → dial (dial_options (options a)) a.host a.w3 ≡ (w', ok conn)
      → All (λ c. c ≢ b':') a.name
      → Dict.lookup (str "authorization") md ≡ none
      → (s : Started Conn) × (login p dial w ≡ (w', ok s))
        × (intercepted b basic author (some (outgoing b s.dialled md)) handler n
            ≡ (if author n a.name a.pwd then handler n else (n, err unauthorized)))
        × (intercepted b noop author (some (outgoing b s.dialled md)) handler n ≡ handler n)
  unfolding outgoing dial_options intercepted list_beq
  login-intercepted b laws w w' conn author md handler n a connects clear unset = (
    record { conn = conn; dialled = dial_options (options a); prefix = a.host ++ str " >> " },
    login-Asked w w' conn a connects,
    intercepted-with_credentials b laws author a.name a.pwd md handler n unset clear,
    refl,
  )

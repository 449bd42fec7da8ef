-- ===== src/Grpc/Auth.antt =====
-- server/handler/grpc/basic_auth.go and client/v2/middleware.go: the credentials of a gRPC call, from
-- the client's interceptor to the server's. The encoding base64 is a parameter.
use casbin_mesh.Prelude.{
  ℕ, Str, str, Bool, not, ◌||◌, ◌≡◌, ◌≢◌, refl, Option, none, some, List, [], ◌∷◌, ◌++◌, arith, ltb,
  length, take, drop, ◌==◌, nat_eq, list_eq, list_beq, eq_iff, eq_refl, to_upper, All,
  if◌then◌else◌,
}
use casbin_mesh.Result.{Result, ok, err, unauthorized}
use casbin_mesh.Dict
use casbin_mesh.Dict.{Dict, lookup-insert_self}
use casbin_mesh.Credentials.{AuthType, basic, noop, other_type}

-- `base64.StdEncoding`
pub record Base64 : Type 0 where
  pub encode_to_string : Str → Str
  pub decode_string : Str → Result Str

-- What is encoded is decoded again.
pub record Base64Laws (b : Base64) : Type 0 where
  pub decoded : (s : Str) → b.decode_string (b.encode_to_string s) ≡ ok s

-- The texts before and after the first byte `c`, if there is one.
unfoldable pub cut_at : ℕ → Str → Option (Str × Str)
cut_at c [] = none
cut_at c (d ∷ s) =
    let rest = cut_at c s in
    if d == c then some ([], s) else elim rest [ none ↦ none | some (u, v) ↦ some (d ∷ u, v) ]

module _ (b : Base64) where
  unfoldable pub parse_basic_auth : Str → Option (Str × Str)
  unfolding cut_at to_upper
  parse_basic_auth auth =
      if ltb (length auth) 6 || not (to_upper (take 6 auth) == to_upper (str "Basic "))
      then none
      else elim (b.decode_string (drop 6 auth)) [ err e ↦ none | ok cs ↦ cut_at b':' cs ]

  -- The metadata of the call, with keys in lower case.
  abbrev first_of : Option (List Str) → Option (Str × Str)
  first_of (some (auth ∷ values)) = parse_basic_auth auth
  first_of _ = none

  unfoldable pub get_basic_auth : Option (Dict (List Str)) → Option (Str × Str)
  unfolding parse_basic_auth Dict.lookup
  get_basic_auth none = none
  get_basic_auth (some md) = first_of (Dict.lookup (str "authorization") md)

  -- `BasicAuthor` of the server, around a handler
  unfoldable pub basic_author :
      {W A : Type 0}
      → (W → Str → Str → Bool)
      → Option (Dict (List Str))
      → (W → W × Result A)
      → W
      → W × Result A
  unfolding get_basic_auth
  basic_author author md handler w = elim (get_basic_auth md) [
    | none ↦ (w, err unauthorized)
    | some (username, password) ↦
        if author w username password then handler w else (w, err unauthorized)
  ]

  -- `NewGrpcService`: only `Basic` puts the interceptor around the handlers.
  unfoldable pub intercepted :
      {W A : Type 0}
      → AuthType
      → (W → Str → Str → Bool)
      → Option (Dict (List Str))
      → (W → W × Result A)
      → W
      → W × Result A
  unfolding basic_author
  intercepted basic author md handler w = basic_author author md handler w
  intercepted noop author md handler w = handler w
  intercepted (other_type t) author md handler w = handler w

  -- The client's side
  unfoldable pub basic_auth : Str → Str → Str
  basic_auth username password = b.encode_to_string (username ++ (b':' ∷ password))

  -- `AppendToOutgoingContext` adds a value under the key in lower case.
  abbrev values : Option (List Str) → List Str
  values none = []
  values (some vs) = vs

  unfoldable pub with_credentials : Str → Str → Dict (List Str) → Dict (List Str)
  unfolding basic_auth Dict.insert Dict.lookup
  with_credentials username password md =
      Dict.insert (str "authorization")
        (values (Dict.lookup (str "authorization") md)
          ++ ((str "Basic " ++ basic_auth username password) ∷ []))
        md

cut_at-append : (c : ℕ) (u v : Str) → All (λ d. d ≢ c) u → cut_at c (u ++ (c ∷ v)) ≡ some (u, v)
unfolding cut_at
cut_at-append c [] v clear = ground (arith, eq_refl c)
cut_at-append c (d ∷ u) v (here, clear) =
    ground (arith, here, eq_iff d c, cut_at-append c u v clear)

module _ (b : Base64) (laws : Base64Laws b) where
  -- The server reads the user name and the password that the client wrote into the header, if the user
  -- name has no colon.
  pub parse_basic_auth-header :
      (username password : Str)
      → All (λ c. c ≢ b':') username
      → parse_basic_auth b (str "Basic " ++ basic_auth b username password)
        ≡ some (username, password)
  unfolding parse_basic_auth basic_auth list_beq
  parse_basic_auth-header username password clear = ground (
    arith,
    laws.decoded (username ++ (b':' ∷ password)),
    cut_at-append b':' username password clear,
  )

  get_basic_auth-with_credentials :
      (username password : Str) (md : Dict (List Str))
      → Dict.lookup (str "authorization") md ≡ none
      → All (λ c. c ≢ b':') username
      → get_basic_auth b (some (with_credentials b username password md))
        ≡ some (username, password)
  unfolding get_basic_auth with_credentials
  get_basic_auth-with_credentials username password md unset clear =
      let header = str "Basic " ++ basic_auth b username password in
      rw (unset, lookup-insert_self (str "authorization") (header ∷ []) md)
        (parse_basic_auth-header username password clear)

  -- With basic authentication on both sides, a call by a client that has not set the header before is
  -- run exactly if the node accepts the user name and the password that the client was given, and
  -- otherwise the call fails and nothing has changed. The user name has no colon.
  pub intercepted-with_credentials :
      {W A : Type 0} (author : W → Str → Str → Bool) (username password : Str)
      (md : Dict (List Str)) (handler : W → W × Result A) (w : W)
      → Dict.lookup (str "authorization") md ≡ none
      → All (λ c. c ≢ b':') username
      → intercepted b basic author (some (with_credentials b username password md)) handler w
        ≡ (if author w username password then handler w else (w, err unauthorized))
  unfolding intercepted
  intercepted-with_credentials author username password md handler w unset clear =
      rw (basic_author, get_basic_auth-with_credentials username password md unset clear) refl

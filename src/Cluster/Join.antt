-- ===== src/Cluster/Join.antt =====
-- server/cluster/join.go: a node asks the nodes it knows of to take it into their cluster. net/http's
-- client is a parameter; its calls take the state of the network and of the other nodes along.
use casbin_mesh.Prelude.{
  ◌≡◌, ◌⊎◌, inl, inr, refl, ℕ, zero, suc, Str, str, Bool, ◌==◌, nat_eq, list_eq, has_prefix, Option,
  none, some, List, [], ◌∷◌, ◌++◌, if◌then◌else◌,
}
use casbin_mesh.Result.{Error, Result, ok, err, join_failed, message}
use casbin_mesh.Dict.{Dict}
use casbin_mesh.Credentials.{AuthConfig, basic, noop, other_type}
use casbin_mesh.Cluster.Address.{normalize_addr, ensure_https}

-- The map that is sent, by its keys.
pub record JoinBody : Type 0 where
  pub id : Str
  pub addr : Str
  pub voter : Bool
  pub meta : Dict Str

-- What is read of a response: the body may fail to arrive.
pub record HttpReply : Type 0 where
  pub status : ℕ
  pub status_text : Str
  pub location : Str
  pub body : Result Str

-- `http.NewRequest` fails on some URLs, and gives no request then.
pub record HttpClient (W : Type 0) : Type 0 where
  pub url_error : Str → Option Error
  pub post : Str → JoinBody → Option (Str × Str) → W → W × Result HttpReply
  pub sleep : W → W

-- A user name and a password are sent if the type is `Basic`.
unfoldable pub basic_auth : AuthConfig → Option (Str × Str)
basic_auth a = elim a.auth_type [
  | basic ↦ some (a.username, a.password)
  | noop ↦ none
  | other_type t ↦ none
]

-- How a call ends: it returns, panics, or is not over when the fuel is.
pub data Ending : Type 0 where
  returned : Result Str → Ending
  panicked : Ending
  unfinished : Ending

pub Ending-cases :
    (e : Ending)
    → ((j : Str) × (e ≡ returned (ok j)))
      ⊎ (((x : Error) × (e ≡ returned (err x))) ⊎ ((e ≡ panicked) ⊎ (e ≡ unfinished)))
Ending-cases (returned (ok j)) = inl (j, refl)
Ending-cases (returned (err x)) = inr (inl (x, refl))
Ending-cases panicked = inr (inr (inl refl))
Ending-cases unfinished = inr (inr (inr refl))

-- What follows a response: an end, or another address.
pub data Next : Type 0 where
  stop : Result Str → Next
  go : Str → Next

pub Next-cases : (n : Next) → ((r : Result Str) × (n ≡ stop r)) ⊎ ((url : Str) × (n ≡ go url))
Next-cases (stop r) = inl (r, refl)
Next-cases (go url) = inr (url, refl)

unfoldable pub refused : HttpReply → Str → Error
refused r text =
    message
      (str "failed to join, node returned: " ++ (r.status_text ++ (str ": (" ++ (text ++ str ")"))))

-- The switch on the status of the response.
unfoldable pub after_reply : Str → HttpReply → Str → Next
unfolding refused ensure_https has_prefix
after_reply full_addr r text =
    if r.status == 200
    then stop (ok full_addr)
    else if r.status == 301
    then (if r.location == []
        then stop (err (message (str "failed to join, invalid redirect received")))
        else go r.location)
    else if r.status == 400
    then (if has_prefix (str "https://") full_addr
        then stop (err (refused r text))
        else go (ensure_https full_addr))
    else stop (err (refused r text))

-- The inner loop of `Join`: it ends the call, or leaves the error of the last address, nil if there
-- was none.
pub data Round : Type 0 where
  ended : Ending → Round
  failed : Option Error → Round

pub Round-cases :
    (r : Round)
    → ((e : Ending) × (r ≡ ended e)) ⊎ ((r ≡ failed none) ⊎ ((x : Error) × (r ≡ failed (some x))))
Round-cases (ended e) = inl (e, refl)
Round-cases (failed none) = inr (inl refl)
Round-cases (failed (some x)) = inr (inr (x, refl))

module _ {W : Type 0} (c : HttpClient W) where
  -- The loop of `join`; each round sends the request once.
  unfoldable pub join_loop : ℕ → JoinBody → Option (Str × Str) → Str → W → W × Ending
  join_loop zero body auth full_addr w = (w, unfinished)
  join_loop (suc fuel) body auth full_addr w = elim (c.url_error full_addr) [
    | some e ↦ (w, panicked)
    | none ↦
        let (w', answer) = c.post full_addr body auth w in
        elim answer [
          | err e ↦ (w', returned (err e))
          | ok r ↦ elim r.body [
            | err e ↦ (w', returned (err e))
            | ok text ↦ elim (after_reply full_addr r text) [
              | stop result ↦ (w', returned result)
              | go next ↦ join_loop fuel body auth next w'
            ]
          ]
        ]
  ]

  unfoldable pub join : ℕ → Str → JoinBody → AuthConfig → W → W × Ending
  join fuel join_addr body auth w =
      if body.id == []
      then (w, returned (err (message (str "node ID not set"))))
      else join_loop fuel body (basic_auth auth) (normalize_addr (join_addr ++ str "/join")) w

  unfoldable pub try_addresses : ℕ → List Str → JoinBody → AuthConfig → Option Error → W → W × Round
  try_addresses fuel [] body auth last w = (w, failed last)
  try_addresses fuel (a ∷ addrs) body auth last w =
      let (w', ending) = join fuel a body auth w in
      elim ending [
        | returned (ok j) ↦ (w', ended (returned (ok j)))
        | returned (err e) ↦ try_addresses fuel addrs body auth (some e) w'
        | panicked ↦ (w', ended panicked)
        | unfinished ↦ (w', ended unfinished)
      ]

  -- `Join`, of as many attempts, none for a number below 0. It logs `err.Error()` after each attempt,
  -- which panics on nil.
  unfoldable pub join_cluster :
      ℕ → ℕ → List Str → JoinBody → AuthConfig → Option Error → W → W × Ending
  join_cluster fuel zero join_addr body auth last w = (w, returned (err join_failed))
  join_cluster fuel (suc attempts) join_addr body auth last w =
      let (w', round) = try_addresses fuel join_addr body auth last w in
      elim round [
        | ended ending ↦ (w', ending)
        | failed none ↦ (w', panicked)
        | failed (some e) ↦ join_cluster fuel attempts join_addr body auth (some e) (c.sleep w')
      ]

-- ===== src/Http/Guard.antt =====
-- The service as a whole, and the credentials that its requests need.
use casbin_mesh.Prelude.{
  subst, map, ℕ, sym, ap, ◌∙◌, Bool-cases, ◌==◌, if◌then◌else◌, Str, Bool, false, ◌≡◌, refl, Option,
  none, some, List, [], ◌∷◌, ◌++◌, arith, nat_eq, list_eq, Option-cases, inl, inr, ◌⊎◌,
}
use casbin_mesh.Dict
use casbin_mesh.Dict.{Dict, lookup-insert}
use casbin_mesh.Badger.{Badger}
use casbin_mesh.Casbin.{Casbin}
use casbin_mesh.Command.{Proto}
use casbin_mesh.Credentials.{basic}
use casbin_mesh.Store.{Raft}
use casbin_mesh.Store.Status.{Settings}
use casbin_mesh.Http.{
  Request, Writer, passed, Handler, HttpServer, basic_author, handle, serve, new_server, serve_http,
  ServeMux, Found, own, no_pattern, served_by,
}
use casbin_mesh.Http.Service.{Libraries, Proxy, set_response_header}
use casbin_mesh.Http.Handlers.{Site}
use casbin_mesh.Http.Routes.{routes, handle_all, middlewares, new_http_service, author}

module _ (b : Badger) (casbin : Casbin b) (proto : Proto) (raft : Raft) (l : Libraries casbin)
    {Net : Type 0} (proxy : Proxy Net) (set : Settings) where
  abbrev pub built :
      Option (HttpServer (Site b casbin proto raft l Net))
      → HttpServer (Site b casbin proto raft l Net)
  built none = new_server
  built (some s) = s

Pattern-cases :
    (found : Found)
    → ((answer : Writer → Writer) × (found ≡ own answer))
      ⊎ ((found ≡ no_pattern) ⊎ ((p : Str) × (found ≡ served_by p)))
Pattern-cases (own answer) = inl (answer, refl)
Pattern-cases no_pattern = inr (inl refl)
Pattern-cases (served_by p) = inr (inr (p, refl))

-- Each chain is the middlewares and one handler after them.
abbrev IsGuarded : {W : Type 0} → HttpServer W → Type 0
IsGuarded {W} s =
    (path : Str) (hs : List (Handler W))
    → Dict.lookup path s.mux ≡ some hs
    → (h : Handler W) × (hs ≡ s.middlewares ++ (h ∷ []))

abbrev pub server_or : {W : Type 0} → HttpServer W → Option (HttpServer W) → HttpServer W
server_or s none = s
server_or s (some s') = s'

-- The mux and the middlewares after `Handle`.
handle_lem :
    {W : Type 0} (pattern : Str) (h : Handler W) (s s' : HttpServer W)
    → handle pattern h s ≡ some s'
    → (s'.mux ≡ Dict.insert pattern (s.middlewares ++ (h ∷ [])) s.mux)
      × (s'.middlewares ≡ s.middlewares)
unfolding handle
handle_lem pattern h s s' added = elim (Option-cases (Dict.lookup pattern s.mux)) [
  | inr (old, there) ↦ ground (arith, there, added)
  | inl new ↦
      let made : some (record s { mux = Dict.insert pattern (s.middlewares ++ (h ∷ [])) s.mux })
          ≡ some s' =
        rw (handle, new) at added in
      (sym (ap (λ o. (server_or s o).mux) made), sym (ap (λ o. (server_or s o).middlewares) made))
]

handle-IsGuarded :
    {W : Type 0} (pattern : Str) (h : Handler W) (s s' : HttpServer W)
    → handle pattern h s ≡ some s'
    → IsGuarded s
    → IsGuarded s'
handle-IsGuarded pattern h s s' added guarded path hs found =
    let (mux, same) = handle_lem pattern h s s' added in
    elim (Bool-cases (pattern == path)) [
      | inl this ↦ (
        h,
        ground (
          arith,
          found,
          mux,
          same,
          this,
          lookup-insert pattern path (s.middlewares ++ (h ∷ [])) s.mux,
        ),
      )
      | inr other ↦
          let (g, chain) = guarded path hs (
            ground (
              arith,
              found,
              mux,
              other,
              lookup-insert pattern path (s.middlewares ++ (h ∷ [])) s.mux,
            )) in
          (g, rw same chain)
    ]

abbrev status_sent : Option (ℕ × Dict (List Str)) → Option ℕ
status_sent none = none
status_sent (some (code, header)) = some code

-- The status of a response, if it was sent.
abbrev pub status_of : Writer → Option ℕ
status_of o = status_sent o.sent

-- The request has no credentials that the node knows.
abbrev pub IsRefused : {W : Type 0} → (W → Str → Str → Bool) → Request → W → Type 0
IsRefused {W} known r w =
    (r.basic ≡ none)
    ⊎ ((username : Str) × (password : Str) × (r.basic ≡ some (username, password))
        × (known w username password ≡ false))

-- The answer to a request without credentials, by what net/http finds for it.
abbrev pub Refusal : {W : Type 0} → HttpServer W → Writer → Writer → Found → Type 0
Refusal srv o o' (own answer) = o' ≡ answer o
Refusal srv o o' no_pattern = status_of o' ≡ some 404
Refusal srv o o' (served_by p) = status_of o' ≡ some (if Dict.has p srv.mux then 401 else 404)

-- A guarded chain stops at the authentication.
chain-refuses :
    {W : Type 0} (encode : Str → Str) (known : W → Str → Str → Bool) (h : Handler W) (r : Request)
    (w : W) (o : Writer)
    → o.sent ≡ none
    → IsRefused known r w
    → let (w', o', out) =
        serve_http encode (set_response_header ∷ (basic_author known ∷ (h ∷ []))) r w o in
      (w' ≡ w) × (status_of o' ≡ some 401) × (out ≡ passed)
unfolding serve_http set_response_header basic_author
chain-refuses encode known h r w o fresh (inl missing) =
    (ground (arith, missing), ground (arith, fresh, missing), ground (arith, missing))
chain-refuses encode known h r w o fresh (inr (username, password, given, unknown)) = (
  ground (arith, given, unknown),
  ground (arith, fresh, given, unknown),
  ground (arith, given, unknown),
)

module _ (b : Badger) (casbin : Casbin b) (proto : Proto) (raft : Raft) (l : Libraries casbin)
    {Net : Type 0} (proxy : Proxy Net) (set : Settings) where
  handle_all-IsGuarded :
      (rs : List (Str × Handler (Site b casbin proto raft l Net)))
      (s srv : HttpServer (Site b casbin proto raft l Net))
      → handle_all b casbin proto raft l proxy set rs s ≡ some srv
      → IsGuarded s
      → IsGuarded srv × (srv.middlewares ≡ s.middlewares)
  unfolding handle_all
  handle_all-IsGuarded [] s srv done guarded =
      subst (λ t. IsGuarded t × (t.middlewares ≡ s.middlewares)) (ap (server_or s) done)
        (guarded, refl)
  handle_all-IsGuarded ((pattern, h) ∷ rs) s srv done guarded =
      elim (Option-cases (handle pattern h s)) [
        | inl taken ↦ ground (arith, taken, done)
        | inr (s', added) ↦
            let (all, same) =
              handle_all-IsGuarded rs s' srv (ground (arith, added, done))
                (handle-IsGuarded pattern h s s' added guarded) in
            (all, same ∙ (handle_lem pattern h s s' added).1)
      ]

  -- With basic authentication configured, a request whose credentials are missing or are not known to
  -- the node changes nothing, on this node or beyond it, whatever its path and however net/http finds
  -- the pattern: it is answered by net/http itself, with 404 where no pattern serves it, and with 401
  -- on every other path.
  pub new_http_service-refuses :
      (mux : ServeMux) (encode : Str → Str) (srv : HttpServer (Site b casbin proto raft l Net))
      (r : Request) (site : Site b casbin proto raft l Net) (o : Writer)
      → new_http_service b casbin proto raft l proxy set basic ≡ some srv
      → IsRefused (author b casbin proto raft l proxy set) r site
      → o.sent ≡ none
      → let (site', o', out) = serve mux encode srv r site o in
        (site' ≡ site) × (out ≡ passed) × Refusal srv o o' (mux (map (λ entry. entry.0) srv.mux) r)
  unfolding new_http_service serve Dict.has
  new_http_service-refuses mux encode srv r site o made refused fresh =
      let (guarded, same) =
        handle_all-IsGuarded (routes b casbin proto raft l proxy set)
          (middlewares b casbin proto raft l proxy set basic) srv made
          (λ path hs found. ground (arith, found)) in
      elim (Pattern-cases (mux (map (λ entry. entry.0) srv.mux) r)) [
        | inl (answer, is) ↦ rw (serve, is) (refl, refl, refl)
        | inr (inl is) ↦ rw (serve, is) (refl, refl, ground (arith, fresh))
        | inr (inr (p, is)) ↦ elim (Option-cases (Dict.lookup p srv.mux)) [
          | inl missing ↦ rw (serve, is, Dict.has, missing) (refl, refl, ground (arith, fresh))
          | inr (hs, there) ↦
              let (h, chain) = guarded p hs there in
              let full = chain ∙ ap (λ m. m ++ (h ∷ [])) same in
              let (kept, status, out) =
                chain-refuses encode (author b casbin proto raft l proxy set) h r site o fresh
                  refused in
              rw (serve, is, Dict.has, there, full) (kept, out, status)
        ]
      ]

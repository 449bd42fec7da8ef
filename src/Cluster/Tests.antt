-- ===== src/Cluster/Tests.antt =====
-- Three nodes for the tests: "a" redirects to "b", "b" speaks only HTTPS, "c" redirects to itself.
use casbin_mesh.Prelude.{
  ◌∙◌, ap, sym, inl, inr, Bool-cases, ◌≤◌, ◌<◌, has_prefix, ℕ, Str, str, true, ◌≡◌, ◌≢◌, refl, none,
  List, [], ◌∷◌, ◌==◌, nat_eq, list_eq, list_beq, if◌then◌else◌, arith, eq_iff,
}
use casbin_mesh.Result.{ok}
use casbin_mesh.Credentials.{AuthConfig, noop}
use casbin_mesh.Cluster.Address.{ensure_https-HasPrefix, normalize_addr, ensure_https}
use casbin_mesh.Cluster.Join
use casbin_mesh.Cluster.Join.{
  HttpClient, HttpReply, JoinBody, returned, panicked, unfinished, join_loop, try_addresses,
  join_cluster, basic_auth, after_reply, refused,
}
use casbin_mesh.Cluster.Endings.{join_cluster-ends, join-redirects}
use casbin_mesh.Cluster.Outcome.{Answered, join_cluster-Answered, join_cluster-reaches}

abbrev reply : ℕ → Str → HttpReply
reply status location = record {
  status = status;
  status_text = [];
  location = location;
  body = ok [];
}

abbrev answer_at : Str → HttpReply
answer_at url =
    if url == str "http://a/join"
    then reply 301 (str "http://b/join")
    else if url == str "http://b/join"
    then reply 400 []
    else if url == str "https://b/join"
    then reply 200 []
    else if url == str "http://c/join"
    then reply 301 (str "http://c/join")
    else reply 500 []

-- The state is what was sent so far, the last first.
abbrev nodes : HttpClient (List Str)
nodes = record {
  url_error = λ url. none;
  post = λ url body auth sent. (url ∷ sent, ok (answer_at url));
  sleep = λ sent. sent;
}

abbrev body : JoinBody
body = record { id = str "n2"; addr = str "h:2"; voter = true; meta = [] }

abbrev no_auth : AuthConfig
no_auth = record { username = []; password = []; auth_type = noop }

join_redirected : Join.join nodes 9 (str "a") body no_auth [] ≡ (
  str "https://b/join" ∷ (str "http://b/join" ∷ (str "http://a/join" ∷ [])),
  returned (ok (str "https://b/join")),
)
unfolding Join.join join_loop after_reply normalize_addr basic_auth list_beq
join_redirected = refl

-- Without an address the first attempt panics.
join_nowhere : join_cluster nodes 9 1 [] body no_auth none [] ≡ ([], panicked)
unfolding join_cluster try_addresses
join_nowhere = refl

join-redirects_example : (Join.join nodes 7 (str "c") body no_auth []).1 ≡ unfinished
unfolding normalize_addr list_beq has_prefix
join-redirects_example =
    join-redirects nodes body no_auth (str "c") [] (reply 301 (str "http://c/join"))
      (λ sent. str "http://c/join" ∷ sent) (ground arith) refl refl refl (ground arith) refl
      (λ sent. refl) 7 []

-- The same without the node that redirects to itself.
abbrev calm_at : Str → HttpReply
calm_at url =
    if url == str "http://a/join"
    then reply 301 (str "http://b/join")
    else if url == str "http://b/join"
    then reply 400 []
    else if url == str "https://b/join"
    then reply 200 []
    else reply 500 []

abbrev calm : HttpClient (List Str)
calm = record {
  url_error = λ url. none;
  post = λ url body auth sent. (url ∷ sent, ok (calm_at url));
  sleep = λ sent. sent;
}

abbrev rank_of : Str → ℕ
rank_of url = if url == str "http://a/join" then 1 else 0

rank_of-falls :
    (url : Str) (w w' : List Str) (r : HttpReply)
    → calm.post url body (basic_auth no_auth) w ≡ (w', ok r)
    → r.status ≡ 301
    → rank_of r.location < rank_of url
unfolding list_beq
rank_of-falls url w w' r sent moved = ground (
  arith,
  eq_iff url (str "http://a/join"),
  eq_iff url (str "http://b/join"),
  eq_iff url (str "https://b/join"),
)

rank_of-secures : (url : Str) → rank_of (ensure_https url) ≤ rank_of url
unfolding list_beq has_prefix
rank_of-secures url = elim (Bool-cases (ensure_https url == str "http://a/join")) [
  | inr other ↦ ground (arith, other)
  | inl same ↦ ground (
    arith,
    sym (
          ap (has_prefix (str "https://"))
            ((eq_iff (ensure_https url) (str "http://a/join")).0 same))
        ∙ ensure_https-HasPrefix url,
  )
]

join_cluster-ends_example :
    (join_cluster calm 4 3 (str "d" ∷ (str "a" ∷ [])) body no_auth none []).1 ≢ unfinished
unfolding normalize_addr has_prefix list_beq
join_cluster-ends_example =
    join_cluster-ends calm body no_auth rank_of rank_of-falls rank_of-secures 4 3
      (str "d" ∷ (str "a" ∷ [])) none [] (ground arith, (ground arith, tt))

join_cluster-Answered_example : Answered nodes body none (str "https://b/join") (
    str "https://b/join"
    ∷ (str "http://b/join" ∷ (str "http://a/join" ∷ (str "http://d/join" ∷ []))))
unfolding basic_auth join_cluster try_addresses Join.join join_loop after_reply normalize_addr
    list_beq
join_cluster-Answered_example =
    join_cluster-Answered nodes body no_auth 9 2 (str "d" ∷ (str "a" ∷ [])) none
      (str "https://b/join") []
      (str "https://b/join"
        ∷ (str "http://b/join" ∷ (str "http://a/join" ∷ (str "http://d/join" ∷ []))))
      refl

join_cluster-reaches_example :
    (join_cluster nodes 9 1 (str "d" ∷ (str "b" ∷ (str "c" ∷ []))) body no_auth none []).1
    ≡ returned (ok (str "https://b/join"))
unfolding Join.join join_loop after_reply normalize_addr list_beq refused
join_cluster-reaches_example =
    join_cluster-reaches nodes body no_auth 9 0 (str "d" ∷ []) (str "c" ∷ []) (str "b")
      (str "https://b/join") none [] ((λ w. (refused (reply 500 []) [], refl)), tt) (λ w. refl)

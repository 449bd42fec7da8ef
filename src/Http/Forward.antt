-- ===== src/Http/Forward.antt =====
-- What a node that does not lead makes of the requests that write.
use mathlib.Core.List.{append-nil}
use casbin_mesh.Prelude.{
  ℕ, List, Option, str, Str, false, ◌≡◌, refl, none, some, [], ◌∷◌, ◌++◌, arith, Option-cases, inl,
  inr,
}
use casbin_mesh.Result.{ok, Result-cases}
use casbin_mesh.Dict.{Dict}
use casbin_mesh.Badger.{Badger}
use casbin_mesh.Casbin.{Casbin}
use casbin_mesh.Command.{Proto}
use casbin_mesh.Store.{Raft, Node}
use casbin_mesh.Store.Status.{Settings}
use casbin_mesh.Http.{delete_header, Request, Writer, passed, Handler, write}
use casbin_mesh.Http.Service.{Libraries, Proxy, ProxyReply, copy}
use casbin_mesh.Http.Handlers.{Site}
use casbin_mesh.Http.Routes.{forward, auto_forward_to_leader, proxy_request}

-- What a client reads of a response; without a status that was sent, it is 200.
abbrev status_or_ok : Option (ℕ × Dict (List Str)) → ℕ
status_or_ok none = 200
status_or_ok (some (code, header)) = code

copy-body :
    (text : Str) (o : Writer)
    → o.sent ≡ none
    → ((copy text o).body ≡ o.body ++ text) × (status_or_ok (copy text o).sent ≡ 200)
unfolding write
copy-body [] o fresh = (ground (arith, append-nil o.body), ground (arith, fresh))
copy-body (c ∷ text) o fresh = (ground (arith, fresh), ground (arith, fresh))

module _ (b : Badger) (casbin : Casbin b) (proto : Proto) (raft : Raft) (l : Libraries casbin)
    {Net : Type 0} (proxy : Proxy Net) (set : Settings)
    (fn : Handler (Site b casbin proto raft l Net)) (r : Request) (n : Node b casbin proto raft)
    (net : Net) (o : Writer) where
  -- A request that a follower gets on a forwarded route never reaches its own handler: the node is as
  -- before, and the network has had the one request to the leader, or none if its URL was refused.
  pub auto_forward_to_leader-follower :
      raft.is_leader n.raft_state ≡ false
      → let p = proxy_request b casbin proto raft l proxy set r n in
        (auto_forward_to_leader b casbin proto raft l proxy set fn r (n, net) o).0
        ≡ (n, elim (proxy.url_error p.url) [ none ↦ (proxy.send p net).0 | some e ↦ net ])
  unfolding auto_forward_to_leader forward
  auto_forward_to_leader-follower follows =
      let p = proxy_request b casbin proto raft l proxy set r n in
      elim (Option-cases (proxy.url_error p.url)) [
        | inr (e, bad) ↦ rw (auto_forward_to_leader, forward, follows, bad) refl
        | inl valid ↦ elim (Result-cases (proxy.send p net).1) [
          | inl (resp, came) ↦ rw (auto_forward_to_leader, forward, follows, valid, came) refl
          | inr (e, lost) ↦ rw (auto_forward_to_leader, forward, follows, valid, lost) refl
        ]
      ]

  -- The client of a follower reads the body of the leader's response under the status 200, whatever
  -- status the leader gave it, where the request could be read and sent and the response arrived.
  pub auto_forward_to_leader-status :
      (net' : Net) (resp : ProxyReply)
      → raft.is_leader n.raft_state ≡ false
      → r.body.failure ≡ none
      → proxy.url_error (proxy_request b casbin proto raft l proxy set r n).url ≡ none
      → proxy.send (proxy_request b casbin proto raft l proxy set r n) net ≡ (net', ok resp)
      → resp.failure ≡ none
      → o.sent ≡ none
      → let (site, o', out) =
          auto_forward_to_leader b casbin proto raft l proxy set fn r (n, net) o in
        (status_or_ok o'.sent ≡ 200) × (o'.body ≡ o.body ++ resp.text) × (out ≡ passed)
  unfolding auto_forward_to_leader forward
  auto_forward_to_leader-status net' resp follows read valid sent whole fresh =
      let without =
        delete_header (str "Access-Control-Allow-Origin") (delete_header (str "Vary") o) in
      let (body, status) = copy-body resp.text without fresh in
      let sent_on : forward b casbin proto raft l proxy set r (n, net) o
          ≡ ((n, net'), copy resp.text without, passed) =
        ground (arith, read, valid, sent, whole) in
      rw (auto_forward_to_leader, follows, sent_on) (status, body, refl)

-- ===== src/Http/Join.antt =====
-- A node that joins by server/cluster/join.go at a node that serves server/core/http.go.
use casbin_mesh.Prelude.{
  str, true, ◌≡◌, ◌≢◌, Option, none, some, [], ◌∷◌, arith, nat_eq, list_eq, list_beq, if◌then◌else◌,
  to_upper,
}
use casbin_mesh.Result.{Error, ok}
use casbin_mesh.Badger.{Badger}
use casbin_mesh.Casbin.{Casbin}
use casbin_mesh.Command.{Proto}
use casbin_mesh.Store.{Raft, Node}
use casbin_mesh.Core.{new}
use casbin_mesh.Cluster.Join.{JoinBody}
use casbin_mesh.Http.{Request, Writer, Outcome, passed, failed, write_header}
use casbin_mesh.Http.Json.{
  Json, json_text, json_bool, json_object, object, object_of_texts, field, found, entries_of,
}
use casbin_mesh.Http.Requests.{ValidatorLaws, decode_join}
use casbin_mesh.Http.Service.{Libraries}
use casbin_mesh.Http.Handlers.{Site, handle_join, decoded, respond}

-- `json.Marshal` of the map that `join` sends.
unfoldable pub join_json : JoinBody → Json
join_json q = json_object (
    object (
      (str "id", json_text q.id)
      ∷ ((str "addr", json_text q.addr)
          ∷ ((str "voter", json_bool q.voter)
              ∷ ((str "meta", json_object (object_of_texts q.meta)) ∷ [])))))

module _ (b : Badger) (casbin : Casbin b) (proto : Proto) (raft : Raft) (l : Libraries casbin)
    (laws : ValidatorLaws l.validator) (Net : Type 0) where
  -- The end of `handleJoin` after the call of `Join`.
  abbrev pub after_join :
      Node b casbin proto raft × Option Error
      → Net
      → Writer
      → Site b casbin proto raft l Net × Writer × Outcome
  after_join (n, none) net o = ((n, net), write_header 200 o, passed)
  after_join (n, some e) net o = ((n, net), o, failed e)

  -- What a node makes of the request that a joining node sends, where the body arrives as it was sent
  -- and names an ID and an address. A node that is to be no voter is refused by the validation, which
  -- asks for a true flag, and nothing has changed. A voter joins, but without its metadata: they are
  -- sent under "meta" and read under "metadata".
  pub handle_join-body :
      (q : JoinBody) (r : Request) (n : Node b casbin proto raft) (net : Net) (o : Writer)
      → l.json.parse r.body ≡ ok (join_json q)
      → q.id ≢ []
      → q.addr ≢ []
      → handle_join b casbin proto raft l Net r (n, net) o ≡ (
          if q.voter
          then after_join ((new b casbin proto raft).join q.id q.addr true [] n) net o
          else ((n, net), o, failed (l.validator.missing (str "voter" ∷ []))))
  unfolding handle_join decoded respond decode_join join_json field found entries_of to_upper
      list_beq
  handle_join-body q r n net o sent named placed = ground (
    arith,
    sent,
    laws.text_given q.id named,
    laws.text_given q.addr placed,
    laws.flag_given q.voter,
  )

-- ===== src/Store/Status.antt =====
-- server/store/store.go, server.go and util.go: what a node knows of its cluster, and its statistics.
use casbin_mesh.Prelude.{
  ℕ, Str, str, Bool, ◌==◌, nat_eq, list_eq, ltb, leb, Option, none, some, List, [], ◌∷◌, ℤ, pos,
  negsuc, ◌-◌, ◌^◌, if◌then◌else◌,
}
use casbin_mesh.Result.{Result, ok, err, ◌>>=◌}
use casbin_mesh.Dict
use casbin_mesh.Dict.{Dict}
use casbin_mesh.Badger.{Badger}
use casbin_mesh.Badger.Order.{str_ltb}
use casbin_mesh.Casbin.{Casbin}
use casbin_mesh.Command.{Proto}
use casbin_mesh.Cli.Number.{unsigned}
use casbin_mesh.Store.{Raft, Server, Node}
use casbin_mesh.Fsm.Metadata.{metadata}
use casbin_mesh.Http.Json.{
  Json, json_int, json_text, json_array, json_object, Array, no_items, item, Fields, no_fields,
  with_field, object, object_of_texts,
}

-- `prettyVoter`
unfoldable pub pretty_voter : Bool → Str
pretty_voter v = if v then str "voter" else str "non-voter"

-- `Less` of `Servers`
unfoldable pub less : Server → Server → Bool
unfolding str_ltb
less s t = str_ltb s.id t.id

-- `sort.Sort` of `Servers`, as an insertion sort.
unfoldable pub insert_server : Server → List Server → List Server
unfolding less
insert_server s [] = s ∷ []
insert_server s (t ∷ servers) =
    let rest = insert_server s servers in if less t s then t ∷ rest else s ∷ (t ∷ servers)

unfoldable pub sort_servers : List Server → List Server
unfolding insert_server
sort_servers [] = []
sort_servers (s ∷ servers) = insert_server s (sort_servers servers)

-- The ID of the first server at an address, blank if there is none.
unfoldable pub id_at : Str → List Server → Str
id_at addr [] = []
id_at addr (srv ∷ servers) = if srv.address == addr then srv.id else id_at addr servers

-- `strconv.ParseInt(v, 10, 64)`, where it has no error.
unfoldable pub parse_int : Str → Option ℤ
unfolding unsigned
parse_int [] = none
parse_int (c ∷ s) =
    if c == b'-'
    then elim (unsigned s) [
      | none ↦ none
      | some n ↦
          if n == 0 then some (pos 0) else if leb n (2 ^ 63) then some (negsuc (n - 1)) else none
    ]
    else elim (unsigned (if c == b'+' then s else c ∷ s)) [
      | none ↦ none
      | some n ↦ if ltb n (2 ^ 63) then some (pos n) else none
    ]

-- `if s, err := strconv.ParseInt(v, 10, 64); err != nil { raftStats[k] = v } else …`
unfoldable pub raft_stats : Dict Str → Dict Json
unfolding parse_int
raft_stats [] = []
raft_stats ((k, v) ∷ stats) =
    (k, elim (parse_int v) [ none ↦ json_text v | some i ↦ json_int i ]) ∷ raft_stats stats

abbrev optional : Str → Str → Fields → Fields
optional name [] m = m
optional name (c ∷ s) m = with_field name (json_text (c ∷ s)) m

unfoldable pub servers_json : List Server → Array
servers_json [] = no_items
servers_json (s ∷ servers) =
    item (json_object (optional (str "id") s.id (optional (str "addr") s.address no_fields)))
      (servers_json servers)

abbrev pub metadata_json : Dict (Dict Str) → Fields
metadata_json [] = no_fields
metadata_json ((id, md) ∷ meta) =
    with_field id (json_object (object_of_texts md)) (metadata_json meta)

-- What `Stats` shows of the configuration, with the durations as their texts, and the sizes that it
-- reads from the disk.
pub record Settings : Type 0 where
  pub addr : Str
  pub raft_dir : Str
  pub apply_timeout : Str
  pub heartbeat_timeout : Str
  pub election_timeout : Str
  pub snapshot_threshold : ℕ
  pub snapshot_interval : ℤ
  pub trailing_logs : ℕ
  pub log_size : Result ℤ
  pub dir_size : Result ℤ

module _ (b : Badger) (casbin : Casbin b) (proto : Proto) (raft : Raft) where
  unfoldable pub leader_addr : Node b casbin proto raft → Str
  leader_addr n = raft.leader n.raft_state

  unfoldable pub leader_id : Node b casbin proto raft → Result Str
  unfolding leader_addr id_at
  leader_id n = do servers ← raft.servers n.raft_state; ok (id_at (leader_addr n) servers)

  unfoldable pub nodes : Node b casbin proto raft → Result (List Server)
  unfolding sort_servers
  nodes n = do servers ← raft.servers n.raft_state; ok (sort_servers servers)

  -- `LeaderAPIProto` of server/core/core.go
  unfoldable pub leader_api_proto : Node b casbin proto raft → Str
  unfolding leader_id metadata
  leader_api_proto n = elim (leader_id n) [
    | err e ↦ str "http"
    | ok id ↦
        let p = metadata b casbin proto id (str "api_proto") n.fsm in
        if p == [] then str "http" else p
  ]

  unfoldable pub stats : Settings → Node b casbin proto raft → Result Json
  unfolding nodes leader_id raft_stats servers_json leader_addr
  stats set n = do
    servers ← nodes n
    leader ← leader_id n
    size ← set.log_size
    dir_sz ← set.dir_size
    ok (
        json_object (
          object (
            (str "node_id", json_text n.raft_id)
            ∷ ((
              str "raft",
              json_object (
                  object (
                    Dict.insert (str "log_size") (json_int size)
                      (raft_stats (raft.stats n.raft_state)))),
            )
                ∷ ((str "addr", json_text set.addr)
                    ∷ ((
                      str "leader",
                      json_object (
                          object_of_texts
                            ((str "node_id", leader) ∷ ((str "addr", leader_addr n) ∷ []))),
                    )
                        ∷ ((str "apply_timeout", json_text set.apply_timeout)
                            ∷ ((str "heartbeat_timeout", json_text set.heartbeat_timeout)
                                ∷ ((str "election_timeout", json_text set.election_timeout)
                                    ∷ ((
                                      str "snapshot_threshold",
                                      json_int (pos set.snapshot_threshold),
                                    )
                                        ∷ ((str "snapshot_interval", json_int set.snapshot_interval)
                                            ∷ ((
                                              str "trailing_logs",
                                              json_int (pos set.trailing_logs),
                                            )
                                                ∷ ((
                                                  str "metadata",
                                                  json_object (metadata_json n.fsm.meta),
                                                )
                                                    ∷ ((
                                                      str "nodes",
                                                      json_array (servers_json servers),
                                                    )
                                                        ∷ ((str "dir", json_text set.raft_dir)
                                                            ∷ ((str "dir_size", json_int dir_sz)
                                                            ∷ []))))))))))))))))

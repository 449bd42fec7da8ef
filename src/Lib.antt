-- ===== src/Lib.antt =====
-- Casbin-Mesh: a cluster of nodes that replicate casbin policies by Raft, each with an embedded
-- key-value store, and a client to it.
--
-- The parts, from the store upwards, and the files that model them:
--   Prelude, Result, Dict: byte strings, numbers, Go errors as values and Go maps.
--   Credentials (server/auth/credential_store.go): users and their passwords.
--   Badger: the library badger as a parameter, the laws that the code relies on (BadgerLaws), which
--     what is shown of stored entries assumes, and in Badger/Table a table that meets them.
--   Bucket (server/adapter/badger.go): one bucket for each namespace. A transaction is a function
--     of the library's transaction; `update` and `view` run it as `Update` and `View` do.
--     Bucket/Gc opens the store, and collects the log of its values.
--   Adapter (server/adapter/adapter.go): casbin's policy adapter over a bucket. Adapter/Table says
--     what an operation means for the stored entries, as a function of the key.
--   Command (proto/command): the messages of the log; the generated codecs are the parameter Proto.
--   Casbin: the policy engine casbin as a parameter.
--   Fsm (server/store/fsm.go): `apply` is `Store.Apply` on one log entry, with a function for each
--     command, those that read in Fsm/Reads; `replay` runs the entries in their order.
--   Fsm/Snapshot (server/store/fsm.go): `Snapshot`, `Persist` and `Restore`, and in
--     Fsm/Snapshot/RoundTrip one after the other; what badger, JSON and casbin must do for it are the
--     laws BackupLaws, SnapshotCodecLaws and ReadsItsNamespace.
--   Store (server/store/adapter.go, enforcer.go, manage.go, store.go): the requests of a node. They
--     encode a command, give it to raft and read the response by its type. Raft is a parameter: a
--     call of it names the entries that the node applied meanwhile. Store/Membership has `Join`,
--     `Remove` and the metadata, Store/Opening has `Open` on files and a log that are parameters,
--     and Store/Fields (server/store/log.go) the arguments of raft's messages, Store/Logger its
--     logger, Store/EnforcerState (server/store/util.go) the copy of an enforcer's model,
--     Store/Transport (server/store/transport.go, tcp_transport.go) raft's network, and
--     Store/Closing has `Close`.
--   Core (server/core/core.go): the interface between the services and the store, and its filling.
--     Core/History runs its requests one after the other, beside the entries of the log.
--   Grpc (server/core/grpc.go): the gRPC service, on the core; `request` is `Request`, and a panic
--     or a nil response is seen in its result.
--   Grpc/Auth (server/handler/grpc/basic_auth.go, client/v2/middleware.go): the credentials of a call.
--   Client (client/v2/client.go): the client library over a connection. Client/Delivery joins it to
--     the service, Client/Queries has the requests that read.
--   Cluster (server/cluster/join.go, server/utils/http.go): the joining node. `join_cluster` is `Join`,
--     `join_loop` the loop over the responses of one address.
--     Cluster/Listener (server/cluster/listener.go) has the steps of a listener over several.
--   Http (server/handler/http): handlers in a chain, errors, basic authentication and routes.
--     Http/Json and Http/Requests read the requests of server/core/http.go, Http/Handlers has a
--     function for each handler, Http/Routes the service and the forwarding to the leader.
--     Net/http's ServeMux is a parameter.
--   Log (server/log/log.go): the search in the raft log.
--   Start (server/server.go, server/cmd_config.go): `NewServer`, with the configuration in
--     Start/Config, and `Start`. What a start does to the world is an action, which a parameter
--     performs; Start/Plan says which actions there may be, Start/Success which there are if none
--     fails, Start/Listen has the sockets and their certificates, Start/Profile the files of the
--     profiles.
--   Main (cmd/server/main.go): the process around it, from its flags to `Close`.
--   Cli (cmd/cli/ctx.go, cmd/cli/rule.go): the session of the interactive client. `executor` runs
--     one line, and makes at most one request. Cli/Completer has what the client suggests,
--     Cli/Login (cmd/cli/main.go, input.go) how it is started.
--
-- Numbers are the natural numbers, and the integers of Prelude/Int where the code has signed ones;
-- `Bucket.List` adds in 64 bits with wrap-around, and the index of a chain of handlers is an int8.
-- The loops of the modelled code run over lists, except that of `join` over redirects, which has
-- fuel: Cluster/Endings says how much is enough, and the search in the raft log, of which Log says
-- it. The collection of the value log has fuel too; it goes on as long as badger collects, and no
-- bound is given. Texts are bytes; letters are made capital in ASCII alone. The waits of a node run
-- over the list of the ticks of their ticker, which their timer ends. A panic is a result of its
-- own (`none`, or a constructor of its own). In an object of JSON that has a key twice the last
-- value counts.
--
-- Not modelled: what the libraries do with files, sockets and certificates, logging, printing,
-- profiling, and the generated code. Locks are left out: an operation is one step.
pub mod Prelude
pub mod Result
pub mod Dict
pub mod Credentials
pub mod Badger
pub mod Bucket
pub mod Adapter
pub mod Command
pub mod Casbin
pub mod Fsm
pub mod Store
pub mod Grpc
pub mod Client
pub mod Cluster
pub mod Http
pub mod Log
pub mod Start
pub mod Cli
pub mod Core
pub mod Main

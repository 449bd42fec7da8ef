-- ===== src/Grpc/Effects.antt =====
-- What the service makes of a command to clear the policy of a namespace.
use casbin_mesh.Dict
use casbin_mesh.Badger.{Badger}
use casbin_mesh.Casbin.{Casbin}
use casbin_mesh.Command
use casbin_mesh.Command.{Command}

-- ===== src/Main/Tests.antt =====
-- What `Close` stops, with the default flags.
use casbin_mesh.Prelude.{true, ◌≡◌, refl, [], ◌∷◌, list_beq}
use casbin_mesh.Main.{default_config, close, close_store, stop_grpc, running}

closes : (close (running default_config)).1 ≡ close_store true ∷ (stop_grpc ∷ [])
unfolding close running default_config list_beq
closes = refl

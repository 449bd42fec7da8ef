-- ===== src/Log/Tests.antt =====
-- A log of five entries, commands at the second and the fourth.
use casbin_mesh.Prelude.{ℕ, Bool, ◌||◌, ◌==◌, nat_eq}
use casbin_mesh.Result.{ok}
use casbin_mesh.Log.{LogStore}

abbrev command_at : ℕ → Bool
command_at i = i == 2 || i == 4

abbrev five : LogStore
five = record { first_index = ok 1; last_index = ok 5; is_command = λ i. ok (command_at i) }

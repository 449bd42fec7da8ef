-- ===== src/Store/Servers.antt =====
-- The order of the nodes that a store lists.
use casbin_mesh.Prelude.{
  Str, ◌≡◌, refl, true, false, List, [], ◌∷◌, arith, nat_eq, list_eq, Bool-cases, inl, inr,
}
use casbin_mesh.Result.{ok}
use mathlib.Core.List.{Perm}
use mathlib.Core.List.Perm
use casbin_mesh.Badger.{Badger}
use casbin_mesh.Badger.Order.{str_ltb}
use casbin_mesh.Casbin.{Casbin}
use casbin_mesh.Command.{Proto}
use casbin_mesh.Store.{Raft, Server, Node}
use casbin_mesh.Store.Status.{less, insert_server, sort_servers, nodes}

-- No server in the list comes before `s`.
abbrev pub NotBefore : Server → List Server → Type 0
NotBefore s [] = Unit
NotBefore s (t ∷ servers) = (str_ltb t.id s.id ≡ false) × NotBefore s servers

abbrev pub IsSorted : List Server → Type 0
IsSorted [] = Unit
IsSorted (s ∷ servers) = NotBefore s servers × IsSorted servers

str_ltb_asym : (a b : Str) → str_ltb a b ≡ true → str_ltb b a ≡ false
unfolding str_ltb
str_ltb_asym a [] h = ground arith
str_ltb_asym [] (y ∷ b) h = refl
str_ltb_asym (x ∷ a) (y ∷ b) h = ground (arith, str_ltb_asym a b)

-- `b <= a` and `c <= b` give `c <= a`, with `<=` as the failing of `<`.
str_ltb_trans : (a b c : Str) → str_ltb a b ≡ false → str_ltb b c ≡ false → str_ltb a c ≡ false
unfolding str_ltb
str_ltb_trans a b [] h k = ground arith
str_ltb_trans [] [] (z ∷ c) h k = ground (arith, k)
str_ltb_trans [] (y ∷ b) (z ∷ c) h k = ground (arith, h)
str_ltb_trans (x ∷ a) [] (z ∷ c) h k = ground (arith, h, k)
str_ltb_trans (x ∷ a) (y ∷ b) (z ∷ c) h k = ground (arith, h, k, str_ltb_trans a b c)

NotBefore-le :
    (s t : Server) (servers : List Server)
    → str_ltb t.id s.id ≡ false
    → NotBefore t servers
    → NotBefore s servers
NotBefore-le s t [] le above = tt
NotBefore-le s t (u ∷ servers) le (here, above) =
    (str_ltb_trans u.id t.id s.id here le, NotBefore-le s t servers le above)

insert-NotBefore :
    (s t : Server) (servers : List Server)
    → str_ltb s.id t.id ≡ false
    → NotBefore t servers
    → NotBefore t (insert_server s servers)
unfolding insert_server
insert-NotBefore s t [] le above = (le, tt)
insert-NotBefore s t (u ∷ servers) le (here, above) =
    ground (arith, here, le, above, insert-NotBefore s t servers le above)

insert-IsSorted :
    (s : Server) (servers : List Server) → IsSorted servers → IsSorted (insert_server s servers)
unfolding insert_server
insert-IsSorted s [] sorted = (tt, tt)
insert-IsSorted s (t ∷ servers) (above, sorted) = elim (Bool-cases (less t s)) [
  | inl before ↦ rw before (
    insert-NotBefore s t servers (str_ltb_asym t.id s.id before) above,
    insert-IsSorted s servers sorted,
  )
  | inr after ↦ rw after ((after, NotBefore-le s t servers after above), (above, sorted))
]

sort-IsSorted : (servers : List Server) → IsSorted (sort_servers servers)
unfolding sort_servers
sort-IsSorted [] = tt
sort-IsSorted (s ∷ servers) = insert-IsSorted s (sort_servers servers) (sort-IsSorted servers)

insert-perm : (s : Server) (servers : List Server) → Perm (insert_server s servers) (s ∷ servers)
unfolding insert_server
insert-perm s [] = Perm.rfl
insert-perm s (t ∷ servers) = elim (Bool-cases (less t s)) [
  | inl before ↦
      rw before (Perm.trans (Perm.cons t (insert-perm s servers)) (Perm.swap s t servers))
  | inr after ↦ rw after Perm.rfl
]

sort-perm : (servers : List Server) → Perm (sort_servers servers) servers
unfolding sort_servers
sort-perm [] = Perm.rfl
sort-perm (s ∷ servers) =
    Perm.trans (insert-perm s (sort_servers servers)) (Perm.cons s (sort-perm servers))

module _ (b : Badger) (casbin : Casbin b) (proto : Proto) (raft : Raft) where
  -- Where raft gives its configuration, `Nodes` lists its servers, each as often as it is there,
  -- ordered by their IDs.
  pub nodes-IsSorted :
      (n : Node b casbin proto raft) (servers : List Server)
      → raft.servers n.raft_state ≡ ok servers
      → (listed : List Server) × (nodes b casbin proto raft n ≡ ok listed)
        × IsSorted listed
        × Perm listed servers
  unfolding nodes
  nodes-IsSorted n servers known =
      (sort_servers servers, rw known refl, sort-IsSorted servers, sort-perm servers)

-- ===== src/Store/Fields/Tests.antt =====
-- The arguments of a message of raft.
use casbin_mesh.Prelude.{ℕ, str, ◌≡◌, refl, some, [], ◌∷◌}
use casbin_mesh.Store.Fields.{text, other, args_to_fields}

-- `logger.Info("…", "index", 7, 8, 9, "peer", "n2")`: a key that is no string is left out.
skipped :
    args_to_fields {V = ℕ} (
      text (str "index")
      ∷ (other 7 ∷ (other 8 ∷ (other 9 ∷ (text (str "peer") ∷ (text (str "n2") ∷ []))))))
    ≡ some ((str "index", other 7) ∷ ((str "peer", text (str "n2")) ∷ []))
unfolding args_to_fields
skipped = refl

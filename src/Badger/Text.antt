-- ===== src/Badger/Text.antt =====
-- A text of the entries of a table: each key and each value is ended by the byte 0, and one is added
-- to its own bytes.
use casbin_mesh.Prelude.{ℕ, zero, suc, Str, ◌≡◌, refl, List, [], ◌∷◌, ◌++◌}
use casbin_mesh.Dict.{Dict}

abbrev raised : Str → Str
raised [] = []
raised (c ∷ s) = suc c ∷ raised s

abbrev with_word : ℕ → List Str → List Str
with_word c [] = []
with_word c (w ∷ ws) = (c ∷ w) ∷ ws

abbrev words : Str → List Str
words [] = []
words (zero ∷ t) = [] ∷ words t
words (suc c ∷ t) = with_word c (words t)

abbrev pairs : List Str → Dict Str
pairs [] = []
pairs (k ∷ []) = []
pairs (k ∷ (v ∷ ws)) = (k, v) ∷ pairs ws

abbrev pub to_text : Dict Str → Str
to_text [] = []
to_text ((k, v) ∷ m) = raised k ++ (0 ∷ (raised v ++ (0 ∷ to_text m)))

abbrev pub of_text : Str → Dict Str
of_text t = pairs (words t)

words-raised : (s t : Str) → words (raised s ++ (0 ∷ t)) ≡ s ∷ words t
words-raised [] t = refl
words-raised (c ∷ s) t = rw (words-raised s t) refl

pub of_text-to_text : (m : Dict Str) → of_text (to_text m) ≡ m
of_text-to_text [] = refl
of_text-to_text ((k, v) ∷ m) =
    rw (words-raised k (raised v ++ (0 ∷ to_text m)), words-raised v (to_text m), of_text-to_text m)
      refl

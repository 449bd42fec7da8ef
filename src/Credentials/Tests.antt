-- ===== src/Credentials/Tests.antt =====
-- Runs of server/auth at concrete users, and the theorems at them.
use casbin_mesh.Prelude.{
  Str, str, ◌≡◌, refl, true, false, ◌||◌, ◌++◌, [], ◌∷◌, ◌==◌, nat_eq, list_eq, list_beq,
  if◌then◌else◌,
}
use casbin_mesh.Result.{ok}
use casbin_mesh.Dict
use casbin_mesh.Dict.{Dict}
use casbin_mesh.Credentials.{Bcrypt, MapCodec, CredentialsStore, add, check}
use casbin_mesh.Credentials.Login.{check-add}

-- A hash that shows the password: the salt, then the password.
abbrev open_bcrypt : Bcrypt
open_bcrypt = record {
  generate = λ salt p. ok (salt ++ p);
  matches = λ hashed p. hashed == str "$2a$" ++ p;
}

abbrev root_only : CredentialsStore
root_only = record { store = (str "root", str "$2a$secret") ∷ [] }

abbrev one_text : MapCodec
one_text = record { marshal = λ m. str "{}"; unmarshal = λ s. ok root_only.store }

login_by_hash : check open_bcrypt root_only (str "root") (str "secret") ≡ true
unfolding check Dict.lookup list_beq
login_by_hash = refl

wrong_password : check open_bcrypt root_only (str "root") (str "other") ≡ false
unfolding check Dict.lookup list_beq
wrong_password = refl

check-add_example :
    (c' : CredentialsStore) × (add open_bcrypt (str "$2a$") (str "bob") (str "pw") root_only
      ≡ ok c')
    × ((v q : Str)
        → check open_bcrypt c' v q ≡ (
            if str "bob" == v
            then q == str "$2a$pw" || str "$2a$pw" == str "$2a$" ++ q
            else check open_bcrypt root_only v q))
unfolding Dict.lookup list_beq
check-add_example =
    check-add open_bcrypt (str "$2a$") (str "bob") (str "pw") (str "$2a$pw") root_only refl refl

-- ===== src/Credentials.antt =====
-- server/auth: the credentials store of the nodes, a map from user names to passwords or hashes.
-- bcrypt is a library and a parameter here; the salt that it draws is an argument.
pub mod Login
mod Tests
use casbin_mesh.Prelude.{
  Str, Bool, false, ◌||◌, Option, none, some, List, [], ◌∷◌, ◌==◌, nat_eq, list_eq, if◌then◌else◌,
}
use casbin_mesh.Result.{Error, Result, ok, err, user_exists, user_not_exists}
use casbin_mesh.Dict
use casbin_mesh.Dict.{Dict}

-- golang.org/x/crypto/bcrypt: `GenerateFromPassword` and `CompareHashAndPassword(…) == nil`.
pub record Bcrypt : Type 0 where
  pub generate : Str → Str → Result Str
  pub matches : Str → Str → Bool

-- encoding/json for `map[string]string`.
pub record MapCodec : Type 0 where
  pub marshal : Dict Str → Str
  pub unmarshal : Str → Result (Dict Str)

pub record CredentialsStore : Type 0 where
  pub store : Dict Str

unfoldable pub new_credentials_store : CredentialsStore
new_credentials_store = record { store = Dict.empty }

module _ (b : Bcrypt) where
  -- The result is the new store, or the error; on an error the store is as before.
  unfoldable pub add : Str → Str → Str → CredentialsStore → Result CredentialsStore
  add salt username password c = elim (Dict.lookup username c.store) [
    | some _ ↦ err user_exists
    | none ↦ elim (b.generate salt password) [
      | err e ↦ err e
      | ok hashed ↦ ok (record c { store = Dict.insert username hashed c.store })
    ]
  ]

  unfoldable pub check : CredentialsStore → Str → Str → Bool
  check c username password = elim (Dict.lookup username c.store) [
    | none ↦ false
    | some pw ↦ password == pw || b.matches pw password
  ]

unfoldable pub remove : Str → CredentialsStore → Result CredentialsStore
remove username c = elim (Dict.lookup username c.store) [
  | some _ ↦ ok (record c { store = Dict.delete username c.store })
  | none ↦ err user_not_exists
]

unfoldable pub update : Str → Str → CredentialsStore → Result CredentialsStore
update username new_password c = elim (Dict.lookup username c.store) [
  | some _ ↦ ok (record c { store = Dict.insert username new_password c.store })
  | none ↦ err user_not_exists
]

-- Decoding into a map that is not empty adds to it.
unfoldable pub load : MapCodec → Str → CredentialsStore → Result CredentialsStore
load j text c = elim (j.unmarshal text) [
  | err e ↦ err e
  | ok m ↦ ok (record { store = Dict.insert_all m c.store })
]

-- The writer is a function of the data, with the error of `Write`.
unfoldable pub snapshot :
    {W : Type 0} → MapCodec → (Str → W → W × Option Error) → CredentialsStore → W → W × Option Error
snapshot j write c w = write (j.marshal c.store) w

-- server/auth/auth.go: the kinds of authentication.
pub data AuthType : Type 0 where
  basic noop : AuthType
  other_type : Str → AuthType

pub record AuthConfig : Type 0 where
  pub username : Str
  pub password : Str
  pub auth_type : AuthType

-- ===== src/Grpc/AuthTests.antt =====
-- The credentials of a call with an encoding that changes nothing.
use casbin_mesh.Prelude.{str, ◌≡◌, refl, some, nat_eq, list_eq, list_beq}
use casbin_mesh.Result.{ok}
use casbin_mesh.Grpc.Auth.{Base64, Base64Laws, parse_basic_auth}

abbrev plain : Base64
plain = record { encode_to_string = λ s. s; decode_string = λ s. ok s }

plain-Laws : Base64Laws plain
plain-Laws = record { decoded = λ s. refl }

-- The prefix is read in any case, and the first colon ends the user name.
upper_case : parse_basic_auth plain (str "BASIC al:i:ce") ≡ some (str "al", str "i:ce")
unfolding parse_basic_auth list_beq
upper_case = refl

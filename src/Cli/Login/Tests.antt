-- ===== src/Cli/Login/Tests.antt =====
-- A user who chooses `Basic`, and calls of the client at nodes.
use casbin_mesh.Prelude.{
  true, ℕ, suc, Str, str, Bool, ◌==◌, nat_eq, list_eq, list_beq, ◌≡◌, refl, some, List, [], ◌∷◌,
  arith, if◌then◌else◌,
}
use casbin_mesh.Result.{Result, ok, err, unauthorized}
use casbin_mesh.Dict
use casbin_mesh.Credentials.{basic, noop}
use casbin_mesh.Grpc.Auth.{Base64, Base64Laws, intercepted}
use casbin_mesh.Cli.Login.{
  Prompts, DialOptions, Started, Prompting, Asked, login, get_host, get_auth_type, get_credentials,
  outgoing, login-intercepted,
}

abbrev plain : Base64
plain = record { encode_to_string = λ s. s; decode_string = λ s. ok s }

plain-Laws : Base64Laws plain
plain-Laws = record { decoded = λ s. refl }

-- The answers of the user, one after the other.
abbrev answer : List Str → List Str × Result Str
answer [] = ([], err unauthorized)
answer (a ∷ answers) = (answers, ok a)

abbrev typed : Prompts (List Str)
typed = record {
  text_input = λ prompt placeholder limit hidden. answer;
  selection = λ prompt choices. answer;
}

abbrev dial : DialOptions → Str → Prompting (List Str) Str
dial o target w = (w, ok target)

abbrev answers : List Str
answers = str "h:1" ∷ (str "Basic" ∷ (str "al" ∷ (str "pw" ∷ [])))

abbrev session : Started Str
session = record {
  conn = str "h:1";
  dialled = record { insecure = true; block = true; interceptor = some (str "al", str "pw") };
  prefix = str "h:1 >> ";
}

logged_in : login typed dial answers ≡ ([], ok session)
unfolding login list_beq
logged_in = refl

-- `Noop` asks for neither, and the client sends both blank.
without_name :
    (login typed dial (str "h:1" ∷ (str "Noop" ∷ []))).1
    ≡ ok (record session {
      dialled = record { insecure = true; block = true; interceptor = some ([], []) };
    })
unfolding login list_beq
without_name = refl

-- A handler that counts its calls.
abbrev counting : ℕ → ℕ × Result ℕ
counting n = (suc n, ok n)

abbrev accepts : ℕ → Str → Str → Bool
accepts n u p = p == str "pw"

told : Asked typed dial answers
unfolding get_host get_auth_type get_credentials list_beq
told = record {
  host = str "h:1";
  auth_type = str "Basic";
  name = str "al";
  pwd = str "pw";
  w1 = str "Basic" ∷ (str "al" ∷ (str "pw" ∷ []));
  w2 = str "al" ∷ (str "pw" ∷ []);
  w3 = [];
  host_given = refl;
  type_chosen = refl;
  credentials_given = refl;
}

login-intercepted_example :
    (s : Started Str) × (login typed dial answers ≡ ([], ok s))
    × (intercepted plain basic accepts (some (outgoing plain s.dialled [])) counting 4
        ≡ (if accepts 4 (str "al") (str "pw") then counting 4 else (4, err unauthorized)))
    × (intercepted plain noop accepts (some (outgoing plain s.dialled [])) counting 4 ≡ counting 4)
unfolding Dict.lookup told
login-intercepted_example =
    login-intercepted typed dial plain plain-Laws answers [] (str "h:1") accepts [] counting 4 told
      refl ((λ e. omega (arith, e)), ((λ e. omega (arith, e)), tt)) refl

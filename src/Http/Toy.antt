-- ===== src/Http/Toy.antt =====
-- A service for the tests: the node of Store/Toy with a table of one JSON text.
use casbin_mesh.Prelude.{
  ◌+◌, ℕ, Str, str, Bool, true, false, not, ◌==◌, nat_eq, list_eq, list_beq, eq_iff, Option, none,
  some, List, [], ◌∷◌, pos, ℤ, if◌then◌else◌, arith, refl,
}
use casbin_mesh.Result.{ok, err, message}
use casbin_mesh.Credentials.{Bcrypt}
use casbin_mesh.Fsm.Toy.{toy_casbin}
use casbin_mesh.Cluster.Join.{JoinBody}
use casbin_mesh.Http.{Request}
use casbin_mesh.Http.Json.{JsonText}
use casbin_mesh.Http.Requests.{Validator, ValidatorLaws}
use casbin_mesh.Http.Service.{Libraries, Proxy}
use casbin_mesh.Http.Join.{join_json}
use casbin_mesh.Store.Status.{Settings}

abbrev pub joining : JoinBody
joining = record {
  id = str "n2";
  addr = str "h:2";
  voter = true;
  meta = (str "zone", str "a") ∷ [];
}

abbrev pub toy_json : JsonText
toy_json = record {
  parse =
      λ body. if body.text == str "join" then ok (join_json joining) else err (message (str "EOF"));
  print = λ v. str "join";
}

abbrev some_rows : Option (List (List Str)) → Bool
some_rows none = false
some_rows (some l) = true

abbrev some_texts : Option (List Str) → Bool
some_texts none = false
some_texts (some l) = true

abbrev nonzero : ℤ → Bool
nonzero (pos n) = not (n == 0)
nonzero _ = true

abbrev pub toy_validator : Validator
toy_validator = record {
  text_set = λ s. not (s == []);
  flag_set = λ f. f;
  int_set = nonzero;
  texts_set = some_texts;
  rows_set = some_rows;
  missing = λ names. message (str "missing");
}

pub toy_validator-laws : ValidatorLaws toy_validator
unfolding list_beq
toy_validator-laws = record {
  text_given = λ s given. ground (arith, given, eq_iff s []);
  flag_given = λ f. refl;
  int_zero = refl;
}

abbrev pub toy_bcrypt : Bcrypt
toy_bcrypt = record { generate = λ salt pw. ok pw; matches = λ hash pw. false }

abbrev pub libraries : Libraries toy_casbin
libraries = record {
  json = toy_json;
  validator = toy_validator;
  bcrypt = toy_bcrypt;
  param = λ v. str "value";
}

-- A leader that answers everything with 500; the network counts the requests.
abbrev pub broken_leader : Proxy ℕ
broken_leader = record {
  url_error = λ url. none;
  send = λ p sent. (sent + 1, ok (record { status = 500; text = str "failed"; failure = none }));
}

abbrev pub settings : Settings
settings = record {
  addr = str "h:1";
  raft_dir = str "raft";
  apply_timeout = str "10s";
  heartbeat_timeout = str "0s";
  election_timeout = str "0s";
  snapshot_threshold = 0;
  snapshot_interval = pos 0;
  trailing_logs = 0;
  log_size = ok (pos 0);
  dir_size = ok (pos 0);
}

abbrev pub anonymous : Str → Request
anonymous path = record {
  method = str "POST";
  path = path;
  request_uri = path;
  is_tls = false;
  header = [];
  basic = none;
  body = record { text = str "join"; failure = none };
}

-- ===== src/Fsm/Toy.antt =====
-- A policy engine and codecs that are small enough to run, for the tests: an engine whose policy is
-- a list of rules and that allows exactly those, and codecs that know one message each.
use casbin_mesh.Prelude.{
  zero, suc, refl, ap, ◌≡◌, ℕ, take, length, drop, arith, Str, str, Bool, true, false, Option, none,
  some, List, [], ◌∷◌, ◌++◌, ◌==◌, nat_eq, list_eq, if◌then◌else◌, pos,
}
use casbin_mesh.Result.{Result, ok, err, message}
use casbin_mesh.Badger.Table.{table_badger}
use casbin_mesh.Casbin.{Casbin}
use casbin_mesh.Command
use casbin_mesh.Command.{
  Command, CommandType, Codec, Proto, RulesPayload, UpdatePoliciesPayload,
  RemoveFilteredPolicyPayload, ListPoliciesPayload, EnforcePayload, MetadataSet, new_string_array,
  RoundTrips,
}

pub record Engine : Type 0 where
  pub model : Option Str
  pub rules : List (List Str)

abbrev allows : List Str → List (List Str) → Bool
allows r [] = false
allows r (q ∷ rules) = if q == r then true else allows r rules

abbrev pub toy_casbin : Casbin table_badger
toy_casbin = record {
  Enforcer = Engine;
  Model = Str;
  Param = Str;
  parse_param = λ s. ok s;
  print_param = λ v. ok v;
  new_distributed_enforcer = ok (record { model = none; rules = [] });
  get_model = λ e. e.model;
  to_text = λ m. m;
  new_model_from_string = λ s. if s == [] then err (message (str "no model")) else ok s;
  init_with_model_and_adapter = λ m ns d e. (record { model = some m; rules = [] }, none);
  add_policies_self = λ sec ptype rs e d. (record e { rules = e.rules ++ rs }, d, ok rs);
  update_policies_self = λ sec ptype os ns e d. (e, d, ok false);
  remove_policies_self = λ sec ptype rs e d. (record e { rules = [] }, d, ok e.rules);
  remove_filtered_policy_self = λ sec ptype i vs e d. (e, d, ok []);
  clear_policy_self = λ e d. (record e { rules = [] }, d, none);
  enforce = λ vs e. ok (allows vs e.rules);
}

-- A codec for one message, written as the byte 7.
abbrev pub one_message : {A : Type 0} → A → Codec A
one_message a = record {
  marshal = λ m. ok (7 ∷ []);
  unmarshal = λ s. if s == (7 ∷ []) then ok a else err (message (str "unexpected EOF"));
}

abbrev pub toy_rules : RulesPayload
toy_rules = record {
  sec = str "p";
  p_type = str "p";
  rules = new_string_array ((str "alice" ∷ []) ∷ []);
}

abbrev pub toy_update : UpdatePoliciesPayload
toy_update = record { sec = str "p"; p_type = str "p"; new_rules = []; old_rules = [] }

abbrev pub toy_filtered : RemoveFilteredPolicyPayload
toy_filtered = record { sec = str "p"; p_type = str "p"; field_index = pos 0; field_values = [] }

abbrev pub toy_metadata : MetadataSet
toy_metadata = record { raft_id = str "n1"; entries = (str "addr", str "h:1") ∷ [] }

-- A codec for all commands: the kind, the length of the namespace, the namespace and the payload.
abbrev kinds : List CommandType
kinds =
    Command.list_namespaces ∷ Command.print_model ∷ Command.list_policies ∷ Command.enforce_request
    ∷ Command.create_namespace ∷ Command.set_model ∷ Command.add_policies ∷ Command.update_policies
    ∷ Command.remove_policies ∷ Command.remove_filtered_policy ∷ Command.clear_policy
    ∷ Command.metadata_set ∷ Command.metadata_delete ∷ []

abbrev after : List CommandType → ℕ → ℕ
after [] n = n
after (k ∷ ks) n = suc (after ks n)

abbrev code_of : CommandType → ℕ
code_of Command.list_namespaces = 0
code_of Command.print_model = 1
code_of Command.list_policies = 2
code_of Command.enforce_request = 3
code_of Command.create_namespace = 4
code_of Command.set_model = 5
code_of Command.add_policies = 6
code_of Command.update_policies = 7
code_of Command.remove_policies = 8
code_of Command.remove_filtered_policy = 9
code_of Command.clear_policy = 10
code_of Command.metadata_set = 11
code_of Command.metadata_delete = 12
code_of (Command.unknown n) = after kinds n

abbrev pick : List CommandType → ℕ → CommandType
pick [] n = Command.unknown n
pick (k ∷ ks) zero = k
pick (k ∷ ks) (suc n) = pick ks n

abbrev kind_of : ℕ → CommandType
kind_of = pick kinds

abbrev decode : Str → Result Command
decode (k ∷ (n ∷ rest)) =
    ok (record { kind = kind_of k; namespace = take n rest; payload = drop n rest })
decode other = err (message (str "unexpected EOF"))

abbrev pub command_codec : Codec Command
command_codec = record {
  marshal = λ c. ok (code_of c.kind ∷ (length c.namespace ∷ (c.namespace ++ c.payload)));
  unmarshal = decode;
}

kind_of-code_of : (k : CommandType) → kind_of (code_of k) ≡ k
kind_of-code_of Command.list_namespaces = refl
kind_of-code_of Command.print_model = refl
kind_of-code_of Command.list_policies = refl
kind_of-code_of Command.enforce_request = refl
kind_of-code_of Command.create_namespace = refl
kind_of-code_of Command.set_model = refl
kind_of-code_of Command.add_policies = refl
kind_of-code_of Command.update_policies = refl
kind_of-code_of Command.remove_policies = refl
kind_of-code_of Command.remove_filtered_policy = refl
kind_of-code_of Command.clear_policy = refl
kind_of-code_of Command.metadata_set = refl
kind_of-code_of Command.metadata_delete = refl
kind_of-code_of (Command.unknown n) = refl

take_front : (s t : Str) → take (length s) (s ++ t) ≡ s
take_front [] t = refl
take_front (c ∷ s) t = ap (◌∷◌ c) (take_front s t)

drop_front : (s t : Str) → drop (length s) (s ++ t) ≡ t
drop_front [] t = refl
drop_front (c ∷ s) t = drop_front s t

pub command_codec-RoundTrips : RoundTrips command_codec
command_codec-RoundTrips = record {
  decoded = λ c bytes e. ground (
    arith,
    kind_of-code_of c.kind,
    take_front c.namespace c.payload,
    drop_front c.namespace c.payload,
  );
}

-- The codecs: that of all commands, and one message for each other type.
abbrev pub toy_proto : Proto
toy_proto = record {
  command = command_codec;
  rules = one_message toy_rules;
  update = one_message toy_update;
  filtered = one_message toy_filtered;
  listing = one_message (record { cursor = []; skip = pos 0; limit = pos 10; reverse = false });
  enforce =
      one_message (record { b = str "alice" ∷ []; level = Command.strong; freshness = pos 0 });
  model_text = one_message (str "model");
  metadata = one_message toy_metadata;
  metadata_id = one_message (str "n1");
}

-- Adding the rule to the namespace `hr`: the kind, the length of the name, the name, the payload.
abbrev pub add_to_hr : Str
add_to_hr = 6 ∷ (2 ∷ (str "hr" ++ (7 ∷ [])))

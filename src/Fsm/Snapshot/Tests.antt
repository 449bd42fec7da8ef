-- ===== src/Fsm/Snapshot/Tests.antt =====
-- A snapshot of a node with two namespaces, one of them without policies, restored at a new node, and
-- the theorem at it. The engine takes the keys of its namespace for its rules.
use casbin_mesh.Prelude.{
  Str, str, ◌≡◌, refl, ap, sym, ◌∙◌, arith, Option, none, some, [], ◌∷◌, ◌++◌, list_beq,
  if◌then◌else◌, has_prefix,
}
use casbin_mesh.Result.{Result, ok, err, message}
use casbin_mesh.Dict
use casbin_mesh.Dict.{Dict}
use casbin_mesh.Badger.Order.{while_prefix, str_leb, str_ltb}
use casbin_mesh.Badger.Sorted.{from_key, in_order}
use casbin_mesh.Badger.Text.{to_text, of_text, of_text-to_text}
use casbin_mesh.Badger.Table.{table_badger, table_laws, table_backup, stored_table}
use casbin_mesh.Bucket
use casbin_mesh.Casbin.{Casbin}
use casbin_mesh.Fsm.{State, row_texts}
use casbin_mesh.Fsm.Toy.{toy_casbin, toy_proto}
use casbin_mesh.Fsm.Snapshot.{
  SnapshotCodec, PersistData, snapshot, snapshot_hdr, persist, models_of, restore, restore_data,
}
use casbin_mesh.Fsm.Snapshot.Rebuild.{ReadsItsNamespace, SamePolicies, built_from}
use casbin_mesh.Fsm.Snapshot.RoundTrip.{SnapshotCodecLaws, text_of, restore-snapshot}

abbrev reading_casbin : Casbin table_badger
reading_casbin = record toy_casbin {
  init_with_model_and_adapter = λ m ns d e. (
    record { model = some m; rules = row_texts (Bucket.bucket_entries table_badger ns d) },
    none,
  );
}

reading-Reads : ReadsItsNamespace reading_casbin
reading-Reads = record {
  init_same = λ m ns d d' e same.
      ap (λ rows. (record { model = some m; rules = row_texts rows }, none)) same;
}

-- The four texts of a snapshot as the entries of a table.
abbrev flagged : Option Str → Str
flagged none = []
flagged (some t) = 1 ∷ t

abbrev unflagged : Str → Option Str
unflagged [] = none
unflagged (c ∷ t) = some t

abbrev data_of : Dict Str → Result PersistData
data_of ((models, state) ∷ ((meta, store) ∷ [])) =
    ok (record { models = models; state = state; meta = meta; credential_store = unflagged store })
data_of other = err (message (str "unexpected end of JSON input"))

abbrev text_codec : SnapshotCodec
text_codec = record {
  marshal_data =
      λ d. ok (to_text ((d.models, d.state) ∷ ((d.meta, flagged d.credential_store) ∷ [])));
  unmarshal_data = λ t. data_of (of_text t);
  marshal_meta = λ m. ok [];
  marshal_models = λ m. ok (to_text m);
  unmarshal_models = λ t. ok (of_text t);
  credentials = record { marshal = λ m. to_text m; unmarshal = λ t. ok (of_text t) };
}

unflagged-flagged : (o : Option Str) → unflagged (flagged o) ≡ o
unflagged-flagged none = refl
unflagged-flagged (some t) = refl

decoded_data :
    (d : PersistData) (t : Str)
    → text_codec.marshal_data d ≡ ok t
    → text_codec.unmarshal_data t ≡ ok d
decoded_data d t h =
    let entries : Dict Str = (d.models, d.state) ∷ ((d.meta, flagged d.credential_store) ∷ []) in
    let same : to_text entries ≡ t = ground (arith, h) in
    rw (sym same, of_text-to_text entries, unflagged-flagged d.credential_store) refl

decoded_models :
    (m m' : Dict Str) (t : Str)
    → text_codec.marshal_models m ≡ ok t
    → text_codec.unmarshal_models t ≡ ok m'
    → m' ≡ m
decoded_models m m' t written read =
    let same : to_text m ≡ t = ground (arith, written) in
    let same' : of_text t ≡ m' = ground (arith, read) in
    sym same' ∙ ap of_text (sym same) ∙ of_text-to_text m

codec_laws : SnapshotCodecLaws text_codec
codec_laws = record {
  IsText = λ m. Unit;
  decoded = decoded_data;
  lookup-decoded =
      λ m m' t name texts written read. ap (Dict.lookup name) (decoded_models m m' t written read);
}

abbrev node : State table_badger reading_casbin toy_proto
node = record {
  enforcers =
      (str "hr", record { model = some (str "m"); rules = [] })
      ∷ ((str "it", record { model = some (str "n"); rules = [] }) ∷ []);
  db = (0 ∷ str "hr", []) ∷ ((0 ∷ str "it", []) ∷ ((1 ∷ str "hrp::a", str "{}") ∷ []));
  meta = [];
  auth_cred_store = none;
}

abbrev new_node : State table_badger reading_casbin toy_proto
new_node = record { enforcers = []; db = []; meta = []; auth_cred_store = none }

abbrev taken : PersistData
taken = record {
  models = to_text ((str "hr", str "m") ∷ ((str "it", str "n") ∷ []));
  state = to_text node.db;
  meta = [];
  credential_store = none;
}

abbrev restored : State table_badger reading_casbin toy_proto
restored = (restore_data table_badger reading_casbin toy_proto text_codec taken new_node).0

restore-snapshot_example :
    (restore table_badger reading_casbin toy_proto text_codec
        (snapshot_hdr ++ to_text ((taken.models, taken.state) ∷ (([], []) ∷ [])))
        new_node
      ≡ some (restored, none))
    × (Dict.lookup (str "hr") restored.enforcers ≡ (
        if Dict.has (str "hr") (Bucket.namespaces table_badger node.db)
        then built_from table_badger reading_casbin
            (str "hr")
            (text_of table_badger reading_casbin toy_proto text_codec
              (Dict.lookup (str "hr") node.enforcers))
            node.db
        else none))
    × SamePolicies table_badger table_laws restored.db node.db
    × (restored.meta ≡ new_node.meta)
unfolding snapshot persist models_of Dict.lookup restore_data while_prefix from_key in_order str_leb
    str_ltb has_prefix list_beq codec_laws Dict.insert
restore-snapshot_example =
    restore-snapshot table_badger table_laws table_backup reading_casbin reading-Reads toy_proto
      text_codec codec_laws node new_node taken
      (snapshot_hdr ++ to_text ((taken.models, taken.state) ∷ (([], []) ∷ []))) (str "hr") refl
      (λ kept set. tt) refl (λ k. stored_table [] k) refl

-- What the new node has of the first.
hr_restored :
    Dict.lookup (str "hr") restored.enforcers
    ≡ some (record { model = some (str "m"); rules = (str "p::a" ∷ (str "{}" ∷ [])) ∷ [] })
unfolding Dict.lookup restore_data while_prefix from_key in_order str_leb has_prefix list_beq
    row_texts str_ltb Dict.insert Bucket.bucket_entries Bucket.with_prefix
hr_restored = refl

-- With a namespace that has no model yet the snapshot panics.
abbrev without_model : State table_badger reading_casbin toy_proto
without_model = record node { enforcers = (str "it", record { model = none; rules = [] }) ∷ [] }

unset_panics : snapshot table_badger reading_casbin toy_proto text_codec without_model ≡ none
unfolding snapshot models_of
unset_panics = refl

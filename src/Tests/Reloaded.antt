-- ===== src/Tests/Reloaded.antt =====
-- A bundle that is written and loaded again, on a platform that keeps encoding/json's promises.
use native.Mathlib.Decide.{ℕ_discrete}
use runtime_provenance_firew.Base.{
  String, ◌<>◌, ◌≡◌, refl, ap, subst, true, some, none, Option, [], ◌∷◌, ◌++◌, string_eq, nat_eq,
  string_dec, string_lt, ok, texts_differ,
}
use runtime_provenance_firew.Base.Equality.{bytes_eq}
use runtime_provenance_firew.Json.{
  Value, lookup, number, str, end, field, generic, sort_fields, insert_sorted, decimal, decimal_int,
}
use runtime_provenance_firew.Model.{ExecutionGraph, Correlation}
use runtime_provenance_firew.Model.Encoding.{
  graph_value, manifest_value, statement_value, process_value,
}
use runtime_provenance_firew.Platform.{Platform, Bytes, Tokens}
use runtime_provenance_firew.Parse.{
  canonical, decode_strict, validate_json_shape, walk_json, require_eof, max_document_bytes,
}
use runtime_provenance_firew.Evidence.{Events}
use runtime_provenance_firew.Assemble.{Inputs, Bundle, manifest_of, trace_of}
use runtime_provenance_firew.Loss.{loss_from_final_event, bool_resource, uint_resource}
use runtime_provenance_firew.Verify.{verify}
use runtime_provenance_firew.LocalProvenance.{local_identity}
use runtime_provenance_firew.Files.{
  Disk, Decoders, bundle_values, write_values, write_through, write_bundle, load_bundle,
}
use runtime_provenance_firew.Files.Bundles.{AreApart}
use runtime_provenance_firew.Files.Settled.{settled_graph, settled_statement, settled_bundle}
use runtime_provenance_firew.Files.Loaded.{IsLoadable, written_bundle_loads}
use runtime_provenance_firew.Tests.Sorts.{runtime}
use runtime_provenance_firew.Tests.Codec.{
  read_value, read, read_text, write, write_text, char_of, char_from, in_range, are_less, is_less,
}
use runtime_provenance_firew.Tests.Codec.RoundTrip.{read_value-write}
use runtime_provenance_firew.Tests.Sample.{
  platform_with, platform_with-IsJson, platform_with-IsLineJson, sum, float_name, find, started,
  finished, source,
}

abbrev disk : Disk
disk = record {
  base = λ path. path;
  join = λ directory name. name;
  reads = λ path. true;
  makes_directory = λ path. true;
  creates = λ path. true;
  writes = λ path. true;
  syncs = λ path. true;
  closes = λ path. true;
  renames = λ path. true;
  removes = λ path. true;
  partial = λ path. 1 ∷ [];
  left = λ path. none;
  range_values = λ values. values;
}

abbrev coder : Platform
coder = platform_with [] [] [] []

abbrev events : Events
events = record { first = started; rest = finished ∷ [] }

abbrev identity : Correlation
identity = local_identity started source

abbrev inputs : Inputs
inputs = record {
  artifact_bytes = 1 ∷ 2 ∷ 3 ∷ [];
  artifact_name = "a.out";
  event_bytes = 10 ∷ [];
  provenance_bytes = 20 ∷ [];
  policy_bytes = 21 ∷ [];
}

abbrev graph : ExecutionGraph
graph = record {
  schema_version = "0.2";
  build_id = "build-1";
  nodes = some (
      record {
        process_key = "k1";
        parent_key = "k0";
        parent_observation = "unobserved";
        executable = "/bin/cc";
      }
      ∷ []);
  edges = some (
      record {
        sequence = 2;
        from = "k1";
        to = "a.out";
        kind = "file_open_output";
        evidence = some (field "flags" (number "1") (field "path" (str "a.out") end));
      }
      ∷ record {
        sequence = 3;
        from = "k1";
        to = "";
        kind = "file_open_sensitive";
        evidence = some end;
      }
      ∷ []);
}

abbrev bundle : Bundle
bundle = record {
  graph = graph;
  manifest = manifest_of coder inputs identity events "sha256:1";
  runtime_trace = trace_of coder inputs identity events graph (field "buildId" (str "build-1") end);
}

-- The line of a value.
abbrev line : Value → Bytes
line v = write (generic float_name (generic float_name v)) [] ++ 10 ∷ []

abbrev loading : Platform
loading =
    platform_with []
      ((line (statement_value bundle.runtime_trace), settled_statement coder bundle.runtime_trace)
        ∷ [])
      [] []

abbrev decoders : Decoders
decoders = record {
  decode_graph = find ((line (graph_value bundle.graph), settled_graph coder bundle.graph) ∷ []);
  decode_manifest = find ((line (manifest_value bundle.manifest), bundle.manifest) ∷ []);
}

abbrev graph_file : String
graph_file = "execution-graph.json"

abbrev manifest_file : String
manifest_file = "evidence-manifest.json"

abbrev trace_file : String
trace_file = "runtime-trace.json"

files_apart : AreApart disk "out" (disk.range_values (bundle_values loading disk bundle))
unfolding bundle_values
files_apart = (
  (
    texts_differ graph_file manifest_file refl,
    texts_differ graph_file (manifest_file <> ".tmp") refl,
    (
      texts_differ graph_file trace_file refl,
      texts_differ graph_file (trace_file <> ".tmp") refl,
      tt,
    ),
  ),
  (
    (
      texts_differ manifest_file trace_file refl,
      texts_differ manifest_file (trace_file <> ".tmp") refl,
      tt,
    ),
    (tt, tt),
  ),
)

-- Canonical bytes and a line end are the line.
canonical-line : (v : Value) (raw : Bytes) → canonical loading v ≡ ok raw → line v ≡ raw ++ 10 ∷ []
unfolding canonical platform_with
canonical-line v raw h =
    let read = rw (read_value-write (generic float_name v)) at h in
    let same : write (generic float_name (generic float_name v)) [] ≡ raw = cc in
    ap (λ r. r ++ 10 ∷ []) same

read_back :
    {A : Type 0} (decode : Bytes → Option (A × Tokens)) (v : Value) (x : A)
    → decode_strict loading decode (line v) max_document_bytes ≡ ok x
    → (raw : Bytes) → canonical loading v ≡ ok raw
    → decode_strict loading decode (raw ++ 10 ∷ []) max_document_bytes ≡ ok x
read_back decode v x reads raw h =
    subst (λ r. decode_strict loading decode r max_document_bytes ≡ ok x) (canonical-line v raw h)
      reads

graph_reads :
    decode_strict loading decoders.decode_graph (line (graph_value bundle.graph)) max_document_bytes
    ≡ ok (settled_graph loading bundle.graph)
unfolding decode_strict validate_json_shape walk_json require_eof generic sort_fields insert_sorted
    string_lt string_dec decimal decimal_int graph_value manifest_value statement_value
    process_value platform_with sum read_value read read_text write write_text char_of char_from
    in_range are_less is_less string_eq nat_eq bytes_eq ℕ_discrete manifest_of trace_of
    local_identity loss_from_final_event bool_resource uint_resource lookup
graph_reads = refl

manifest_reads :
    decode_strict loading decoders.decode_manifest
      (line (manifest_value bundle.manifest))
      max_document_bytes
    ≡ ok bundle.manifest
unfolding decode_strict validate_json_shape walk_json require_eof generic sort_fields insert_sorted
    string_lt string_dec decimal decimal_int graph_value manifest_value statement_value
    process_value platform_with sum read_value read read_text write write_text char_of char_from
    in_range are_less is_less string_eq nat_eq bytes_eq ℕ_discrete manifest_of trace_of
    local_identity loss_from_final_event bool_resource uint_resource lookup
manifest_reads = refl

trace_reads :
    decode_strict loading loading.decode_statement
      (line (statement_value bundle.runtime_trace))
      max_document_bytes
    ≡ ok (settled_statement loading bundle.runtime_trace)
unfolding decode_strict validate_json_shape walk_json require_eof generic sort_fields insert_sorted
    string_lt string_dec decimal decimal_int graph_value manifest_value statement_value
    process_value platform_with sum read_value read read_text write write_text char_of char_from
    in_range are_less is_less string_eq nat_eq bytes_eq ℕ_discrete manifest_of trace_of
    local_identity loss_from_final_event bool_resource uint_resource lookup
trace_reads = refl

loadable : IsLoadable loading disk decoders "out" bundle
loadable = record {
  ranged = λ name value has. has;
  apart = files_apart;
  readable = λ path. refl;
  graph = read_back decoders.decode_graph (graph_value bundle.graph) _ graph_reads;
  manifest = read_back decoders.decode_manifest (manifest_value bundle.manifest) _ manifest_reads;
  trace = read_back loading.decode_statement (statement_value bundle.runtime_trace) _ trace_reads;
}

wrote : (write_bundle loading disk "out" bundle []).1 ≡ ok tt
unfolding write_bundle bundle_values write_values write_through canonical decode_strict
    validate_json_shape walk_json require_eof generic sort_fields insert_sorted string_lt string_dec
    decimal decimal_int graph_value manifest_value statement_value process_value platform_with sum
    read_value read read_text write write_text char_of char_from in_range are_less is_less string_eq
    nat_eq bytes_eq ℕ_discrete manifest_of trace_of local_identity loss_from_final_event
    bool_resource uint_resource lookup
wrote = refl

written_bundle_loads_example :
    (load_bundle loading disk decoders "out" (write_bundle loading disk "out" bundle []).0
      ≡ ok (settled_bundle loading bundle))
    × (verify loading runtime inputs (settled_bundle loading bundle)
        ≡ verify loading runtime inputs bundle)
written_bundle_loads_example =
    written_bundle_loads loading disk decoders "out" bundle [] runtime inputs
      (platform_with-IsJson _ _ _ _) (platform_with-IsLineJson _ _ _ _) loadable wrote

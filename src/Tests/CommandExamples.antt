-- ===== src/Tests/CommandExamples.antt =====
-- The theorems on the commands, their files and the local provenance at concrete inputs.
use native.Mathlib.Decide.{ℕ_discrete}
use runtime_provenance_firew.Base.{
  String, ◌≡◌, ◌≢◌, ◌↔◌, refl, none, some, true, false, List, [], ◌∷◌, ◌++◌, string_eq, nat_eq,
  string_dec, ok, inl, inr, texts_differ,
}
use runtime_provenance_firew.Json.{null, str, fields, lookup}
use runtime_provenance_firew.Model.{
  ExecutionGraph, node_eq, Event, Statement, source_eq, integrity_eq, build_eq, sensor_eq,
}
use runtime_provenance_firew.Platform.{Platform, Bytes, eof}
use runtime_provenance_firew.Parse.{
  canonical, decode_strict, to_map, validate_json_shape, walk_json, require_eof,
}
use runtime_provenance_firew.Evidence.{Events}
use runtime_provenance_firew.Provenance.{provenance_identity}
use runtime_provenance_firew.Assemble.{Inputs, check_binding, verify_artifact_observation}
use runtime_provenance_firew.LocalProvenance.{local_identity, create_local_fixture_provenance}
use runtime_provenance_firew.LocalProvenance.Accepted.{ReadsIdentity, local_provenance_accepted}
use runtime_provenance_firew.Files.{Disk, Decoders, Files, write_canonical_exclusive}
use runtime_provenance_firew.Files.Exclusive.{WritesAll, write_canonical_exclusive-WritesAll}
use runtime_provenance_firew.Cli.{Options, verify_command}
use runtime_provenance_firew.Cli.Status.{IsPassed, verify_command_zero}
use runtime_provenance_firew.Authz.{Response, Dialer, authorize, proof_request, prove}
use runtime_provenance_firew.Authz.Modes.{authorize-granted_iff, prove_iff}
use runtime_provenance_firew.Enter.{State, System, enter}
use runtime_provenance_firew.Enter.Dropped.{IsConfined, enter-IsConfined}
use runtime_provenance_firew.Graph.{build_graph, collect, find_node, put_node, arrange, edge_of}
use runtime_provenance_firew.Graph.Identity.{build_graph_identifies}
use runtime_provenance_firew.Kernel.{KernelEvent}
use runtime_provenance_firew.Agent.{process_from_kernel}
use runtime_provenance_firew.Agent.Reexecuted.{reexecution_refused}
use runtime_provenance_firew.Lab.{Laboratory, Callback, run_build_fixture, run_connect, serve_mock}
use runtime_provenance_firew.Lab.Confined.{
  IsConfinedTo, IsConnected, IsServing, run_build_fixture-IsConfinedTo, serve_mock-run_connect,
}
use runtime_provenance_firew.Tests.Sorts.{runtime}
use runtime_provenance_firew.Tests.Sample.{started, compiler, source}
use runtime_provenance_firew.Tests.Sensor.{plain_platform, executed}

abbrev artifact_event : Event
artifact_event = record started {
  operation = "artifact_finalized";
  process = some compiler;
  resource = some (fields (("sha256", str "d") ∷ []));
}

abbrev local_events : Events
local_events = record { first = started; rest = artifact_event ∷ [] }

-- The plain platform, which decodes the identity of these events from all bytes.
abbrev local_platform : Platform
local_platform = record plain_platform {
  decode_correlation = λ raw. some (local_identity started source, eof);
}

abbrev local_inputs : Inputs
local_inputs = record {
  artifact_bytes = 3 ∷ [];
  artifact_name = "a.out";
  event_bytes = [];
  provenance_bytes = [];
  policy_bytes = [];
}

local_made :
    (s : Statement) × (create_local_fixture_provenance local_platform "a.out"
        (3 ∷ [])
        local_events
        source.repository
        source.revision
      ≡ ok s)
unfolding create_local_fixture_provenance verify_artifact_observation to_map canonical decode_strict
    validate_json_shape walk_json require_eof lookup string_eq string_dec nat_eq ℕ_discrete
    source_eq
local_made = (_, refl)

local_reads : ReadsIdentity local_platform (local_identity started source)
unfolding canonical decode_strict validate_json_shape walk_json require_eof nat_eq
local_reads m h = (1 ∷ [], refl, refl)

local_provenance_accepted_example :
    (provenance_identity local_platform local_made.0 ≡ ok (local_identity started source))
    × (check_binding local_platform local_inputs local_events local_made.0
          (local_identity started source)
        ≡ ok tt)
local_provenance_accepted_example =
    local_provenance_accepted local_platform local_inputs local_events source.repository
      source.revision local_made.0 local_made.1 local_reads (texts_differ "build-1" "" refl)
      (texts_differ "run-1" "" refl) (texts_differ "2025-01-01T00:00:00Z" "" refl)
      (texts_differ "2025-01-01T00:00:00Z" "" refl)

abbrev disk : Disk
disk = record {
  base = λ path. path;
  join = λ directory name. name;
  reads = λ path. true;
  makes_directory = λ path. true;
  creates = λ path. true;
  writes = λ path. true;
  syncs = λ path. false;
  closes = λ path. true;
  renames = λ path. true;
  removes = λ path. true;
  partial = λ path. 1 ∷ [];
  left = λ path. none;
  range_values = λ values. values;
}

abbrev files : Files
files = ("events", 1 ∷ []) ∷ []

write_canonical_exclusive-WritesAll_example :
    WritesAll plain_platform disk "graph" null files
      (write_canonical_exclusive plain_platform disk "graph" null files)
write_canonical_exclusive-WritesAll_example =
    write_canonical_exclusive-WritesAll plain_platform disk "graph" null files

abbrev decoders : Decoders
decoders = record { decode_graph = λ raw. none; decode_manifest = λ raw. none }

abbrev options : Options
options = record {
  artifact = "artifact";
  events = "events";
  provenance = "provenance";
  policy = "policy";
  bundle = "bundle";
  repository = "";
  revision = "";
  output = "";
}

verify_command_zero_example :
    (verify_command plain_platform runtime disk decoders true options files ≡ 0)
    ↔ ((true ≡ true) × IsPassed plain_platform runtime disk decoders options files)
verify_command_zero_example =
    verify_command_zero plain_platform runtime disk decoders true options files

authorize-granted_iff_example : ((authorize "patched" proof_request).granted ≡ true) ↔ (
    (proof_request.target ≡ "rpf-authz-fixture-v1")
    × (proof_request.session_role ≡ "builder-admin"))
authorize-granted_iff_example =
    authorize-granted_iff "patched" proof_request
      (texts_differ "patched" "intentionally-vulnerable" refl)

abbrev dialer : Dialer
dialer = record {
  is_loopback = λ address. some true;
  dials = true;
  sends = true;
  exchange = λ input. some (authorize "patched" input);
}

prove_iff_example :
    (((r : Response) × (prove dialer "127.0.0.1:1" "deny" ≡ ok r))
      ↔ (◌≢◌ {A = String} "patched" "intentionally-vulnerable"))
    × (((r : Response) × (prove dialer "127.0.0.1:1" "grant" ≡ ok r))
        ↔ (◌≡◌ {A = String} "patched" "intentionally-vulnerable"))
prove_iff_example = prove_iff dialer "127.0.0.1:1" "patched" refl refl refl refl

-- A system that grants everything but the last drop.
abbrev system : System
system = record {
  resolve = λ path. some path;
  absolute = λ path. some path;
  dir = λ path. "/sys/fs/cgroup";
  base = λ path. "rpf-1";
  has_prefix = λ name prefix. true;
  enters = λ cgroup. true;
  forbids_privileges = true;
  clears_groups = true;
  sets_gid = true;
  sets_uid = false;
  executes = λ target. true;
}

abbrev root : State
root = record {
  uid = 0;
  gid = 0;
  has_groups = true;
  no_new_privileges = false;
  cgroup = none;
  program = none;
}

abbrev arguments : List String
arguments = "--cgroup" ∷ "/sys/fs/cgroup/rpf-1" ∷ "--" ∷ "/bin/make" ∷ []

enter-IsConfined_example : IsConfined system root (enter system arguments root)
enter-IsConfined_example = enter-IsConfined system arguments root refl

graph_built :
    (g : ExecutionGraph) × (build_graph plain_platform runtime (artifact_event ∷ []) ≡ ok g)
unfolding build_graph collect find_node put_node arrange edge_of string_eq string_dec node_eq
graph_built = (_, refl)

build_graph_identifies_example :
    (compiler.process_key ≢ "")
    × (compiler.executable.path ≢ "")
    × (compiler.process_key ≡ compiler.process_key
        → (compiler.parent_key ≡ compiler.parent_key)
          × (compiler.executable.path ≡ compiler.executable.path))
build_graph_identifies_example =
    build_graph_identifies plain_platform runtime (artifact_event ∷ []) graph_built.0 compiler
      compiler graph_built.1 (inl refl) (inl refl)

-- The compiler executes the linker in its place.
abbrev linked : KernelEvent
linked = record executed { filename = "/bin/ld" }

abbrev exec_event : KernelEvent → Event
exec_event event = record started {
  operation = "process_exec";
  process = some (process_from_kernel plain_platform event "boot-1");
}

reexecution_refused_example :
    build_graph plain_platform runtime (exec_event executed ∷ exec_event linked ∷ [])
    ≢ ok graph_built.0
reexecution_refused_example =
    reexecution_refused plain_platform runtime "boot-1" executed linked
      (exec_event executed ∷ exec_event linked ∷ []) graph_built.0
      (record { pid_namespace = refl; tgid = refl; start_time = refl })
      (texts_differ "/bin/cc" "/bin/ld" refl) (inl refl) (inr (inl refl))

abbrev laboratory : Laboratory
laboratory = record {
  clean = λ path. path;
  dir = λ path. "/src/build/out";
  base = λ path. "sensor-1-artifact.txt";
  has_prefix = λ name prefix. true;
  has_suffix = λ name suffix. true;
  disposable = "1";
  opens = λ path. true;
  stats = λ path. true;
  is_regular = λ path. true;
  truncates = λ path. true;
  writes = λ path. true;
  syncs = λ path. true;
  left = λ path. [];
  reads = λ path. true;
  is_json = λ raw. true;
}

abbrev lab_artifact : String
lab_artifact = "/src/build/out/sensor-1-artifact.txt"

run_build_fixture-IsConfinedTo_example :
    IsConfinedTo laboratory lab_artifact
      ((lab_artifact, []) ∷ files)
      (run_build_fixture laboratory lab_artifact false ((lab_artifact, []) ∷ files))
run_build_fixture-IsConfinedTo_example =
    run_build_fixture-IsConfinedTo laboratory lab_artifact false ((lab_artifact, []) ∷ files)

abbrev callback : Callback
callback = record {
  is_loopback = λ address. some true;
  dials = true;
  writes = true;
  listens = true;
  creates_ready = true;
  closes_ready = true;
  sets_deadline = true;
  accepts = true;
  sets_read_deadline = true;
}

serve_mock-run_connect_example :
    ((sent : Bytes) × (run_connect callback "127.0.0.1:18080" ≡ ok sent)
      × (serve_mock callback "127.0.0.1:18081" "ready" (sent ++ 10 ∷ []) ≡ ok tt))
    ↔ (IsConnected callback "127.0.0.1:18080" × IsServing callback "127.0.0.1:18081" "ready")
serve_mock-run_connect_example =
    serve_mock-run_connect callback callback "127.0.0.1:18080" "127.0.0.1:18081" "ready" (10 ∷ [])

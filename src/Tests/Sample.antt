-- ===== src/Tests/Sample.antt =====
-- A platform that keeps encoding/json's promises, and a stream of three events that a chain wrote.
-- In place of SHA-256 stands the sum of the bytes.
use runtime_provenance_firew.Base.{
  ℕ, ◌+◌, ◌*◌, ◌%◌, ◌^◌, String, ◌≡◌, ap, Option, none, some, List, [], ◌∷◌, ◌==◌, bytes_eq,
  string_eq, subst, refl, false, if◌then◌else◌,
}
use runtime_provenance_firew.Json.{
  pos, Value, object, Fields, fields, number, bool, decimal, generic,
}
use runtime_provenance_firew.Model.{
  BuildScope, Sensor, Event, Process, Statement, Correlation, Policy, SourceIdentity, zero_hash,
}
use runtime_provenance_firew.Platform.{Platform, Bytes, Tokens, eof, next, scalar}
use runtime_provenance_firew.Platform.Laws.{IsJson}
use runtime_provenance_firew.Chain.{EventChain, zero_scope, zero_sensor, zero_integrity}
use runtime_provenance_firew.Tests.Codec.{write, write_text, read_value}
use runtime_provenance_firew.Tests.Codec.RoundTrip.{read_value-write}
use runtime_provenance_firew.Tests.Codec.Plain.{write-generic-IsPlain}
use runtime_provenance_firew.Stream.Written.{IsPlain, IsLineJson}
use runtime_provenance_firew.Model.Encoding.{event_value}

unfoldable pub sum : Bytes → ℕ
sum [] = 0
sum (b ∷ bytes) = (7 * sum bytes + b) % 2 ^ 32

abbrev pub float_name : ℕ → String
float_name bits = "0.5"

abbrev as_map : Option Value → Option (Fields × Tokens)
as_map (some (object fs)) = some (fs, eof)
as_map _ = none

abbrev pub find : {A : Type 0} → List (Bytes × A) → Bytes → Option (A × Tokens)
find [] raw = none
find ((text, a) ∷ rest) raw = if text == raw then some (a, eof) else find rest raw

unfoldable pub platform_with :
    List (Bytes × Event)
    → List (Bytes × Statement)
    → List (Bytes × Correlation)
    → List (Bytes × Policy)
    → Platform
unfolding sum
platform_with events statements correlations policies = record {
  sha256_hex = λ raw. decimal (sum raw);
  bytes_of = λ s. write_text s [];
  trim_space = λ raw. raw;
  marshal = λ v. some (write (generic float_name v) []);
  tokens = λ raw. next scalar eof;
  decode_any = read_value;
  decode_map = λ raw. as_map (read_value raw);
  decode_event = find events;
  decode_statement = find statements;
  decode_correlation = find correlations;
  decode_policy = find policies;
  float_text = float_name;
  number_int64 = λ text. if text == "0" then some (pos 0) else some (pos 1);
  float_uint64 = λ bits. none;
}

pub platform_with-IsJson :
    (events : List (Bytes × Event)) (statements : List (Bytes × Statement))
    (correlations : List (Bytes × Correlation)) (policies : List (Bytes × Policy))
    → IsJson (platform_with events statements correlations policies)
unfolding platform_with
platform_with-IsJson events statements correlations policies = record {
  decode-marshal = λ v raw h.
      let e : write (generic float_name v) [] ≡ raw = cc in
      subst (λ r. read_value r ≡ some (generic float_name v)) e
        (read_value-write (generic float_name v));
  decode_map-object = λ raw entries fs ahead h k.
      let e : as_map (read_value raw) ≡ some (entries, eof) = ap as_map h in cc;
}

pub platform_with-IsLineJson :
    (events : List (Bytes × Event)) (statements : List (Bytes × Statement))
    (correlations : List (Bytes × Correlation)) (policies : List (Bytes × Policy))
    → IsLineJson (platform_with events statements correlations policies)
unfolding platform_with
platform_with-IsLineJson events statements correlations policies = record {
  marshal-IsPlain = λ v raw h.
      let e : write (generic float_name v) [] ≡ raw = cc in
      subst IsPlain e (write-generic-IsPlain float_name v);
  trim_space-marshal = λ v raw h. refl;
  marshal-generic = λ v w raw same h. (write (generic float_name w) [], refl);
}

abbrev pub source : SourceIdentity
source = record { repository = "github.com/a/b"; revision = "c0ffee" }

abbrev pub build : BuildScope
build = record {
  build_id = "build-1";
  run_id = "run-1";
  source = source;
  boot_id = "boot-1";
  cgroup_id = 7;
  cgroup_path_hash = "p1";
}

abbrev pub sensor : Sensor
sensor = record { name = "rpf"; version = "0.1"; config_digest = "d1" }

abbrev pub compiler : Process
compiler = record {
  process_key = "k1";
  parent_key = "k0";
  pid = 11;
  tgid = 11;
  ppid = 10;
  start_time_ns = 5;
  pid_namespace = 1;
  mount_namespace = 2;
  uid = 0;
  gid = 0;
  executable = record { path = "/bin/cc"; identity = ""; identity_kind = "path_only" };
}

-- What the sensor observed, before the chain completes it.
abbrev pub observation : ℕ → String → Option Process → Option Fields → Event
observation time operation process resource = record {
  schema_version = "";
  event_id = "";
  sequence = 0;
  observed_at = "2025-01-01T00:00:00Z";
  monotonic_ns = time;
  build = zero_scope;
  process = process;
  operation = operation;
  resource = resource;
  outcome = record { status = "success"; errno = pos 0 };
  sensor = zero_sensor;
  integrity = zero_integrity;
}

abbrev pub artifact_bytes : Bytes
artifact_bytes = 1 ∷ 2 ∷ 3 ∷ []

abbrev pub started : Event
started = record (observation 10 "sensor_started" none none) {
  schema_version = "0.2";
  event_id = "urn:rpf:event:4193000240";
  sequence = 1;
  build = build;
  sensor = sensor;
  integrity = record { previous_event_hash = zero_hash; event_hash = "sha256:371925061" };
}

-- The counters that a sensor reports at its end.
abbrev pub no_loss : Fields
no_loss = fields (
    ("kernel_reserve", number "0")
    ∷ ("kernel_correlation", number "0")
    ∷ ("decode", number "0")
    ∷ ("queue", number "0")
    ∷ ("persistence", number "0")
    ∷ ("counter_read_error", bool false)
    ∷ [])

abbrev pub finished : Event
finished = record (observation 20 "sensor_finalized" none (some no_loss)) {
  schema_version = "0.2";
  event_id = "urn:rpf:event:3811240321";
  sequence = 2;
  build = build;
  sensor = sensor;
  integrity = record { previous_event_hash = "sha256:371925061"; event_hash = "sha256:3579879728" };
}

abbrev pub text_of_event : Event → Bytes
text_of_event e = write (generic float_name (event_value e)) []

-- A platform whose decoder knows the two events.
abbrev pub chain_platform : Platform
chain_platform =
    platform_with ((text_of_event started, started) ∷ (text_of_event finished, finished) ∷ []) [] []
      []

abbrev pub new_chain : EventChain
new_chain = record { build = build; sensor = sensor; sequence = 0; previous = zero_hash }

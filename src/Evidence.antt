-- ===== src/Evidence.antt =====
-- internal/rpf/evidence.go: the events of a stream, one by one and as a hash chain.
pub mod Validation
pub mod Linkage
pub mod Body
pub mod Tamper
use runtime_provenance_firew.Base.{
  ℕ, ◌+◌, String, ◌<>◌, not, ◌||◌, ◌&&◌, Bool, true, false, Option, none, some, List, [], ◌∷◌, ltb,
  ◌==◌, ◌!=◌, nat_eq, string_eq, contains, Result, ok, ◌>>=◌, ◌>>◌, fail_if, require, event_schema,
  event_identity, kernel_scope, source_identity, event_time, event_operation, event_sensor,
  exec_process, process_identity, integrity_missing, wrong_sequence, crosses_build, changes_sensor,
  reverses_time, previous_mismatch, hash_mismatch, last,
}
use runtime_provenance_firew.Json.{Fields, object, lookup, replace, delete, as_object}
use runtime_provenance_firew.Model.{
  Process, Event, BuildScope, Sensor, event_schema_version, zero_hash, build_eq, sensor_eq,
}
use runtime_provenance_firew.Model.Encoding.{event_value}
use runtime_provenance_firew.Platform.{Platform, Bytes}
use runtime_provenance_firew.Parse.{canonical, decode_strict, digest, max_event_bytes}

abbrev pub allowed_operations : List String
allowed_operations =
    "sensor_started" ∷ "process_exec" ∷ "process_exit" ∷ "file_open_sensitive" ∷ "file_open_output"
    ∷ "file_rename_output" ∷ "network_connect" ∷ "privilege_change" ∷ "artifact_finalized"
    ∷ "sensor_finalized" ∷ []

-- `_, ok := allowedOperations[operation]`
unfoldable pub is_allowed : String → Bool
is_allowed = contains allowed_operations

-- The events of a stream that is not empty.
pub record Events : Type 0 where
  pub first : Event
  pub rest : List Event

abbrev pub all : Events → List Event
all events = events.first ∷ events.rest

-- `events[len(events)-1]`
abbrev pub final : Events → Event
final events = last events.first events.rest

abbrev pub is_nil : Option Process → Bool
is_nil none = true
is_nil (some process) = false

-- The test of the last `if` of `validateEvent`.
unfoldable pub lacks_identity : Option Process → Bool
lacks_identity none = false
lacks_identity (some p) =
    p.process_key == ""
    || p.tgid == 0
    || p.start_time_ns == 0
    || p.pid_namespace == 0
    || p.mount_namespace == 0
    || p.executable.path == ""
    || p.executable.identity_kind == ""
    || p.executable.identity_kind != "path_only" && p.executable.identity == ""

unfoldable pub validate_event : Event → Result (Unit {0})
unfolding lacks_identity is_allowed
validate_event event = do
  fail_if (event.schema_version != event_schema_version) event_schema
  fail_if (event.event_id == "" || event.build.build_id == "" || event.build.run_id == "")
      event_identity
  fail_if
      (event.build.boot_id == ""
        || event.build.cgroup_id == 0
        || event.build.cgroup_path_hash == "")
      kernel_scope
  fail_if (event.build.source.repository == "" || event.build.source.revision == "") source_identity
  fail_if (event.sequence == 0 || event.monotonic_ns == 0) event_time
  fail_if (not (is_allowed event.operation)) event_operation
  fail_if
      (event.sensor.name == "" || event.sensor.version == "" || event.sensor.config_digest == "")
      event_sensor
  fail_if (event.operation == "process_exec" && is_nil event.process) exec_process
  fail_if (lacks_identity event.process) process_identity
  ok tt

-- `delete(integrity, "event_hash")`: the map is shared, so its owner changes with it.
unfoldable pub strip_hash : Fields → Result Fields
strip_hash body = do
  integrity ← require (as_object (lookup "integrity" body)) integrity_missing
  ok (replace "integrity" (object (delete "event_hash" integrity)) body)

module _ (platform : Platform) where
  -- `eventDigest`, in three steps: the map that the event's text decodes to, without the
  -- `event_hash` of its `integrity`; the canonical bytes of that; and their digest.
  unfoldable pub committed_body : Event → Result Fields
  unfolding strip_hash
  committed_body event = do
    raw ← canonical platform (event_value event)
    body ← decode_strict platform platform.decode_map raw max_event_bytes
    strip_hash body

  unfoldable pub committed_bytes : Event → Result Bytes
  unfolding committed_body
  committed_bytes event = do body ← committed_body event; canonical platform (object body)

  unfoldable pub event_digest : Event → Result String
  unfolding committed_bytes
  event_digest event = do
    canonical_body ← committed_bytes event
    ok ("sha256:" <> digest platform canonical_body)

  -- The loop of `verifyChain`, from the position `index`.
  unfoldable pub verify_from : BuildScope → Sensor → ℕ → String → ℕ → List Event → Result (Unit {0})
  verify_from scope sensor index previous monotonic [] = ok tt
  verify_from scope sensor index previous monotonic (event ∷ rest) = do
    fail_if (event.sequence != index + 1) (wrong_sequence event.sequence)
    fail_if
        (event.build.build_id != scope.build_id
          || event.build.run_id != scope.run_id
          || event.build != scope)
        (crosses_build event.sequence)
    fail_if (event.sensor != sensor) (changes_sensor event.sequence)
    fail_if (ltb event.monotonic_ns monotonic) (reverses_time event.sequence)
    fail_if (event.integrity.previous_event_hash != previous) (previous_mismatch event.sequence)
    actual ← event_digest event
    fail_if (event.integrity.event_hash != actual) (hash_mismatch event.sequence)
    verify_from scope sensor (index + 1) actual event.monotonic_ns rest

  unfoldable pub verify_chain : Events → Result (Unit {0})
  unfolding verify_from
  verify_chain events =
      verify_from events.first.build events.first.sensor 0 zero_hash 0 (all events)

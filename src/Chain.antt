-- ===== src/Chain.antt =====
-- internal/rpf/chain.go: the writer's side of the hash chain, and the keys of processes.
pub mod Append
pub mod Verified
pub mod Parsed
use runtime_provenance_firew.Base.{
  ℕ, ◌+◌, ◌-◌, ◌%◌, ◌^◌, String, ◌<>◌, ◌||◌, Bool, List, [], ◌∷◌, ◌++◌, ◌==◌, ◌!=◌, nat_eq,
  string_eq, if◌then◌else◌, Result, ok, err, ◌>>=◌, ◌>>◌, fail_if, scope_incomplete,
  sensor_incomplete, chain_owned,
}
use runtime_provenance_firew.Json.{decimal}
use runtime_provenance_firew.Model.{
  SourceIdentity, BuildScope, Sensor, Integrity, Event, build_eq, sensor_eq, integrity_eq,
  event_schema_version, zero_hash,
}
use runtime_provenance_firew.Model.Encoding.{event_value}
use runtime_provenance_firew.Platform.{Platform, Bytes}
use runtime_provenance_firew.Parse.{canonical, digest}
use runtime_provenance_firew.Evidence.{validate_event, event_digest}

pub record EventChain : Type 0 where
  pub build : BuildScope
  pub sensor : Sensor
  pub sequence : ℕ
  pub previous : String

unfoldable pub new_event_chain : BuildScope → Sensor → Result EventChain
new_event_chain build source = do
  fail_if
      (build.build_id == ""
        || build.run_id == ""
        || build.boot_id == ""
        || build.cgroup_id == 0
        || build.cgroup_path_hash == "")
      scope_incomplete
  fail_if (source.name == "" || source.version == "" || source.config_digest == "")
      sensor_incomplete
  ok (record { build = build; sensor = source; sequence = 0; previous = zero_hash })

-- `BuildScope{}`, `Sensor{}` and `Integrity{}`
abbrev pub zero_scope : BuildScope
zero_scope = record {
  build_id = "";
  run_id = "";
  source = record { repository = ""; revision = "" };
  boot_id = "";
  cgroup_id = 0;
  cgroup_path_hash = "";
}

abbrev pub zero_sensor : Sensor
zero_sensor = record { name = ""; version = ""; config_digest = "" }

abbrev pub zero_integrity : Integrity
zero_integrity = record { previous_event_hash = ""; event_hash = "" }

-- The test on the fields that the caller may not set.
unfoldable pub is_chain_owned : Event → Bool
is_chain_owned event =
    event.schema_version != ""
    || event.event_id != ""
    || event.sequence != 0
    || event.build != zero_scope
    || event.sensor != zero_sensor
    || event.integrity != zero_integrity

-- `sequence++` and `sequence--` on a uint64
abbrev pub increment : ℕ → ℕ
increment n = (n + 1) % 2 ^ 64

abbrev pub decrement : ℕ → ℕ
decrement n = (n + 2 ^ 64 - 1) % 2 ^ 64

module _ (platform : Platform) where
  -- the bytes that `event_id` is the digest of
  abbrev event_id_text : BuildScope → ℕ → String
  event_id_text build sequence =
      build.build_id <> ("\0" <> (build.run_id <> ("\0" <> decimal sequence)))

  -- The event as `Append` completes it, except for its `event_hash`.
  unfoldable pub stamp : EventChain → Event → Event
  stamp chain event = record event {
    schema_version = event_schema_version;
    event_id =
        "urn:rpf:event:"
        <> digest platform (platform.bytes_of (event_id_text chain.build chain.sequence));
    sequence = chain.sequence;
    build = chain.build;
    sensor = chain.sensor;
    integrity = record event.integrity { previous_event_hash = chain.previous };
  }

  -- What `Append` does once the sequence is incremented: the finished event with its line, or an
  -- error, on which the caller decrements the sequence.
  unfoldable pub finish : Event → Result (Event × Bytes)
  finish event = do
    hash ← event_digest platform event
    let finished = record event { integrity = record event.integrity { event_hash = hash } }
    validate_event finished
    raw ← canonical platform (event_value finished)
    ok (finished, raw ++ b'\n' ∷ [])

  unfoldable pub settle : EventChain → Result (Event × Bytes) → EventChain × Result (Event × Bytes)
  settle chain (err e) = (record chain { sequence = decrement chain.sequence }, err e)
  settle chain (ok (event, line)) =
      (record chain { previous = event.integrity.event_hash }, ok (event, line))

  -- `Append` returns the line; the model returns the event of the line too.
  unfoldable pub append : EventChain → Event → EventChain × Result (Event × Bytes)
  append chain event =
      if is_chain_owned event
      then (chain, err chain_owned)
      else let next = record chain { sequence = increment chain.sequence } in
        settle next (finish (stamp next event))

  -- `ProcessKey`
  unfoldable pub process_key : String → ℕ → ℕ → ℕ → String
  process_key boot_id pid_namespace tgid start_time_ns =
      if boot_id == "" || pid_namespace == 0 || tgid == 0 || start_time_ns == 0
      then ""
      else "sha256:"
        <> digest platform (
            platform.bytes_of (
              "boot="
              <> (boot_id
                  <> ("\npidns="
                      <> (decimal pid_namespace
                          <> ("\ntgid="
                              <> (decimal tgid
                                  <> ("\nstart=" <> (decimal start_time_ns <> "\n")))))))))

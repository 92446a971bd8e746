-- ===== src/Assemble.antt =====
-- `Assemble` of internal/rpf/verify.go: the evidence bundle of an artifact, an event stream, a
-- provenance statement and a policy.
pub mod Commitments
pub mod Determinism
use runtime_provenance_firew.Base.{
  ℕ, String, ◌<>◌, ◌||◌, Bool, true, false, Option, none, some, List, [], ◌∷◌, length, ◌==◌, ◌!=◌,
  ◌&&◌, string_eq, if◌then◌else◌, Result, ok, err, ◌>>=◌, ◌>>◌, fail_if, wrap, in_policy,
  in_provenance, provenance_predicate, build_mismatch, source_mismatch, subject_mismatch,
  artifact_differs, producer_missing, artifact_unobserved, not,
}
use runtime_provenance_firew.Json.{str, object, end, field, lookup_in, text_of, Fields}
use runtime_provenance_firew.Model.{
  SourceIdentity, Event, ExecutionGraph, Manifest, Subject, Statement, Correlation, source_eq,
  manifest_schema_version, statement_type, runtime_predicate, slsa_predicate, correlation_key,
}
use runtime_provenance_firew.Model.Encoding.{
  graph_value, manifest_value, correlation_value, node_value, slice_value,
}
use runtime_provenance_firew.Platform.{Platform, Bytes}
use runtime_provenance_firew.Parse.{canonical_digest, digest, to_map}
use runtime_provenance_firew.Documents.{elements, decode_statement, decode_policy}
use runtime_provenance_firew.Evidence.{Events, all, final, is_nil}
use runtime_provenance_firew.Stream.{parse_event_stream}
use runtime_provenance_firew.Graph.{Runtime, build_graph}
use runtime_provenance_firew.Loss.{loss_from_final_event, completeness}
use runtime_provenance_firew.Provenance.{provenance_identity}

pub record Inputs : Type 0 where
  pub artifact_bytes : Bytes
  pub artifact_name : String
  pub event_bytes : Bytes
  pub provenance_bytes : Bytes
  pub policy_bytes : Bytes

pub record Bundle : Type 0 where
  pub graph : ExecutionGraph
  pub manifest : Manifest
  pub runtime_trace : Statement

-- The first `artifact_finalized` event decides.
unfoldable pub verify_artifact_observation : List Event → String → Result (Unit {0})
verify_artifact_observation [] artifact_hash = err artifact_unobserved
verify_artifact_observation (event ∷ events) artifact_hash =
    if event.operation != "artifact_finalized"
    then verify_artifact_observation events artifact_hash
    else do
      fail_if (text_of (lookup_in event.resource "sha256") != artifact_hash) artifact_differs
      fail_if (is_nil event.process) producer_missing
      ok tt

-- `digest[key]` of a `map[string]string` that may be nil
unfoldable pub digest_at : String → List (String × String) → String
digest_at key [] = ""
digest_at key ((k, value) ∷ rest) = if k == key then value else digest_at key rest

unfoldable pub subject_matches : List Subject → String → String → Bool
unfolding digest_at
subject_matches [] name artifact_hash = false
subject_matches (subject ∷ subjects) name artifact_hash =
    if subject.name == name && digest_at "sha256" (elements subject.digest) == artifact_hash
    then true
    else subject_matches subjects name artifact_hash

-- `[]Subject{{Name: name, Digest: map[string]string{"sha256": digest}}}`
abbrev pub artifact_subject : String → String → Option (List Subject)
artifact_subject name artifact_hash =
    some (record { name = name; digest = some (("sha256", artifact_hash) ∷ []) } ∷ [])

module _ (platform : Platform) where
  unfoldable pub manifest_of : Inputs → Correlation → Events → String → Manifest
  manifest_of inputs identity events graph_hash = record {
    schema_version = manifest_schema_version;
    build_id = identity.build_id;
    run_identity = identity.run_identity;
    source = identity.source;
    event_stream = record {
      sha256 = digest platform inputs.event_bytes;
      first_sequence = events.first.sequence;
      last_sequence = (final events).sequence;
      event_count = length (all events);
    };
    loss = loss_from_final_event platform (final events);
    lifecycle = record {
      started = events.first.operation == "sensor_started";
      finalized = (final events).operation == "sensor_finalized";
    };
    execution_graph_sha256 = graph_hash;
    artifact = record {
      name = inputs.artifact_name;
      sha256 = digest platform inputs.artifact_bytes;
    };
    policy_sha256 = digest platform inputs.policy_bytes;
    sensor_config_sha256 = events.first.sensor.config_digest;
  }

  unfoldable pub correlation_of : Inputs → Correlation → Manifest → String → String → Correlation
  correlation_of inputs identity manifest manifest_hash graph_hash = record {
    build_id = identity.build_id;
    builder_id = "";
    run_identity = identity.run_identity;
    source = identity.source;
    evidence_manifest_hash = manifest_hash;
    execution_graph_hash = graph_hash;
    slsa_provenance_hash = digest platform inputs.provenance_bytes;
    policy_hash = digest platform inputs.policy_bytes;
    completeness = completeness manifest;
  }

  -- The runtime trace, its predicate's entries in key order.
  unfoldable pub trace_of : Inputs → Correlation → Events → ExecutionGraph → Fields → Statement
  trace_of inputs identity events graph correlation_map = record {
    type = statement_type;
    subject = artifact_subject inputs.artifact_name (digest platform inputs.artifact_bytes);
    predicate_type = runtime_predicate;
    predicate = some (
        field correlation_key (object correlation_map) (
          field "monitor"
            (object (
              field "type"
                (str "https://github.com/adilalperenciftci/runtime-provenance-firewall/sensor/v0.1")
                end))
            (field "monitorLog" (object (field "process" (slice_value node_value graph.nodes) end))
              (field "monitoredProcess"
                (object (
                  field "event" (str identity.run_identity.run_id) (
                    field "hostID" (str ("urn:uuid:" <> events.first.build.boot_id))
                      (field "type" (str "https://slsa.dev/build/v1") end))))
                end))));
  }

  -- The tests of `Assemble` on parsed documents, up to the graph.
  unfoldable pub check_binding : Inputs → Events → Statement → Correlation → Result (Unit {0})
  unfolding subject_matches verify_artifact_observation
  check_binding inputs events provenance identity = do
    fail_if
        (identity.build_id != events.first.build.build_id
          || identity.run_identity.run_id != events.first.build.run_id)
        build_mismatch
    fail_if (identity.source != events.first.build.source) source_mismatch
    fail_if
        (not (
          subject_matches (elements provenance.subject) inputs.artifact_name
            (digest platform inputs.artifact_bytes)))
        subject_mismatch
    verify_artifact_observation (all events) (digest platform inputs.artifact_bytes)

module _ (platform : Platform) (runtime : Runtime) where
  -- The part of `Assemble` from `BuildGraph` on.
  unfoldable pub compose : Inputs → Events → Correlation → Result Bundle
  unfolding manifest_of correlation_of trace_of
  compose inputs events identity = do
    graph ← build_graph platform runtime (all events)
    graph_hash ← canonical_digest platform (graph_value graph)
    let manifest = manifest_of platform inputs identity events graph_hash
    manifest_hash ← canonical_digest platform (manifest_value manifest)
    correlation_map ← to_map platform (
        correlation_value
          (correlation_of platform inputs identity manifest manifest_hash graph_hash))
    ok (record {
      graph = graph;
      manifest = manifest;
      runtime_trace = trace_of platform inputs identity events graph correlation_map;
    })

  unfoldable pub assemble : Inputs → Result Bundle
  unfolding check_binding compose
  assemble inputs = do
    events ← parse_event_stream platform inputs.event_bytes
    wrap in_policy (decode_policy platform inputs.policy_bytes)
    provenance ← wrap in_provenance (decode_statement platform inputs.provenance_bytes)
    fail_if (provenance.predicate_type != slsa_predicate) provenance_predicate
    identity ← provenance_identity platform provenance
    check_binding platform inputs events provenance identity
    compose inputs events identity

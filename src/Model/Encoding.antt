-- ===== src/Model/Encoding.antt =====
-- The JSON form of each struct of internal/rpf/model.go, by its tags: the key of each field in the
-- declared order, and what `omitempty` leaves out.
use runtime_provenance_firew.Base.{
  String, Option, none, some, List, [], ◌∷◌, map, ◌==◌, string_eq, if◌then◌else◌, nat_eq,
}
use runtime_provenance_firew.Json.{
  Value, null, bool, uint, int, str, array, object, structure, Fields, end, field, fields, items,
  map_value,
}
use runtime_provenance_firew.Model.{
  SourceIdentity, BuildScope, Executable, Process, Outcome, Sensor, Integrity, Event, GraphNode,
  GraphEdge, ExecutionGraph, Loss, Lifecycle, RunIdentity, StreamCommitment, Artifact, Manifest,
  Subject, Statement, Correlation,
}

-- A nil slice is written as null.
abbrev pub slice_value : {A : Type 0} → (A → Value) → Option (List A) → Value
slice_value f none = null
slice_value f (some xs) = array (items (map f xs))

-- `json:"…,omitempty"` of a map
abbrev omit_empty_map : String → Option Fields → List (String × Value)
omit_empty_map key none = []
omit_empty_map key (some end) = []
omit_empty_map key (some (field k v fs)) = (key, object (field k v fs)) ∷ []

-- `json:"…,omitempty"` of a string
abbrev omit_empty : String → String → List (String × Value) → List (String × Value)
omit_empty key text rest = if text == "" then rest else (key, str text) ∷ rest

abbrev pub source_value : SourceIdentity → Value
source_value s =
    structure (fields (("repository", str s.repository) ∷ ("revision", str s.revision) ∷ []))

abbrev pub build_value : BuildScope → Value
build_value b = structure (
    fields (
      ("build_id", str b.build_id)
      ∷ ("run_id", str b.run_id)
      ∷ ("source", source_value b.source)
      ∷ ("boot_id", str b.boot_id)
      ∷ ("cgroup_id", uint b.cgroup_id)
      ∷ ("cgroup_path_hash", str b.cgroup_path_hash)
      ∷ []))

abbrev pub executable_value : Executable → Value
executable_value x = structure (
    fields (
      ("path", str x.path)
      ∷ ("identity", str x.identity)
      ∷ ("identity_kind", str x.identity_kind)
      ∷ []))

unfoldable pub process_value : Option Process → Value
process_value none = null
process_value (some p) = structure (
    fields (
      ("process_key", str p.process_key)
      ∷ omit_empty "parent_key" p.parent_key (
          ("pid", uint p.pid)
          ∷ ("tgid", uint p.tgid)
          ∷ ("ppid", uint p.ppid)
          ∷ ("start_time_ns", uint p.start_time_ns)
          ∷ ("pid_namespace", uint p.pid_namespace)
          ∷ ("mount_namespace", uint p.mount_namespace)
          ∷ ("uid", uint p.uid)
          ∷ ("gid", uint p.gid)
          ∷ ("executable", executable_value p.executable)
          ∷ [])))

abbrev pub outcome_value : Outcome → Value
outcome_value o = structure (fields (("status", str o.status) ∷ ("errno", int o.errno) ∷ []))

abbrev pub sensor_value : Sensor → Value
sensor_value s = structure (
    fields (
      ("name", str s.name)
      ∷ ("version", str s.version)
      ∷ ("config_digest", str s.config_digest)
      ∷ []))

abbrev pub integrity_value : Integrity → Value
integrity_value i = structure (
    fields
      (("previous_event_hash", str i.previous_event_hash) ∷ ("event_hash", str i.event_hash) ∷ []))

unfoldable pub event_value : Event → Value
event_value e = structure (
    fields (
      ("schema_version", str e.schema_version)
      ∷ ("event_id", str e.event_id)
      ∷ ("sequence", uint e.sequence)
      ∷ ("observed_at", str e.observed_at)
      ∷ ("monotonic_ns", uint e.monotonic_ns)
      ∷ ("build", build_value e.build)
      ∷ ("process", process_value e.process)
      ∷ ("operation", str e.operation)
      ∷ ("resource", map_value e.resource)
      ∷ ("outcome", outcome_value e.outcome)
      ∷ ("sensor", sensor_value e.sensor)
      ∷ ("integrity", integrity_value e.integrity)
      ∷ []))

unfoldable pub node_value : GraphNode → Value
node_value n = structure (
    fields (
      ("process_key", str n.process_key)
      ∷ omit_empty "parent_key" n.parent_key (
          ("parent_observation", str n.parent_observation)
          ∷ ("executable", str n.executable)
          ∷ [])))

abbrev pub edge_value : GraphEdge → Value
edge_value e = structure (
    fields (
      ("sequence", uint e.sequence)
      ∷ ("from", str e.from)
      ∷ ("to", str e.to)
      ∷ ("kind", str e.kind)
      ∷ omit_empty_map "evidence" e.evidence))

unfoldable pub graph_value : ExecutionGraph → Value
unfolding node_value
graph_value g = structure (
    fields (
      ("schema_version", str g.schema_version)
      ∷ ("build_id", str g.build_id)
      ∷ ("nodes", slice_value node_value g.nodes)
      ∷ ("edges", slice_value edge_value g.edges)
      ∷ []))

abbrev pub loss_value : Loss → Value
loss_value l = structure (
    fields (
      ("kernel_reserve", uint l.kernel_reserve)
      ∷ ("kernel_correlation", uint l.kernel_correlation)
      ∷ ("decode", uint l.decode)
      ∷ ("queue", uint l.queue)
      ∷ ("persistence", uint l.persistence)
      ∷ ("counter_read_error", bool l.counter_read_error)
      ∷ []))

abbrev pub lifecycle_value : Lifecycle → Value
lifecycle_value l =
    structure (fields (("started", bool l.started) ∷ ("finalized", bool l.finalized) ∷ []))

abbrev pub run_value : RunIdentity → Value
run_value r = structure (
    fields
      (("provider", str r.provider) ∷ ("run_id", str r.run_id) ∷ ("attempt", uint r.attempt) ∷ []))

abbrev pub stream_value : StreamCommitment → Value
stream_value c = structure (
    fields (
      ("sha256", str c.sha256)
      ∷ ("first_sequence", uint c.first_sequence)
      ∷ ("last_sequence", uint c.last_sequence)
      ∷ ("event_count", uint c.event_count)
      ∷ []))

abbrev pub artifact_value : Artifact → Value
artifact_value a = structure (fields (("name", str a.name) ∷ ("sha256", str a.sha256) ∷ []))

unfoldable pub manifest_value : Manifest → Value
manifest_value m = structure (
    fields (
      ("schema_version", str m.schema_version)
      ∷ ("build_id", str m.build_id)
      ∷ ("run_identity", run_value m.run_identity)
      ∷ ("source", source_value m.source)
      ∷ ("event_stream", stream_value m.event_stream)
      ∷ ("loss", loss_value m.loss)
      ∷ ("lifecycle", lifecycle_value m.lifecycle)
      ∷ ("execution_graph_sha256", str m.execution_graph_sha256)
      ∷ ("artifact", artifact_value m.artifact)
      ∷ ("policy_sha256", str m.policy_sha256)
      ∷ ("sensor_config_sha256", str m.sensor_config_sha256)
      ∷ []))

abbrev pub digest_fields : List (String × String) → Fields
digest_fields [] = end
digest_fields ((k, d) ∷ rest) = field k (str d) (digest_fields rest)

abbrev pub digest_value : Option (List (String × String)) → Value
digest_value none = null
digest_value (some entries) = object (digest_fields entries)

abbrev pub subject_value : Subject → Value
subject_value s = structure (fields (("name", str s.name) ∷ ("digest", digest_value s.digest) ∷ []))

unfoldable pub statement_value : Statement → Value
statement_value s = structure (
    fields (
      ("_type", str s.type)
      ∷ ("subject", slice_value subject_value s.subject)
      ∷ ("predicateType", str s.predicate_type)
      ∷ ("predicate", map_value s.predicate)
      ∷ []))

unfoldable pub correlation_value : Correlation → Value
correlation_value c = structure (
    fields (
      ("buildId", str c.build_id)
      ∷ ("builderId", str c.builder_id)
      ∷ ("runIdentity", run_value c.run_identity)
      ∷ ("sourceRevision", source_value c.source)
      ∷ ("evidenceManifestDigest", str c.evidence_manifest_hash)
      ∷ ("executionGraphDigest", str c.execution_graph_hash)
      ∷ ("slsaProvenanceDigest", str c.slsa_provenance_hash)
      ∷ ("policyDigest", str c.policy_hash)
      ∷ ("completeness", str c.completeness)
      ∷ []))

-- ===== src/Model.antt =====
-- internal/rpf/model.go: the data of the program, one record for each struct.
--   uint32, uint64 and uint fields are numbers, int32 is ℤ; a pointer is an Option, and so is a
--   map or slice where JSON tells nil from empty; `map[string]string` is the list of its entries in
--   key order.
pub mod Encoding
use runtime_provenance_firew.Base.{ℕ, String, Bool, Option, List, Eq, string_dec}
use native.Mathlib.Decide.{ℕ_discrete}
use runtime_provenance_firew.Json.{ℤ, Fields}

abbrev pub event_schema_version : String
event_schema_version = "0.2"

abbrev pub manifest_schema_version : String
manifest_schema_version = "0.1"

abbrev pub statement_type : String
statement_type = "https://in-toto.io/Statement/v1"

abbrev pub runtime_predicate : String
runtime_predicate = "https://in-toto.io/attestation/runtime-trace/v0.1"

abbrev pub slsa_predicate : String
slsa_predicate = "https://slsa.dev/provenance/v1"

abbrev pub correlation_key : String
correlation_key =
    "https://github.com/adilalperenciftci/runtime-provenance-firewall/runtime-provenance/v0.1"

abbrev pub build_identity_key : String
build_identity_key =
    "https://github.com/adilalperenciftci/runtime-provenance-firewall/build-identity/v0.1"

abbrev pub zero_hash : String
zero_hash = "sha256:0000000000000000000000000000000000000000000000000000000000000000"

pub record SourceIdentity : Type 0 where
  pub repository : String
  pub revision : String

pub record BuildScope : Type 0 where
  pub build_id : String
  pub run_id : String
  pub source : SourceIdentity
  pub boot_id : String
  pub cgroup_id : ℕ
  pub cgroup_path_hash : String

pub record Executable : Type 0 where
  pub path : String
  pub identity : String
  pub identity_kind : String

pub record Process : Type 0 where
  pub process_key : String
  pub parent_key : String
  pub pid : ℕ
  pub tgid : ℕ
  pub ppid : ℕ
  pub start_time_ns : ℕ
  pub pid_namespace : ℕ
  pub mount_namespace : ℕ
  pub uid : ℕ
  pub gid : ℕ
  pub executable : Executable

pub record Outcome : Type 0 where
  pub status : String
  pub errno : ℤ

pub record Sensor : Type 0 where
  pub name : String
  pub version : String
  pub config_digest : String

pub record Integrity : Type 0 where
  pub previous_event_hash : String
  pub event_hash : String

pub record Event : Type 0 where
  pub schema_version : String
  pub event_id : String
  pub sequence : ℕ
  pub observed_at : String
  pub monotonic_ns : ℕ
  pub build : BuildScope
  pub process : Option Process
  pub operation : String
  pub resource : Option Fields
  pub outcome : Outcome
  pub sensor : Sensor
  pub integrity : Integrity

pub record GraphNode : Type 0 where
  pub process_key : String
  pub parent_key : String
  pub parent_observation : String
  pub executable : String

pub record GraphEdge : Type 0 where
  pub sequence : ℕ
  pub from : String
  pub to : String
  pub kind : String
  pub evidence : Option Fields

pub record ExecutionGraph : Type 0 where
  pub schema_version : String
  pub build_id : String
  pub nodes : Option (List GraphNode)
  pub edges : Option (List GraphEdge)

pub record Loss : Type 0 where
  pub kernel_reserve : ℕ
  pub kernel_correlation : ℕ
  pub decode : ℕ
  pub queue : ℕ
  pub persistence : ℕ
  pub counter_read_error : Bool

pub record Lifecycle : Type 0 where
  pub started : Bool
  pub finalized : Bool

pub record RunIdentity : Type 0 where
  pub provider : String
  pub run_id : String
  pub attempt : ℕ

pub record StreamCommitment : Type 0 where
  pub sha256 : String
  pub first_sequence : ℕ
  pub last_sequence : ℕ
  pub event_count : ℕ

pub record Artifact : Type 0 where
  pub name : String
  pub sha256 : String

pub record Manifest : Type 0 where
  pub schema_version : String
  pub build_id : String
  pub run_identity : RunIdentity
  pub source : SourceIdentity
  pub event_stream : StreamCommitment
  pub loss : Loss
  pub lifecycle : Lifecycle
  pub execution_graph_sha256 : String
  pub artifact : Artifact
  pub policy_sha256 : String
  pub sensor_config_sha256 : String

pub record Subject : Type 0 where
  pub name : String
  pub digest : Option (List (String × String))

pub record Statement : Type 0 where
  pub type : String
  pub subject : Option (List Subject)
  pub predicate_type : String
  pub predicate : Option Fields

pub record Correlation : Type 0 where
  pub build_id : String
  pub builder_id : String
  pub run_identity : RunIdentity
  pub source : SourceIdentity
  pub evidence_manifest_hash : String
  pub execution_graph_hash : String
  pub slsa_provenance_hash : String
  pub policy_hash : String
  pub completeness : String

pub record Policy : Type 0 where
  pub schema_version : String
  pub allowed_builder_ids : List String
  pub allowed_artifact_producers : List String
  pub allowed_repositories : List String
  pub allowed_executables : List String
  pub allowed_network_destinations : List String
  pub forbidden_sensitive_categories : List String
  pub expected_provider : String
  pub incomplete_decision : String

pub record Reason : Type 0 where
  pub code : String
  pub effect : String
  pub message : String
  pub sequence : ℕ

pub record Decision : Type 0 where
  pub decision : String
  pub completeness : String
  pub reasons : List Reason

-- The structs that the program compares with `==`. They have no pointer in them.
SourceIdentity-discrete : Discrete SourceIdentity
SourceIdentity-discrete = hlevel string_dec

BuildScope-discrete : Discrete BuildScope
BuildScope-discrete = hlevel (string_dec, ℕ_discrete)

Sensor-discrete : Discrete Sensor
Sensor-discrete = hlevel string_dec

Integrity-discrete : Discrete Integrity
Integrity-discrete = hlevel string_dec

RunIdentity-discrete : Discrete RunIdentity
RunIdentity-discrete = hlevel (string_dec, ℕ_discrete)

GraphNode-discrete : Discrete GraphNode
GraphNode-discrete = hlevel string_dec

instance unfoldable pub source_eq : Eq SourceIdentity
unfolding SourceIdentity-discrete string_dec
source_eq = record { dec = SourceIdentity-discrete }

instance unfoldable pub build_eq : Eq BuildScope
unfolding BuildScope-discrete string_dec ℕ_discrete
build_eq = record { dec = BuildScope-discrete }

instance unfoldable pub sensor_eq : Eq Sensor
unfolding Sensor-discrete string_dec
sensor_eq = record { dec = Sensor-discrete }

instance unfoldable pub integrity_eq : Eq Integrity
unfolding Integrity-discrete string_dec
integrity_eq = record { dec = Integrity-discrete }

instance unfoldable pub run_eq : Eq RunIdentity
unfolding RunIdentity-discrete string_dec ℕ_discrete
run_eq = record { dec = RunIdentity-discrete }

instance unfoldable pub node_eq : Eq GraphNode
unfolding GraphNode-discrete string_dec
node_eq = record { dec = GraphNode-discrete }

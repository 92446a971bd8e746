-- ===== src/Evidence/Validation.antt =====
-- What `validateEvent` of internal/rpf/evidence.go accepts.
use runtime_provenance_firew.Base.{
  ◌<◌, ◌≡◌, ◌≢◌, ◌⊎◌, ◌↔◌, true, false, Option, none, some, refl, arith, not, ◌||◌, ◌&&◌, ◌==◌,
  ◌!=◌, string_eq, nat_eq, ok, fail_if-eq-ok, event_schema, event_identity, kernel_scope,
  source_identity, event_time, event_operation, event_sensor, exec_process, process_identity,
}
use runtime_provenance_firew.Model.{Process, Event, BuildScope, Sensor, event_schema_version}
use runtime_provenance_firew.Evidence.{is_allowed, is_nil, lacks_identity, validate_event}

pub record IsIdentified (p : Process) : Type 0 where
  pub process_key : p.process_key ≢ ""
  pub tgid : 0 < p.tgid
  pub start_time : 0 < p.start_time_ns
  pub pid_namespace : 0 < p.pid_namespace
  pub mount_namespace : 0 < p.mount_namespace
  pub path : p.executable.path ≢ ""
  pub identity_kind : p.executable.identity_kind ≢ ""
  pub identity : (p.executable.identity_kind ≡ "path_only") ⊎ (p.executable.identity ≢ "")

lacks_identity_iff : (p : Process) → (lacks_identity (some p) ≡ false) ↔ IsIdentified p
unfolding lacks_identity
lacks_identity_iff p = (λ h. ground arith, λ h. ground arith)

abbrev pub IsIdentifiedIfAny : Option Process → Type 0
IsIdentifiedIfAny none = Unit
IsIdentifiedIfAny (some p) = IsIdentified p

pub record IsScope (b : BuildScope) : Type 0 where
  pub build_id : b.build_id ≢ ""
  pub run_id : b.run_id ≢ ""
  pub boot_id : b.boot_id ≢ ""
  pub cgroup_id : 0 < b.cgroup_id
  pub cgroup_path_hash : b.cgroup_path_hash ≢ ""
  pub repository : b.source.repository ≢ ""
  pub revision : b.source.revision ≢ ""

pub record IsSensor (s : Sensor) : Type 0 where
  pub name : s.name ≢ ""
  pub version : s.version ≢ ""
  pub config_digest : s.config_digest ≢ ""

-- An event that a stream may hold, by itself.
pub record IsWellFormed (e : Event) : Type 0 where
  pub schema_version : e.schema_version ≡ event_schema_version
  pub event_id : e.event_id ≢ ""
  pub scope : IsScope e.build
  pub sensor : IsSensor e.sensor
  pub sequence : 0 < e.sequence
  pub monotonic_ns : 0 < e.monotonic_ns
  pub operation : is_allowed e.operation ≡ true
  pub exec_process : e.operation ≡ "process_exec" → e.process ≢ none
  pub process : IsIdentifiedIfAny e.process

lacks_identity-none : lacks_identity none ≡ false
unfolding lacks_identity
lacks_identity-none = refl

lacks_identity_if_any : (p : Option Process) → (lacks_identity p ≡ false) ↔ IsIdentifiedIfAny p
lacks_identity_if_any none = (λ h. tt, λ h. lacks_identity-none)
lacks_identity_if_any (some p) = lacks_identity_iff p

validate_event-guards :
    (e : Event)
    → validate_event e ≡ ok tt
    → ((e.schema_version != event_schema_version) ≡ false)
      × ((e.event_id == "" || e.build.build_id == "" || e.build.run_id == "") ≡ false)
      × ((e.build.boot_id == "" || e.build.cgroup_id == 0 || e.build.cgroup_path_hash == "")
          ≡ false)
      × ((e.build.source.repository == "" || e.build.source.revision == "") ≡ false)
      × ((e.sequence == 0 || e.monotonic_ns == 0) ≡ false)
      × (not (is_allowed e.operation) ≡ false)
      × ((e.sensor.name == "" || e.sensor.version == "" || e.sensor.config_digest == "") ≡ false)
      × ((e.operation == "process_exec" && is_nil e.process) ≡ false)
      × (lacks_identity e.process ≡ false)
unfolding validate_event
validate_event-guards e h =
    let (schema, h1) = fail_if-eq-ok _ event_schema _ h in
    let (identity, h2) = fail_if-eq-ok _ event_identity _ h1 in
    let (kernel, h3) = fail_if-eq-ok _ kernel_scope _ h2 in
    let (source, h4) = fail_if-eq-ok _ source_identity _ h3 in
    let (time, h5) = fail_if-eq-ok _ event_time _ h4 in
    let (operation, h6) = fail_if-eq-ok _ event_operation _ h5 in
    let (sensor, h7) = fail_if-eq-ok _ event_sensor _ h6 in
    let (exec, h8) = fail_if-eq-ok _ exec_process _ h7 in
    let (process, h9) = fail_if-eq-ok _ process_identity _ h8 in
    (schema, identity, kernel, source, time, operation, sensor, exec, process)

-- `validateEvent` accepts exactly the well-formed events.
pub validate_event_iff : (e : Event) → (validate_event e ≡ ok tt) ↔ IsWellFormed e
validate_event_iff e = (
  λ h.
      let guards = validate_event-guards e h in
      record {
        schema_version = ground arith;
        event_id = ground arith;
        scope = ground arith;
        sensor = ground arith;
        sequence = ground arith;
        monotonic_ns = ground arith;
        operation = ground arith;
        exec_process = ground arith;
        process = (lacks_identity_if_any e.process).0 guards.8;
      },
  λ h. unfold validate_event in ground (arith, (lacks_identity_if_any e.process).1 h.process),
)

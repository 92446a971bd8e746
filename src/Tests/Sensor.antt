-- ===== src/Tests/Sensor.antt =====
-- A sample of a kernel, a host, and a run of the sensor command on them. The platform here answers
-- every call alike, which a run of `main` does not notice.
use native.Mathlib.Decide.{ℕ_discrete}
use runtime_provenance_firew.Base.{
  String, ◌≡◌, refl, some, true, List, [], ◌∷◌, string_eq, nat_eq, string_dec, Result, ok, inl, inr,
}
use runtime_provenance_firew.Json.{null, object, field, end, decimal}
use runtime_provenance_firew.Model.{zero_hash, integrity_eq, build_eq, sensor_eq}
use runtime_provenance_firew.Platform.{Bytes, Platform, eof, next, scalar}
use runtime_provenance_firew.Parse.{
  canonical, decode_strict, validate_json_shape, walk_json, require_eof,
}
use runtime_provenance_firew.Evidence.{
  event_digest, committed_bytes, committed_body, strip_hash, validate_event, is_allowed,
  lacks_identity,
}
use runtime_provenance_firew.Json.{lookup, replace, delete}
use runtime_provenance_firew.Chain.{
  EventChain, append, settle, finish, stamp, is_chain_owned, new_event_chain, process_key,
}
use runtime_provenance_firew.Kernel.{KernelEvent}
use runtime_provenance_firew.Kernel.Resources.{
  Host, LossCounters, open_sensor, prepare, attach, attach_all, attach_connect, read_loss,
  read_counter, sum_counters,
}
use runtime_provenance_firew.Agent.{
  Tracking, process_from_kernel, process_at, put_process, handle, handle_exec, handle_open,
  handle_sensitive, handle_connect, write_event, write_if_any, watch,
}
use runtime_provenance_firew.Agent.Settings.{
  build_of, sensor_of, target_of, Flags, Machine, is_absolute, boottime_ns, check_flags,
  digest_sensor_configuration,
}
use runtime_provenance_firew.Agent.Command.{start_tracking, begin, report, run_sensor}
use runtime_provenance_firew.Agent.Watched.{AreKinds}
use runtime_provenance_firew.Tests.Sample.{chain_platform}

abbrev pub plain_platform : Platform
plain_platform = record chain_platform {
  sha256_hex = λ raw. "d";
  bytes_of = λ s. [];
  marshal = λ v. some (1 ∷ []);
  tokens = λ raw. next scalar eof;
  decode_any = λ raw. some null;
  decode_map = λ raw. some (field "integrity" (object end) end, eof);
}

abbrev pub executed : KernelEvent
executed = record {
  monotonic_ns = 20;
  cgroup_id = 7;
  start_time_ns = 5;
  parent_start_time_ns = 4;
  pid = 11;
  tgid = 11;
  ppid = 10;
  uid = 0;
  gid = 0;
  pid_namespace = 1;
  mount_namespace = 2;
  parent_pid_namespace = 1;
  kind = 1;
  flags = 0;
  destination_ipv4 = 0;
  destination_port = 0;
  protocol = 0;
  command = "cc";
  filename = "/bin/cc";
}

-- The compiler opens the artifact, and a process that is not tracked connects.
abbrev pub opened : KernelEvent
opened = record executed { monotonic_ns = 30; kind = 2; flags = 577; filename = "/a.out" }

abbrev pub connected : KernelEvent
connected = record executed {
  monotonic_ns = 40;
  kind = 4;
  pid_namespace = 0;
  destination_port = 443;
}

abbrev pub readings : List (String × Result KernelEvent)
readings = ("t2", ok executed) ∷ ("t3", ok opened) ∷ ("t4", ok connected) ∷ []

pub readings-AreKinds : AreKinds readings
readings-AreKinds = (inl refl, (inr (inl refl), (inr (inr (inr refl)), tt)))

abbrev pub host : Host
host = record {
  stat = λ path. some (some 7);
  path_bytes = λ path. 0;
  has_object = λ path. true;
  has_variable = λ name. true;
  accepts_variable = λ name. true;
  loads = true;
  has_program = λ name. true;
  has_map = λ name. true;
  attaches = λ group name. true;
  attaches_cgroup = λ path. true;
  opens_reader = true;
  lookup_counter = λ name. some (1 ∷ 2 ∷ []);
}

abbrev pub flags : Flags
flags = record {
  object_path = "o";
  cgroup_id = 7;
  cgroup_path = "/sys/fs/cgroup/b";
  build_id = "build-1";
  run_id = "run-1";
  repository = "r";
  revision = "v";
  boot_id = "boot-1";
  cgroup_path_hash = "sha256:d";
  output_path = "e";
  artifact_path = "/a.out";
  sensitive_path = "";
  sensitive_category = "";
}

abbrev pub machine : Machine
machine = record {
  object = λ path. some [];
  artifact = λ path. some (3 ∷ []);
  creates = λ path. true;
  output = record { writes = λ line. true; syncs = λ line. true };
  host = host;
  started_at = "t1";
  artifact_at = "t5";
  finalized_at = "t6";
  started_boot = some (0, 10);
  artifact_boot = some (0, 50);
  finalized_boot = some (0, 60);
}

abbrev pub counters : LossCounters
counters = record {
  ring_buffer = 3;
  correlation = 3;
  path_read = 3;
  map_update = 3;
  cgroup_mismatch = 3;
}

pub counters_read : read_loss host ≡ ok counters
unfolding read_loss read_counter sum_counters
counters_read = refl

-- Two bytes for each of the five lines.
pub sensor_ran :
    run_sensor plain_platform flags machine readings
    ≡ ok (1 ∷ 10 ∷ 1 ∷ 10 ∷ 1 ∷ 10 ∷ 1 ∷ 10 ∷ 1 ∷ 10 ∷ [], true)
unfolding run_sensor begin report check_flags is_absolute boottime_ns digest_sensor_configuration
    new_event_chain open_sensor prepare attach attach_all attach_connect read_loss read_counter
    sum_counters watch write_event write_if_any handle handle_exec handle_open handle_sensitive
    handle_connect process_from_kernel process_at put_process process_key append settle finish stamp
    is_chain_owned validate_event is_allowed lacks_identity event_digest committed_bytes
    committed_body strip_hash canonical decode_strict validate_json_shape walk_json require_eof
    lookup replace delete integrity_eq build_eq sensor_eq string_eq nat_eq string_dec ℕ_discrete
    decimal
sensor_ran = refl

abbrev pub sensor_chain : EventChain
sensor_chain = record {
  build = build_of plain_platform flags;
  sensor = sensor_of plain_platform flags "d";
  sequence = 0;
  previous = zero_hash;
}

pub loop_ran :
    (r : EventChain × Tracking × Bytes) × (watch plain_platform
        (target_of plain_platform flags)
        machine.output
        sensor_chain
        start_tracking
        readings
      ≡ ok r)
unfolding watch write_event write_if_any handle handle_exec handle_open handle_sensitive
    handle_connect process_from_kernel process_at put_process process_key append settle finish stamp
    is_chain_owned validate_event is_allowed lacks_identity event_digest committed_bytes
    committed_body strip_hash canonical decode_strict validate_json_shape walk_json require_eof
    lookup replace delete integrity_eq build_eq sensor_eq string_eq nat_eq string_dec ℕ_discrete
    decimal
loop_ran = (_, refl)

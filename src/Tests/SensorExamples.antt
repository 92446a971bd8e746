-- ===== src/Tests/SensorExamples.antt =====
-- The theorems on the kernel sensor and the sensor command at concrete inputs.
use runtime_provenance_firew.Base.{
  ℕ, zero, suc, String, ◌≡◌, ◌↔◌, refl, some, true, false, [], ◌∷◌, ◌++◌, length, arith, ap, subst,
  Result, ok, inl,
}
use runtime_provenance_firew.Json.{pos}
use runtime_provenance_firew.Json.Decimal.{read, read-decimal}
use runtime_provenance_firew.Model.{Event}
use runtime_provenance_firew.Platform.{Platform, Bytes}
use runtime_provenance_firew.Stream.Written.{settled}
use runtime_provenance_firew.Loss.{loss_from_final_event}
use runtime_provenance_firew.Kernel.{KernelEvent, WireExecEvent, decode_event, number, drop_bytes}
use runtime_provenance_firew.Kernel.Layout.{IsWire, wire_bytes}
use runtime_provenance_firew.Kernel.Samples.{IsKind, decode_event-ok_iff, decode_event-wire_bytes}
use runtime_provenance_firew.Kernel.Resources.{
  Config, collection, sample, open_sensor, read_event, Poll,
}
use runtime_provenance_firew.Kernel.Resources.Released.{
  Restores, Counts, IsOutcome, deadlines, open_sensor-Restores, read_loss-Counts,
  read_event-IsOutcome,
}
use runtime_provenance_firew.Agent.Command.{loss_fields}
use runtime_provenance_firew.Agent.Settings.{target_of}
use runtime_provenance_firew.Agent.Command.{start_tracking}
use runtime_provenance_firew.Agent.Watched.{IsWatched, watch-IsWatched}
use runtime_provenance_firew.Tests.Sensor.{sensor_chain, loop_ran}
use runtime_provenance_firew.Agent.Recorded.{IsRecorded, run_sensor-IsRecorded}
use runtime_provenance_firew.Agent.Losses.{ReadsDecimals, loss_from_final_event-settled}
use runtime_provenance_firew.Tests.Sample.{chain_platform, finished}
use runtime_provenance_firew.Tests.Sensor.{
  plain_platform, readings, readings-AreKinds, host, flags, machine, counters, counters_read,
  sensor_ran,
}

-- The text of bytes, here of none.
abbrev no_text : Bytes → String
no_text raw = ""

abbrev zeros : ℕ → Bytes
zeros zero = []
zeros (suc n) = 0 ∷ zeros n

abbrev wire : WireExecEvent
wire = record {
  monotonic_ns = 20;
  cgroup_id = 7;
  start_time_ns = 5;
  parent_start_time_ns = 4;
  pid = 11;
  tgid = 11;
  ppid = 10;
  uid = 0;
  gid = 0;
  pid_namespace = 1;
  mount_namespace = 2;
  parent_pid_namespace = 1;
  kind = 1;
  flags = 0;
  destination_ipv4 = 0;
  destination_port = 0;
  protocol = 0;
  command = b'c' ∷ zeros 15;
  filename = b'/' ∷ b'c' ∷ zeros 254;
  padding = zeros 4;
}

wire-IsWire : IsWire wire
wire-IsWire = record {
  monotonic_ns = omega arith;
  cgroup_id = omega arith;
  start_time_ns = omega arith;
  parent_start_time_ns = omega arith;
  pid = omega arith;
  tgid = omega arith;
  ppid = omega arith;
  uid = omega arith;
  gid = omega arith;
  pid_namespace = omega arith;
  mount_namespace = omega arith;
  parent_pid_namespace = omega arith;
  kind = omega arith;
  flags = omega arith;
  destination_ipv4 = omega arith;
  destination_port = omega arith;
  protocol = omega arith;
  command = refl;
  filename = refl;
  padding = refl;
}

decode_event-ok_iff_example :
    ((e : KernelEvent) × (decode_event no_text (wire_bytes wire) ≡ ok e))
    ↔ ((length (wire_bytes wire) ≡ 360) × IsKind (number 4 (drop_bytes 64 (wire_bytes wire))))
decode_event-ok_iff_example = decode_event-ok_iff no_text (wire_bytes wire)

decode_event-wire_bytes_example :
    decode_event no_text (wire_bytes wire)
    ≡ ok (record {
      monotonic_ns = 20;
      cgroup_id = 7;
      start_time_ns = 5;
      parent_start_time_ns = 4;
      pid = 11;
      tgid = 11;
      ppid = 10;
      uid = 0;
      gid = 0;
      pid_namespace = 1;
      mount_namespace = 2;
      parent_pid_namespace = 1;
      kind = 1;
      flags = 0;
      destination_ipv4 = 0;
      destination_port = 0;
      protocol = 0;
      command = "";
      filename = "";
    })
decode_event-wire_bytes_example =
    decode_event-wire_bytes no_text wire wire-IsWire (inl refl) (b'c' ∷ []) (b'/' ∷ b'c' ∷ [])
      (zeros 14) (zeros 253) (omega arith, tt) (omega arith, (omega arith, tt)) refl refl

abbrev config : Config
config = record { cgroup_id = 7; cgroup_path = "/sys/fs/cgroup/b"; sensitive_path = "" }

open_sensor-Restores_example :
    Restores (collection ∷ []) (open_sensor host "o" config (collection ∷ []))
open_sensor-Restores_example = open_sensor-Restores host "o" config (collection ∷ [])

read_loss-Counts_example :
    Counts host "ringbuf_drops" counters.ring_buffer
    × Counts host "correlation_drops" counters.correlation
    × Counts host "path_read_drops" counters.path_read
    × Counts host "map_update_drops" counters.map_update
    × Counts host "cgroup_mismatch_drops" counters.cgroup_mismatch
read_loss-Counts_example = read_loss-Counts host counters counters_read

-- A round that is a deadline is not one that is a sample.
abbrev IsSample : Poll → Type 0
IsSample (sample raw) = Unit
IsSample _ = ⊥

read_event-IsOutcome_example :
    (result : Result KernelEvent) × (read_event no_text (deadlines 2 ++ sample [] ∷ [])
      ≡ some (result, []))
    × IsOutcome no_text (sample []) result
read_event-IsOutcome_example =
    read_event-IsOutcome no_text 2 (sample []) [] (λ same. subst IsSample same tt)

run_sensor-IsRecorded_example :
    IsRecorded plain_platform flags machine readings
      (1 ∷ 10 ∷ 1 ∷ 10 ∷ 1 ∷ 10 ∷ 1 ∷ 10 ∷ 1 ∷ 10 ∷ [], true)
run_sensor-IsRecorded_example =
    run_sensor-IsRecorded plain_platform flags machine readings
      (1 ∷ 10 ∷ 1 ∷ 10 ∷ 1 ∷ 10 ∷ 1 ∷ 10 ∷ 1 ∷ 10 ∷ [], true) readings-AreKinds sensor_ran

-- A platform that reads decimal texts.
abbrev reading_platform : Platform
reading_platform = record chain_platform { number_int64 = λ text. some (pos (read 0 text)) }

reading_platform-ReadsDecimals : ReadsDecimals reading_platform
reading_platform-ReadsDecimals n small = ap (λ m. some (pos m)) (read-decimal n (omega arith))

abbrev last_event : Event
last_event = record finished { resource = some (loss_fields (ok counters) 1) }

loss_from_final_event-settled_example :
    loss_from_final_event reading_platform (settled reading_platform last_event) ≡ record {
      kernel_reserve = 3;
      kernel_correlation = 3;
      decode = 1;
      queue = 0;
      persistence = 0;
      counter_read_error = false;
    }
loss_from_final_event-settled_example =
    loss_from_final_event-settled reading_platform last_event (ok counters) 1
      reading_platform-ReadsDecimals refl refl (omega arith) (omega arith) (omega arith)

watch-IsWatched_example :
    IsWatched plain_platform
      (target_of plain_platform flags)
      machine.output
      sensor_chain
      start_tracking
      readings
      loop_ran.0
watch-IsWatched_example =
    watch-IsWatched plain_platform (target_of plain_platform flags) machine.output sensor_chain
      start_tracking readings loop_ran.0
      (record { bounded = omega arith; keyed = tt; counter = omega arith }) readings-AreKinds
      loop_ran.1

-- ===== src/Agent/Command.antt =====
-- cmd/rpf-sensor/main_linux.go: the command from its flags to the end of its evidence file.
--   What a fatal error leaves in the file is not modelled, except at the end, where the command
--   writes its last event and then fails if the counters could not be read.
use runtime_provenance_firew.Base.{
  ℕ, String, Bool, true, false, not, none, some, List, [], ◌∷◌, ◌++◌, nat_eq, string_eq, Result, ok,
  err, ◌>>=◌, ◌>>◌, fail_if, require, output_exists, producer_unknown, artifact_unreadable,
  object_unreadable,
}
use runtime_provenance_firew.Json.{pos, str, uint, int, bool, Fields, fields}
use runtime_provenance_firew.Platform.{Platform, Bytes}
use runtime_provenance_firew.Parse.{digest}
use runtime_provenance_firew.Chain.{EventChain, new_event_chain}
use runtime_provenance_firew.Kernel.{KernelEvent}
use runtime_provenance_firew.Kernel.Resources.{LossCounters, open_sensor, read_loss}
use runtime_provenance_firew.Agent.{Tracking, observed, write_event, watch}
use runtime_provenance_firew.Agent.Settings.{
  Flags, Machine, boottime_ns, check_flags, target_of, build_of, configuration_of, sensor_of,
  digest_sensor_configuration,
}

abbrev pub no_counters : LossCounters
no_counters = record {
  ring_buffer = 0;
  correlation = 0;
  path_read = 0;
  map_update = 0;
  cgroup_mismatch = 0;
}

-- `loss, err := monitor.Loss()`
abbrev pub counters_or_zero : Result LossCounters → LossCounters
counters_or_zero (ok loss) = loss
counters_or_zero (err e) = no_counters

abbrev pub is_err {ℓ} : {A : Type ℓ} → Result A → Bool
is_err (ok a) = false
is_err (err e) = true

-- The resource of the last event.
unfoldable pub loss_fields : Result LossCounters → ℕ → Fields
loss_fields read decode_loss =
    let loss = counters_or_zero read in
    fields (
      ("counter_read_error", bool (is_err read))
      ∷ ("decode", uint decode_loss)
      ∷ ("kernel_cgroup_mismatch", uint loss.cgroup_mismatch)
      ∷ ("kernel_correlation", uint loss.correlation)
      ∷ ("kernel_map_update", uint loss.map_update)
      ∷ ("kernel_path_read", uint loss.path_read)
      ∷ ("kernel_reserve", uint loss.ring_buffer)
      ∷ ("persistence", int (pos 0))
      ∷ ("queue", int (pos 0))
      ∷ [])

abbrev pub start_tracking : Tracking
start_tracking = record { processes = []; artifact_producer = none; decode_loss = 0 }

module _ (platform : Platform) (flags : Flags) (machine : Machine) where
  -- What precedes the first event.
  unfoldable pub begin : Result EventChain
  begin = do
    check_flags platform flags
    object ← require (machine.object flags.object_path) object_unreadable
    config_digest ←
        digest_sensor_configuration platform flags (configuration_of platform flags object)
    chain ← new_event_chain (build_of platform flags) (sensor_of platform flags config_digest)
    (open_sensor machine.host flags.object_path
        (record {
          cgroup_id = flags.cgroup_id;
          cgroup_path = flags.cgroup_path;
          sensitive_path = flags.sensitive_path;
        })
        []).1
    fail_if (not (machine.creates flags.output_path)) output_exists
    ok chain

  -- What follows the main loop: the two lines, and whether the counters could be read.
  unfoldable pub report : EventChain → Tracking → Result (Bytes × Bool)
  report chain t = do
    producer ← require t.artifact_producer producer_unknown
    content ← require (machine.artifact flags.artifact_path) artifact_unreadable
    artifact_ns ← boottime_ns machine.artifact_boot
    finalized ← write_event platform machine.output chain (
        observed machine.artifact_at artifact_ns (some producer) "artifact_finalized"
          (fields
            (("path", str flags.artifact_path) ∷ ("sha256", str (digest platform content)) ∷ []))
          "success")
    finalized_ns ← boottime_ns machine.finalized_boot
    last ← write_event platform machine.output finalized.0 (
        observed machine.finalized_at finalized_ns none "sensor_finalized"
          (loss_fields (read_loss machine.host) t.decode_loss) "success")
    ok (finalized.1 ++ last.1, not (is_err (read_loss machine.host)))

  -- `main`: the evidence file, and whether the command succeeds, or the error that ends it.
  unfoldable pub run_sensor : List (String × Result KernelEvent) → Result (Bytes × Bool)
  run_sensor readings = do
    chain ← begin
    started_ns ← boottime_ns machine.started_boot
    started ← write_event platform machine.output chain (
        observed machine.started_at started_ns none "sensor_started"
          (fields (("target_cgroup_id", uint flags.cgroup_id) ∷ [])) "success")
    watched ←
        watch platform (target_of platform flags) machine.output started.0 start_tracking readings
    reported ← report watched.0 watched.1
    ok (started.1 ++ watched.2 ++ reported.0, reported.1)

-- ===== src/Agent.antt =====
-- cmd/rpf-sensor/main_linux.go: what the sensor command makes of the events of the kernel, and its
-- main loop.
--   The map of processes is the list of its entries; the command never ranges over it.
pub mod Tracked
pub mod Accounted
pub mod Settings
pub mod Command
pub mod Lines
pub mod Told
pub mod Handled
pub mod Producer
pub mod Watched
pub mod Reexecuted
pub mod Losses
pub mod Reported
pub mod Recorded
use runtime_provenance_firew.Base.{
  ℕ, ◌+◌, ◌/◌, ◌%◌, ◌^◌, String, ◌<>◌, Bool, true, false, not, ◌||◌, Option, none, some, List, [],
  ◌∷◌, ◌++◌, length, ltb, ◌==◌, nat_eq, string_eq, if◌then◌else◌, Result, ok, err, ◌>>=◌, ◌>>◌,
  fail_if, persist_failed, sync_failed,
}
use runtime_provenance_firew.Json.{pos, str, uint, Fields, fields, end, decimal}
use runtime_provenance_firew.Model.{Process, Executable, Event, Outcome}
use runtime_provenance_firew.Platform.{Platform, Bytes}
use runtime_provenance_firew.Chain.{
  EventChain, append, process_key, increment, zero_scope, zero_sensor, zero_integrity,
}
use runtime_provenance_firew.Kernel.{
  KernelEvent, event_exec, event_open, event_sensitive, event_connect4,
}

abbrev pub max_tracked_processes : ℕ
max_tracked_processes = 65536

-- The text of an IPv4 address, its octets from the low byte on, with a port.
unfoldable pub ipv4_destination : ℕ → ℕ → String
ipv4_destination address port =
    decimal (address % 256)
    <> ("."
        <> (decimal (address / 256 % 256)
            <> ("."
                <> (decimal (address / 65536 % 256)
                    <> ("." <> (decimal (address / 16777216 % 256) <> (":" <> decimal port)))))))

-- An executable that is known by its path only.
abbrev pub path_only : String → Executable
path_only path = record { path = path; identity = path; identity_kind = "path_only" }

-- `rpf.Event{…}` with the fields that the caller of `Append` sets.
abbrev pub observed : String → ℕ → Option Process → String → Fields → String → Event
observed observed_at monotonic_ns process operation resource status = record {
  schema_version = "";
  event_id = "";
  sequence = 0;
  observed_at = observed_at;
  monotonic_ns = monotonic_ns;
  build = zero_scope;
  process = process;
  operation = operation;
  resource = some resource;
  outcome = record { status = status; errno = pos 0 };
  sensor = zero_sensor;
  integrity = zero_integrity;
}

-- `processes[key]`
unfoldable pub process_at : String → List (String × Process) → Option Process
process_at key [] = none
process_at key ((other, process) ∷ processes) =
    let rest = process_at key processes in if other == key then some process else rest

-- `processes[key] = process`
unfoldable pub put_process : String → Process → List (String × Process) → List (String × Process)
put_process key process [] = (key, process) ∷ []
put_process key process ((other, p) ∷ processes) =
    let rest = put_process key process processes in
    if other == key then (key, process) ∷ processes else (other, p) ∷ rest

abbrev pub is_some {ℓ} : {A : Type ℓ} → Option A → Bool
is_some none = false
is_some (some a) = true

-- The variables of the main loop besides the chain.
pub record Tracking : Type 0 where
  pub processes : List (String × Process)
  pub artifact_producer : Option Process
  pub decode_loss : ℕ

-- `decodeLoss++`
abbrev pub lose : Tracking → Tracking
lose t = record t { decode_loss = increment t.decode_loss }

-- What the command is told of the build, as far as the main loop reads it.
pub record Target : Type 0 where
  pub boot_id : String
  pub artifact_path : String
  pub sensitive_category : String

-- The answers of the file to `Write` and `Sync`.
pub record Output : Type 0 where
  pub writes : Bytes → Bool
  pub syncs : Bytes → Bool

module _ (platform : Platform) where
  unfoldable pub process_from_kernel : KernelEvent → String → Process
  process_from_kernel event boot_id = record {
    process_key = process_key platform boot_id event.pid_namespace event.tgid event.start_time_ns;
    parent_key =
        process_key platform boot_id event.parent_pid_namespace event.ppid
          event.parent_start_time_ns;
    pid = event.pid;
    tgid = event.tgid;
    ppid = event.ppid;
    start_time_ns = event.start_time_ns;
    pid_namespace = event.pid_namespace;
    mount_namespace = event.mount_namespace;
    uid = event.uid;
    gid = event.gid;
    executable = path_only event.filename;
  }

  module _ (target : Target) where
    -- The key of the process that an event names.
    abbrev pub key_of : KernelEvent → String
    key_of event = (process_from_kernel event target.boot_id).process_key

    -- The four cases of the switch: the tracking as the case leaves it, and the event to write.
    unfoldable pub handle_exec : Tracking → String → KernelEvent → Tracking × Option Event
    handle_exec t now event =
        let process = process_from_kernel event target.boot_id in
        let next =
          if is_some (process_at process.process_key t.processes)
            || ltb (length t.processes) max_tracked_processes
          then record t { processes = put_process process.process_key process t.processes }
          else lose t in
        (next, some (observed now event.monotonic_ns (some process) "process_exec" end "success"))

    unfoldable pub handle_open :
        Tracking → String → KernelEvent → Option Process → Tracking × Option Event
    handle_open t now event none = (lose t, none)
    handle_open t now event (some process) = (
      if event.filename == target.artifact_path
          then record t { artifact_producer = some process }
          else t,
      some (
          observed now event.monotonic_ns (some process) "file_open_output"
            (fields (("flags", uint event.flags) ∷ ("path", str event.filename) ∷ [])) "success"),
    )

    unfoldable pub handle_sensitive :
        Tracking → String → KernelEvent → Option Process → Tracking × Option Event
    handle_sensitive t now event none = (lose t, none)
    handle_sensitive t now event (some process) = (
      t,
      some (
          observed now event.monotonic_ns (some process) "file_open_sensitive"
            (fields (("category", str target.sensitive_category) ∷ [])) "success"),
    )

    unfoldable pub handle_connect :
        Tracking → String → KernelEvent → Option Process → Tracking × Option Event
    handle_connect t now event none = (lose t, none)
    handle_connect t now event (some process) =
        if ltb 65535 event.destination_port then (lose t, none) else (
          t,
          some (
              observed now event.monotonic_ns (some process) "network_connect"
                (fields (
                  (
                    "destination",
                    str (ipv4_destination event.destination_ipv4 (event.destination_port % 2 ^ 16)),
                  )
                  ∷ ("protocol", uint event.protocol)
                  ∷ []))
                "attempted"),
        )

    -- The switch on the kind of an event.
    unfoldable pub handle : Tracking → String → KernelEvent → Tracking × Option Event
    unfolding handle_exec handle_open handle_sensitive handle_connect
    handle t now event =
        let known = process_at (key_of event) t.processes in
        if event.kind == event_exec
        then handle_exec t now event
        else if event.kind == event_open
        then handle_open t now event known
        else if event.kind == event_sensitive
        then handle_sensitive t now event known
        else if event.kind == event_connect4
        then handle_connect t now event known
        else (t, none)

  -- `writeEvent`; an error ends the command
  unfoldable pub write_event : Output → EventChain → Event → Result (EventChain × Bytes)
  write_event output chain event =
      let answer = append platform chain event in
      do
        written ← answer.1
        fail_if (not (output.writes written.1)) persist_failed
        fail_if (not (output.syncs written.1)) sync_failed
        ok (answer.0, written.1)

  -- `writeEvent` where a case of the switch reaches it.
  unfoldable pub write_if_any : Output → EventChain → Option Event → Result (EventChain × Bytes)
  write_if_any output chain none = ok (chain, [])
  write_if_any output chain (some event) = write_event output chain event

  module _ (target : Target) (output : Output) where
    -- The main loop, on the results of `Read` with the time at which each is handled, until the
    -- context ends; it returns the lines written.
    unfoldable pub watch :
        EventChain
        → Tracking
        → List (String × Result KernelEvent)
        → Result (EventChain × Tracking × Bytes)
    watch chain t [] = ok (chain, t, [])
    watch chain t ((now, reading) ∷ readings) = do
      event ← reading
      let handled = handle target t now event
      written ← write_if_any output chain handled.1
      rest ← watch written.0 handled.0 readings
      ok (rest.0, rest.1, written.1 ++ rest.2)

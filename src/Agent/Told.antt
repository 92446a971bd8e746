-- ===== src/Agent/Told.antt =====
-- cmd/rpf-sensor/main_linux.go: which event the main loop writes for which sample, as a step relation.
use runtime_provenance_firew.Base.{
  ◌≤◌, ◌<◌, ◌≡◌, ◌≢◌, ◌⊎◌, String, none, some, List, [], ◌∷◌, length, nat_eq, string_eq, Result, ok,
}
use runtime_provenance_firew.Json.{pos, str, uint, Fields, fields, end}
use runtime_provenance_firew.Model.{Process, Event}
use runtime_provenance_firew.Platform.{Platform}
use runtime_provenance_firew.Chain.{process_key}
use runtime_provenance_firew.Kernel.{KernelEvent}
use runtime_provenance_firew.Agent.{Tracking, Target, process_at, lose, ipv4_destination}

-- The event reports the sample, handled at the time `now`, of the process.
pub record Reports (now : String) (sample : KernelEvent) (p : Process) (verb : String)
    (about : Fields) (status : String) (e : Event) : Type 0 where
  pub time : e.observed_at ≡ now
  pub monotonic : e.monotonic_ns ≡ sample.monotonic_ns
  pub process : e.process ≡ some p
  pub operation : e.operation ≡ verb
  pub resource : e.resource ≡ some about
  pub outcome : e.outcome ≡ record { status = status; errno = pos 0 }

-- The process is found under its key from now on, and the others as before.
pub record Remembers (t : Tracking) (p : Process) (next : Tracking) : Type 0 where
  pub found : process_at p.process_key next.processes ≡ some p
  pub others :
      (key : String)
      → key ≢ p.process_key
      → process_at key next.processes ≡ process_at key t.processes
  pub producer : next.artifact_producer ≡ t.artifact_producer
  pub loss : next.decode_loss ≡ t.decode_loss

abbrev pub output_open : KernelEvent → Fields
output_open sample = fields (("flags", uint sample.flags) ∷ ("path", str sample.filename) ∷ [])

module _ (platform : Platform) (target : Target) where
  -- The key of the process that a sample names.
  abbrev pub sample_key : KernelEvent → String
  sample_key sample =
      process_key platform target.boot_id sample.pid_namespace sample.tgid sample.start_time_ns

  -- The process of an execution.
  pub record IsExecuted (sample : KernelEvent) (p : Process) : Type 0 where
    pub key : p.process_key ≡ sample_key sample
    pub parent :
        p.parent_key
        ≡ process_key platform target.boot_id sample.parent_pid_namespace sample.ppid
            sample.parent_start_time_ns
    pub pid : p.pid ≡ sample.pid
    pub tgid : p.tgid ≡ sample.tgid
    pub ppid : p.ppid ≡ sample.ppid
    pub start_time : p.start_time_ns ≡ sample.start_time_ns
    pub pid_namespace : p.pid_namespace ≡ sample.pid_namespace
    pub mount_namespace : p.mount_namespace ≡ sample.mount_namespace
    pub uid : p.uid ≡ sample.uid
    pub gid : p.gid ≡ sample.gid
    pub path : p.executable.path ≡ sample.filename
    pub identity : p.executable.identity ≡ sample.filename
    pub identity_kind : p.executable.identity_kind ≡ "path_only"

  -- The process that is tracked under the key of the sample.
  abbrev pub Known : Tracking → KernelEvent → Process → Type 0
  Known t sample p = process_at (sample_key sample) t.processes ≡ some p

  abbrev pub Unknown : Tracking → KernelEvent → Type 0
  Unknown t sample = process_at (sample_key sample) t.processes ≡ none

  -- The samples of which an event is written.
  pub data Tells (t : Tracking) (now : String) (sample : KernelEvent) (e : Event) (next : Tracking)
      : Type 0 where
    executed :
        (p : Process)
        → sample.kind ≡ 1
        → IsExecuted sample p
        → Reports now sample p "process_exec" end "success" e
        → ((before : Process) × Known t sample before) ⊎ (length t.processes < 65536)
        → Remembers t p next
        → Tells t now sample e next
    executed_beyond :
        (p : Process)
        → sample.kind ≡ 1
        → IsExecuted sample p
        → Reports now sample p "process_exec" end "success" e
        → Unknown t sample
        → 65536 ≤ length t.processes
        → next ≡ lose t
        → Tells t now sample e next
    opened_artifact :
        (p : Process)
        → sample.kind ≡ 2
        → Known t sample p
        → Reports now sample p "file_open_output" (output_open sample) "success" e
        → sample.filename ≡ target.artifact_path
        → next ≡ record t { artifact_producer = some p }
        → Tells t now sample e next
    opened :
        (p : Process)
        → sample.kind ≡ 2
        → Known t sample p
        → Reports now sample p "file_open_output" (output_open sample) "success" e
        → sample.filename ≢ target.artifact_path
        → next ≡ t
        → Tells t now sample e next
    opened_sensitive :
        (p : Process)
        → sample.kind ≡ 3
        → Known t sample p
        → Reports now sample p "file_open_sensitive"
            (fields (("category", str target.sensitive_category) ∷ []))
            "success"
            e
        → next ≡ t
        → Tells t now sample e next
    connected :
        (p : Process)
        → sample.kind ≡ 4
        → Known t sample p
        → sample.destination_port < 65536
        → Reports now sample p "network_connect"
            (fields (
              (
                "destination",
                str (ipv4_destination sample.destination_ipv4 sample.destination_port),
              )
              ∷ ("protocol", uint sample.protocol)
              ∷ []))
            "attempted"
            e
        → next ≡ t
        → Tells t now sample e next

  -- The samples that are counted as lost.
  pub data Loses (t : Tracking) (sample : KernelEvent) (next : Tracking) : Type 0 where
    unattributed : sample.kind ≢ 1 → Unknown t sample → next ≡ lose t → Loses t sample next
    port_out_of_range :
        sample.kind ≡ 4 → 65536 ≤ sample.destination_port → next ≡ lose t → Loses t sample next

  -- A run of the main loop: what it reads, the events it writes and the state it leaves.
  pub data Run
      : Tracking → List (String × Result KernelEvent) → List Event → Tracking → Type 0 where
    ended : (t : Tracking) → Run t [] [] t
    lost :
        (t next last : Tracking) (now : String) (sample : KernelEvent)
        (readings : List (String × Result KernelEvent)) (es : List Event)
        → Loses t sample next
        → Run next readings es last
        → Run t ((now, ok sample) ∷ readings) es last
    told :
        (t next last : Tracking) (now : String) (sample : KernelEvent) (e : Event)
        (readings : List (String × Result KernelEvent)) (es : List Event)
        → Tells t now sample e next
        → Run next readings es last
        → Run t ((now, ok sample) ∷ readings) (e ∷ es) last

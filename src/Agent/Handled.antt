-- ===== src/Agent/Handled.antt =====
-- cmd/rpf-sensor/main_linux.go: the switch of the main loop takes the steps of the relation.
use runtime_provenance_firew.Base.{
  ◌%◌, ◌^◌, ◌≡◌, ◌≢◌, inl, inr, refl, String, Option, none, some, List, [], ◌∷◌, arith, length, ltb,
  nat_eq, string_eq, Bool-cases,
}
use native.Mathlib.Decide.{ℕ_discrete}
use runtime_provenance_firew.Json.{Fields, end}
use runtime_provenance_firew.Model.{Process, Event}
use runtime_provenance_firew.Platform.{Platform}
use runtime_provenance_firew.Chain.{EventChain}
use runtime_provenance_firew.Chain.Append.{IsStamped}
use runtime_provenance_firew.Kernel.{KernelEvent}
use runtime_provenance_firew.Kernel.Samples.{IsKind}
use runtime_provenance_firew.Agent.{
  Tracking, Target, max_tracked_processes, process_at, put_process, process_from_kernel, key_of,
  handle, handle_exec, handle_open, handle_sensitive, handle_connect, observed,
}
use runtime_provenance_firew.Agent.Told.{
  sample_key, IsExecuted, Reports, Remembers, Tells, executed, executed_beyond, opened_artifact,
  opened, opened_sensitive, connected, Loses, unattributed, port_out_of_range,
}

process_at-put_process :
    (key : String) (p : Process) (ps : List (String × Process))
    → process_at key (put_process key p ps) ≡ some p
unfolding process_at put_process
process_at-put_process key p [] = ground arith
process_at-put_process key p ((other, q) ∷ ps) = ground (arith, process_at-put_process key p ps)

process_at-put_process-other :
    (key other : String) (p : Process) (ps : List (String × Process))
    → other ≢ key
    → process_at other (put_process key p ps) ≡ process_at other ps
unfolding process_at put_process
process_at-put_process-other key other p [] h = ground arith
process_at-put_process-other key other p ((k, q) ∷ ps) h =
    ground (arith, process_at-put_process-other key other p ps h)

module _ (platform : Platform) (target : Target) where
  -- Whatever event the chain makes of the one to write is told, and no event is a loss.
  abbrev pub Steps : Tracking → String → KernelEvent → Tracking × Option Event → Type 0
  Steps t now sample (next, none) = Loses platform target t sample next
  Steps t now sample (next, some x) =
      (chain : EventChain) (e : Event)
      → IsStamped platform chain x e
      → Tells platform target t now sample e next

  stamped-Reports :
      (now : String) (sample : KernelEvent) (p : Process) (operation : String) (resource : Fields)
      (status : String) (chain : EventChain) (e : Event)
      → IsStamped platform chain
          (observed now sample.monotonic_ns (some p) operation resource status)
          e
      → Reports now sample p operation resource status e
  stamped-Reports now sample p operation resource status chain e s = record {
    time = s.observed_at;
    monotonic = s.monotonic;
    process = s.process;
    operation = s.operation;
    resource = s.resource;
    outcome = s.outcome;
  }

  module _ (t : Tracking) (now : String) (sample : KernelEvent) where
    abbrev executing : Process
    executing = process_from_kernel platform sample target.boot_id

    put-Remembers :
        Remembers t executing
          (record t { processes = put_process executing.process_key executing t.processes })
    put-Remembers = record {
      found = process_at-put_process executing.process_key executing t.processes;
      others = λ key differ.
          process_at-put_process-other executing.process_key key executing t.processes differ;
      producer = refl;
      loss = refl;
    }

    executing-IsExecuted : IsExecuted platform target sample executing
    unfolding process_from_kernel
    executing-IsExecuted = record {
      key = refl;
      parent = refl;
      pid = refl;
      tgid = refl;
      ppid = refl;
      start_time = refl;
      pid_namespace = refl;
      mount_namespace = refl;
      uid = refl;
      gid = refl;
      path = refl;
      identity = refl;
      identity_kind = refl;
    }

    -- A lookup of the event's key is one of the sample's.
    keyed :
        (known : Option Process)
        → process_at (key_of platform target sample) t.processes ≡ known
        → process_at (sample_key platform target sample) t.processes ≡ known
    unfolding process_from_kernel
    keyed known h = h

    exec-Tells :
        (known : Option Process) (e : Event)
        → sample.kind ≡ 1
        → process_at executing.process_key t.processes ≡ known
        → Reports now sample executing "process_exec" end "success" e
        → Tells platform target t now sample e (handle_exec platform target t now sample).0
    unfolding handle_exec
    exec-Tells (some p) e kind h reported =
        rw h
          (executed executing kind executing-IsExecuted reported (inl (p, keyed _ h)) put-Remembers)
    exec-Tells none e kind h reported =
        elim (Bool-cases (ltb (length t.processes) max_tracked_processes)) [
          | inl room ↦
              rw (h, room)
                (executed executing kind executing-IsExecuted reported (inr (ground arith))
                  put-Remembers)
          | inr full ↦
              rw (h, full)
                (executed_beyond executing kind executing-IsExecuted reported (keyed _ h)
                  (ground arith) refl)
        ]

    exec-Steps : sample.kind ≡ 1 → Steps t now sample (handle_exec platform target t now sample)
    unfolding handle_exec
    exec-Steps kind chain e s =
        exec-Tells _ e kind refl (stamped-Reports now sample executing _ _ _ chain e s)

    open-Steps :
        (known : Option Process)
        → sample.kind ≡ 2
        → process_at (key_of platform target sample) t.processes ≡ known
        → Steps t now sample (handle_open platform target t now sample known)
    unfolding handle_open
    open-Steps none kind h = unattributed (λ e. omega arith) (keyed _ h) refl
    open-Steps (some p) kind h = λ chain e s.
        let reported = stamped-Reports now sample p _ _ _ chain e s in
        elim (string_eq.dec sample.filename target.artifact_path) [
          | yes same ↦ opened_artifact p kind (keyed _ h) reported same (ground arith)
          | no differ ↦ opened p kind (keyed _ h) reported differ (ground arith)
        ]

    sensitive-Steps :
        (known : Option Process)
        → sample.kind ≡ 3
        → process_at (key_of platform target sample) t.processes ≡ known
        → Steps t now sample (handle_sensitive platform target t now sample known)
    unfolding handle_sensitive
    sensitive-Steps none kind h = unattributed (λ e. omega arith) (keyed _ h) refl
    sensitive-Steps (some p) kind h = λ chain e s.
        opened_sensitive p kind (keyed _ h) (stamped-Reports now sample p _ _ _ chain e s) refl

    connect-Steps :
        (known : Option Process)
        → sample.kind ≡ 4
        → process_at (key_of platform target sample) t.processes ≡ known
        → Steps t now sample (handle_connect platform target t now sample known)
    unfolding handle_connect
    connect-Steps none kind h = unattributed (λ e. omega arith) (keyed _ h) refl
    connect-Steps (some p) kind h = elim (Bool-cases (ltb 65535 sample.destination_port)) [
      | inl high ↦ rw high (port_out_of_range kind (ground arith) refl)
      | inr low ↦
          let port : sample.destination_port % 2 ^ 16 ≡ sample.destination_port = ground arith in
          rw (low, port)
            λ chain e s.
              connected p kind (keyed _ h) (ground arith)
                (stamped-Reports now sample p _ _ _ chain e s) refl
    ]

    pub handle-Steps : IsKind sample.kind → Steps t now sample (handle platform target t now sample)
    unfolding handle nat_eq ℕ_discrete
    handle-Steps kind = elim kind [
      | inl e ↦ let step = exec-Steps e in simp e step
      | inr (inl e) ↦ let step = open-Steps _ e refl in simp e step
      | inr (inr (inl e)) ↦ let step = sensitive-Steps _ e refl in simp e step
      | inr (inr (inr e)) ↦ let step = connect-Steps _ e refl in simp e step
    ]

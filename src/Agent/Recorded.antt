-- ===== src/Agent/Recorded.antt =====
-- cmd/rpf-sensor/main_linux.go: what stands in the evidence file of a run, and what
-- internal/rpf/evidence.go makes of it.
use mathlib.Core.List.{append_assoc, append-nil}
use runtime_provenance_firew.Base.{
  ◌+◌, ◌≤◌, ◌<◌, ◌^◌, ◌≡◌, refl, sym, subst, ◌∙◌, String, Bool, not, some, List, [], ◌∷◌, ◌++◌,
  arith, length, Result, ok, >>=-eq-ok,
}
use runtime_provenance_firew.Json.{fields, str}
use runtime_provenance_firew.Model.{Process, Event}
use runtime_provenance_firew.Platform.{Platform, Bytes}
use runtime_provenance_firew.Parse.{digest}
use runtime_provenance_firew.Chain.{EventChain, new_event_chain}
use runtime_provenance_firew.Chain.Verified.{Writes, done}
use runtime_provenance_firew.Chain.Parsed.{output}
use runtime_provenance_firew.Kernel.{KernelEvent}
use runtime_provenance_firew.Kernel.Resources.{read_loss}
use runtime_provenance_firew.Agent.{Tracking, write_event, watch}
use runtime_provenance_firew.Agent.Settings.{
  Flags, Machine, boottime_ns, target_of, build_of, sensor_of,
}
use runtime_provenance_firew.Agent.Command.{
  begin, report, run_sensor, loss_fields, is_err, start_tracking,
}
use runtime_provenance_firew.Agent.Reported.{report-IsReported, begin-eq-ok}
use runtime_provenance_firew.Agent.Lines.{Extends-append, write_event-IsWritten}
use runtime_provenance_firew.Agent.Tracked.{IsTracking}
use runtime_provenance_firew.Agent.Told.{Run}
use runtime_provenance_firew.Agent.Producer.{LastOpens, Run-LastOpens}
use runtime_provenance_firew.Agent.Watched.{AreKinds, AllAttributed, watch-IsWatched}

module _ (platform : Platform) (flags : Flags) (machine : Machine) where
  -- A run of the command that came to its end: the chain for the flags, what the command wrote on it
  -- before, in and after the main loop, and the state after the loop.
  pub record IsRecorded (readings : List (String × Result KernelEvent)) (r : Bytes × Bool)
      : Type 0 where
    pub config_digest : String
    pub chain : EventChain
    pub made :
        new_event_chain (build_of platform flags) (sensor_of platform flags config_digest)
        ≡ ok chain
    pub started : Event
    pub observed : List Event
    pub artifact : Event
    pub final : Event
    pub written : Writes platform chain (started ∷ (observed ++ artifact ∷ final ∷ []))
    pub bytes : output platform written ≡ r.0
    pub started_operation : started.operation ≡ "sensor_started"
    pub state : Tracking
    pub tracking : IsTracking state
    pub attributed : AllAttributed observed
    pub run : Run platform (target_of platform flags) start_tracking readings observed state
    pub accounted : length readings < 2 ^ 64 → length readings ≤ state.decode_loss + length observed
    pub artifact_operation : artifact.operation ≡ "artifact_finalized"
    pub artifact_process : artifact.process ≡ state.artifact_producer
    pub producer :
        (p : Process) × (artifact.process ≡ some p) × LastOpens flags.artifact_path p observed
    pub artifact_content :
        (content : Bytes) × (machine.artifact flags.artifact_path ≡ some content)
        × (artifact.resource
            ≡ some (
                fields (
                  ("path", str flags.artifact_path)
                  ∷ ("sha256", str (digest platform content))
                  ∷ [])))
    pub final_operation : final.operation ≡ "sensor_finalized"
    pub final_resource :
        final.resource ≡ some (loss_fields (read_loss machine.host) state.decode_loss)
    pub succeeded : r.1 ≡ not (is_err (read_loss machine.host))

-- When the sensor command comes to its end, its file holds the lines that `Append` gave, from a new
-- chain for its flags on, for a `sensor_started` event, the events of the main loop, an
-- `artifact_finalized` event with the digest of the artifact's content, and a `sensor_finalized` event
-- with the loss counters. The events of the main loop are those of `Run` from no tracked process on:
-- in the order of the samples, each has the event that is due to it or is counted as lost. The artifact's
-- process is that of the last event of the loop that reports an open of the artifact's path; the decode
-- counter of the last event is that of the run, and below 2 ^ 64 readings it is at least the number of
-- samples without an event. The samples are of supported kinds.
pub run_sensor-IsRecorded :
    (platform : Platform) (flags : Flags) (machine : Machine)
    (readings : List (String × Result KernelEvent)) (r : Bytes × Bool)
    → AreKinds readings
    → run_sensor platform flags machine readings ≡ ok r
    → IsRecorded platform flags machine readings r
unfolding run_sensor
run_sensor-IsRecorded platform flags machine readings r kinds h =
    let (chain, began, h1) = >>=-eq-ok (begin platform flags machine) _ h in
    let (config_digest, made) = begin-eq-ok platform flags machine chain began in
    let (ns, clocked, h2) = >>=-eq-ok (boottime_ns machine.started_boot) _ h1 in
    let (first, wrote, h3) = >>=-eq-ok (write_event platform machine.output chain _) _ h2 in
    let (started, s) = write_event-IsWritten platform machine.output chain _ first wrote in
    let (loop, looped, h4) =
      >>=-eq-ok
        (watch platform (target_of platform flags) machine.output first.0 start_tracking readings) _
        h3 in
    let good : IsTracking start_tracking = record {
      bounded = omega arith;
      keyed = tt;
      counter = omega arith;
    } in
    let w =
      watch-IsWatched platform (target_of platform flags) machine.output first.0 start_tracking
        readings loop good kinds looped in
    let (reported, finished, h5) = >>=-eq-ok (report platform flags machine loop.0 loop.1) _ h4 in
    let e = report-IsReported platform flags machine loop.0 loop.1 reported finished in
    let same : (first.1 ++ loop.2 ++ reported.0, reported.1) ≡ r = cc in
    let both =
      Extends-append platform first.0 loop.0 e.next w.events (e.artifact ∷ e.final ∷ []) loop.2
        reported.0 w.writes e.extends in
    let whole =
      Extends-append platform chain first.0 e.next (started ∷ [])
        (w.events ++ e.artifact ∷ e.final ∷ []) first.1 (loop.2 ++ reported.0) s.extends both in
    let events = started ∷ (w.events ++ e.artifact ∷ e.final ∷ []) in
    let (v, out) =
      subst
        (λ es.
          (v : Writes platform chain es) × (output platform v
            ≡ (first.1 ++ (loop.2 ++ reported.0)) ++ []))
        (append-nil events) (whole [] (done e.next)) in
    rw (sym same) (record {
      config_digest = config_digest;
      chain = chain;
      made = made;
      started = started;
      observed = w.events;
      artifact = e.artifact;
      final = e.final;
      written = v;
      bytes =
          out
          ∙ append-nil (first.1 ++ (loop.2 ++ reported.0))
          ∙ sym (append_assoc first.1 loop.2 reported.0);
      started_operation = s.stamped.operation;
      state = loop.1;
      tracking = w.tracking;
      attributed = w.attributed;
      run = w.run;
      accounted = λ small. let a = w.accounted (omega arith) in omega (arith, a);
      artifact_operation = e.artifact_operation;
      artifact_process = e.artifact_process ∙ sym e.produced;
      producer = (
        e.producer,
        e.artifact_process,
        Run-LastOpens platform (target_of platform flags) readings start_tracking loop.1 w.events
            e.producer w.run refl e.produced,
      );
      artifact_content = (e.content, e.hashed, e.artifact_resource);
      final_operation = e.final_operation;
      final_resource = e.final_resource;
      succeeded = e.succeeded;
    })

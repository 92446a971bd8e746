-- ===== src/Agent/Reported.antt =====
-- cmd/rpf-sensor/main_linux.go: what precedes and what follows the main loop.
use runtime_provenance_firew.Base.{
  ◌≡◌, refl, sym, ap, ◌∙◌, String, Bool, not, some, [], ◌∷◌, ◌++◌, ok, >>=-eq-ok, fail_if-eq-ok,
  require-eq-ok, producer_unknown, artifact_unreadable, object_unreadable, output_exists,
}
use runtime_provenance_firew.Json.{fields, str}
use runtime_provenance_firew.Model.{Process, Event}
use runtime_provenance_firew.Platform.{Platform, Bytes}
use runtime_provenance_firew.Parse.{digest}
use runtime_provenance_firew.Chain.{EventChain, new_event_chain}
use runtime_provenance_firew.Kernel.Resources.{open_sensor, read_loss}
use runtime_provenance_firew.Agent.{Tracking, write_event}
use runtime_provenance_firew.Agent.Settings.{
  Flags, Machine, boottime_ns, check_flags, build_of, configuration_of, sensor_of,
  digest_sensor_configuration,
}
use runtime_provenance_firew.Agent.Command.{begin, report, loss_fields, is_err}
use runtime_provenance_firew.Agent.Lines.{Extends, Extends-append, write_event-IsWritten}

module _ (platform : Platform) (flags : Flags) (machine : Machine) where
  -- The two events after the main loop.
  pub record IsReported (chain : EventChain) (t : Tracking) (r : Bytes × Bool) : Type 0 where
    pub artifact : Event
    pub final : Event
    pub producer : Process
    pub content : Bytes
    pub next : EventChain
    pub extends : Extends platform chain (artifact ∷ final ∷ []) next r.0
    pub produced : t.artifact_producer ≡ some producer
    pub hashed : machine.artifact flags.artifact_path ≡ some content
    pub artifact_operation : artifact.operation ≡ "artifact_finalized"
    pub artifact_process : artifact.process ≡ some producer
    pub artifact_resource :
        artifact.resource
        ≡ some (
            fields
              (("path", str flags.artifact_path) ∷ ("sha256", str (digest platform content)) ∷ []))
    pub final_operation : final.operation ≡ "sensor_finalized"
    pub final_resource : final.resource ≡ some (loss_fields (read_loss machine.host) t.decode_loss)
    pub succeeded : r.1 ≡ not (is_err (read_loss machine.host))

  pub report-IsReported :
      (chain : EventChain) (t : Tracking) (r : Bytes × Bool)
      → report platform flags machine chain t ≡ ok r
      → IsReported chain t r
  unfolding report
  report-IsReported chain t r h =
      let (producer, produced, h1) = require-eq-ok t.artifact_producer producer_unknown _ h in
      let (content, hashed, h2) =
        require-eq-ok (machine.artifact flags.artifact_path) artifact_unreadable _ h1 in
      let (artifact_ns, clocked, h3) = >>=-eq-ok (boottime_ns machine.artifact_boot) _ h2 in
      let (first, wrote, h4) = >>=-eq-ok (write_event platform machine.output chain _) _ h3 in
      let (final_ns, clocked', h5) = >>=-eq-ok (boottime_ns machine.finalized_boot) _ h4 in
      let (second, wrote', h6) = >>=-eq-ok (write_event platform machine.output first.0 _) _ h5 in
      let (artifact, a) = write_event-IsWritten platform machine.output chain _ first wrote in
      let (final, l) = write_event-IsWritten platform machine.output first.0 _ second wrote' in
      let same : (first.1 ++ second.1, not (is_err (read_loss machine.host))) ≡ r = cc in
      rw (sym same) (record {
        artifact = artifact;
        final = final;
        producer = producer;
        content = content;
        next = second.0;
        extends =
            Extends-append platform chain first.0 second.0 (artifact ∷ []) (final ∷ []) first.1
              second.1 a.extends l.extends;
        produced = produced;
        hashed = hashed;
        artifact_operation = a.stamped.operation;
        artifact_process = a.stamped.process;
        artifact_resource = a.stamped.resource;
        final_operation = l.stamped.operation;
        final_resource = l.stamped.resource;
        succeeded = refl;
      })

  -- The chain on which a run starts is a new one for the build and sensor of its flags.
  pub begin-eq-ok :
      (chain : EventChain)
      → begin platform flags machine ≡ ok chain
      → (config_digest : String) × (new_event_chain
            (build_of platform flags)
            (sensor_of platform flags config_digest)
          ≡ ok chain)
  unfolding begin
  begin-eq-ok chain h =
      let (_, checked, h1) = >>=-eq-ok (check_flags platform flags) _ h in
      let (object, read, h2) =
        require-eq-ok (machine.object flags.object_path) object_unreadable _ h1 in
      let (config_digest, digested, h3) =
        >>=-eq-ok
          (digest_sensor_configuration platform flags (configuration_of platform flags object)) _
          h2 in
      let (fresh, made, h4) = >>=-eq-ok (new_event_chain _ _) _ h3 in
      let (monitor, opened, h5) =
        >>=-eq-ok (open_sensor machine.host flags.object_path _ []).1 _ h4 in
      let (_, h6) = fail_if-eq-ok (not (machine.creates flags.output_path)) output_exists _ h5 in
      let same : fresh ≡ chain = cc in (config_digest, made ∙ ap ok same)

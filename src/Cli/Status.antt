-- ===== src/Cli/Status.antt =====
-- With which status the verifying command of cmd/rpf/main.go exits.
use runtime_provenance_firew.Base.{
  ◌≡◌, ◌≢◌, ◌↔◌, ◌⊎◌, inl, inr, refl, sym, String, Bool, true, false, ◌||◌, ◌==◌, ◌!=◌, List, [],
  ◌∷◌, arith, string_eq, if◌then◌else◌, Result, ok, err, ◌>>=◌, >>=-eq-ok, fail_if-eq-ok,
  options_missing, texts_differ,
}
use runtime_provenance_firew.Model.{Reason, Decision, Policy, Correlation}
use runtime_provenance_firew.Platform.{Platform}
use runtime_provenance_firew.Parse.{digest}
use runtime_provenance_firew.Documents.{decode_statement, decode_policy}
use runtime_provenance_firew.Evidence.{Events, all}
use runtime_provenance_firew.Stream.{parse_event_stream}
use runtime_provenance_firew.Graph.{Runtime}
use runtime_provenance_firew.Provenance.{provenance_identity}
use runtime_provenance_firew.Behavior.{decide, decide_from}
use runtime_provenance_firew.Assemble.{Inputs, Bundle, assemble}
use runtime_provenance_firew.Verify.{reasons_of, other_artifact, decision_of, conclude, verify}
use runtime_provenance_firew.Verify.Allow.{IsAllowed, verify_allow_iff}
use runtime_provenance_firew.Files.{Files, Disk, Decoders, read_inputs, load_bundle}
use runtime_provenance_firew.Cli.{Options, decision_status, decide_files, verify_command}

-- One of the three decisions.
abbrev IsVerdict : String → Type 0
IsVerdict text = (text ≡ "ALLOW") ⊎ (text ≡ "REVIEW") ⊎ (text ≡ "REJECT")

decide_from-IsVerdict : (d : String) (rs : List Reason) → IsVerdict d → IsVerdict (decide_from d rs)
unfolding decide_from
decide_from-IsVerdict d [] h = h
decide_from-IsVerdict d (r ∷ rs) h =
    let kept = decide_from-IsVerdict d rs h in
    let raised = decide_from-IsVerdict "REVIEW" rs (inr (inl refl)) in ground arith

module _ (platform : Platform) (runtime : Runtime) where
  conclude-IsVerdict :
      (inputs : Inputs) (bundle : Bundle) (events : Events) (policy : Policy)
      (identity : Correlation) (d : Decision)
      → conclude platform runtime inputs bundle events policy identity ≡ ok d
      → IsVerdict d.decision
  unfolding conclude decision_of decide
  conclude-IsVerdict inputs bundle events policy identity d h =
      concluded (bundle.manifest.artifact.sha256 != digest platform inputs.artifact_bytes)
        (assemble platform runtime inputs) h
    where
      concluded :
          (other : Bool) (m : Result Bundle)
          → (if other
              then ok (other_artifact platform bundle)
              else (m >>= λ r. ok (decision_of platform bundle r identity policy (all events))))
            ≡ ok d
          → IsVerdict d.decision
      concluded true m h =
          let e : other_artifact platform bundle ≡ d = cc in rw (sym e) (inr (inr refl))
      concluded false (err e) h = cc
      concluded false (ok r) h =
          let e : decision_of platform bundle r identity policy (all events) ≡ d = cc in
          rw (sym e) (
            decide_from-IsVerdict "ALLOW"
              (reasons_of platform bundle r identity policy (all events)) (inl refl))

  verify-IsVerdict :
      (inputs : Inputs) (bundle : Bundle) (d : Decision)
      → verify platform runtime inputs bundle ≡ ok d
      → IsVerdict d.decision
  unfolding verify
  verify-IsVerdict inputs bundle d h =
      let (events, _, h1) = >>=-eq-ok (parse_event_stream platform inputs.event_bytes) _ h in
      let (policy, _, h2) = >>=-eq-ok (decode_policy platform inputs.policy_bytes) _ h1 in
      let (provenance, _, h3) =
        >>=-eq-ok (decode_statement platform inputs.provenance_bytes) _ h2 in
      let (identity, _, h4) = >>=-eq-ok (provenance_identity platform provenance) _ h3 in
      conclude-IsVerdict inputs bundle events policy identity d h4

decision_status-zero :
    (prints : Bool) (r : Result Decision)
    → decision_status prints r ≡ 0
    → (prints ≡ true)
      × ((d : Decision) × (r ≡ ok d) × (d.decision ≢ "REVIEW") × (d.decision ≢ "REJECT"))
unfolding decision_status
decision_status-zero prints (err e) h = ground arith
decision_status-zero true (ok d) h = (refl, (d, refl, ground arith, ground arith))
decision_status-zero false (ok d) h = ground arith

-- Every option that the command needs is given.
abbrev pub AreGiven : Options → Type 0
AreGiven options =
    (options.artifact ≢ "")
    × (options.events ≢ "")
    × (options.provenance ≢ "")
    × (options.policy ≢ "")
    × (options.bundle ≢ "")

module _ (platform : Platform) (runtime : Runtime) (disk : Disk) (decoders : Decoders)
    (options : Options) (files : Files) where
  -- The files of the options are read, the bundle is loaded, and `Verify` allows.
  pub record IsPassed : Type 0 where
    pub given : AreGiven options
    pub inputs : Inputs
    pub bundle : Bundle
    pub inputs_read :
        read_inputs platform disk options.artifact options.events options.provenance options.policy
          files
        ≡ ok inputs
    pub bundle_loaded : load_bundle platform disk decoders options.bundle files ≡ ok bundle
    pub allowed : IsAllowed platform runtime inputs bundle

  decide_files-eq-ok :
      (prints : Bool) (d : Decision)
      → decide_files platform runtime disk decoders prints options files ≡ ok d
      → d.decision ≢ "REVIEW"
      → d.decision ≢ "REJECT"
      → IsPassed
  unfolding decide_files
  decide_files-eq-ok prints d h review reject =
      let (given, h1) =
        fail_if-eq-ok
          (options.artifact == ""
            || options.events == ""
            || options.provenance == ""
            || options.policy == ""
            || options.bundle == "")
          options_missing _ h in
      let (inputs, inputs_read, h2) =
        >>=-eq-ok
          (read_inputs platform disk options.artifact options.events options.provenance
            options.policy files)
          _ h1 in
      let (bundle, bundle_loaded, h3) =
        >>=-eq-ok (load_bundle platform disk decoders options.bundle files) _ h2 in
      let verdict = verify-IsVerdict platform runtime inputs bundle d h3 in
      let allow : d.decision ≡ "ALLOW" = ground arith in
      record {
        given = ground arith;
        inputs = inputs;
        bundle = bundle;
        inputs_read = inputs_read;
        bundle_loaded = bundle_loaded;
        allowed = (verify_allow_iff platform runtime inputs bundle).0 (d, h3, allow);
      }

  IsPassed-decide_files :
      (prints : Bool)
      → IsPassed
      → (d : Decision) × (decide_files platform runtime disk decoders prints options files ≡ ok d)
        × (d.decision ≡ "ALLOW")
  unfolding decide_files
  IsPassed-decide_files prints p =
      let (d, decided, allow) = (verify_allow_iff platform runtime p.inputs p.bundle).1 p.allowed in
      let given = p.given in (d, ground (arith, p.inputs_read, p.bundle_loaded, decided), allow)

allowed_status : (d : Decision) → d.decision ≡ "ALLOW" → decision_status true (ok d) ≡ 0
unfolding decision_status
allowed_status d h =
    let review = texts_differ "ALLOW" "REVIEW" refl in
    let reject = texts_differ "ALLOW" "REJECT" refl in ground arith

-- The command `rpf verify-fixture` exits with status 0 exactly when its options are given, the files
-- they name are read and the bundle is loaded, `Verify` finds everything on which an ALLOW depends,
-- and the decision can be printed: no error and no other decision passes for a success.
pub verify_command_zero :
    (platform : Platform) (runtime : Runtime) (disk : Disk) (decoders : Decoders) (prints : Bool)
    (options : Options) (files : Files)
    → (verify_command platform runtime disk decoders prints options files ≡ 0)
      ↔ ((prints ≡ true) × IsPassed platform runtime disk decoders options files)
unfolding verify_command
verify_command_zero platform runtime disk decoders prints options files = (
  λ h.
      let (printed, (d, decided, review, reject)) = decision_status-zero prints _ h in
      (
        printed,
        decide_files-eq-ok platform runtime disk decoders options files prints d decided review
            reject,
      ),
  λ (printed, p).
      let (d, decided, allow) =
        IsPassed-decide_files platform runtime disk decoders options files true p in
      rw (printed, decided) (allowed_status d allow),
)

-- ===== src/Verify/Allow.antt =====
-- When `Verify` of internal/rpf/verify.go decides ALLOW.
use runtime_provenance_firew.Base.{
  if◌then◌else◌, ◌∙◌, String, ◌≡◌, ◌≢◌, refl, sym, ◌↔◌, Bool, true, false, List, arith, ◌!=◌,
  bytes_eq, string_eq, ◌∙◌, Result, ok, err, ◌>>=◌, >>=-eq-ok, texts_differ, ap,
}
use runtime_provenance_firew.Model.{
  Event, Correlation, Policy, Decision, Statement, run_eq, source_eq,
}
use runtime_provenance_firew.Platform.{Platform}
use runtime_provenance_firew.Parse.{digest}
use runtime_provenance_firew.Documents.{decode_statement, decode_policy}
use runtime_provenance_firew.Documents.Checks.{decode_policy-IsPolicy}
use runtime_provenance_firew.Evidence.{Events, all}
use runtime_provenance_firew.Stream.{parse_event_stream}
use runtime_provenance_firew.Graph.{Runtime}
use runtime_provenance_firew.Provenance.{provenance_identity}
use runtime_provenance_firew.Assemble.{Inputs, Bundle, assemble}
use runtime_provenance_firew.Behavior.Precedence.{decide-allow_iff}
use runtime_provenance_firew.Verify.{reasons_of, other_artifact, decision_of, conclude, verify}
use runtime_provenance_firew.Behavior.Permitted.{IsStop}
use runtime_provenance_firew.Verify.Approved.{IsApproved, reasons_of_iff}

reject-ne-allow : ◌≢◌ {A = String} "REJECT" "ALLOW"
reject-ne-allow = texts_differ "REJECT" "ALLOW" refl

-- The form of `conclude`.
allow-through :
    (other : Bool) (m : Result Bundle) (f : Bundle → Decision) (refused d : Decision)
    → refused.decision ≡ "REJECT"
    → (if other then ok refused else (m >>= λ r. ok (f r))) ≡ ok d
    → d.decision ≡ "ALLOW"
    → (other ≡ false) × ((r : Bundle) × (m ≡ ok r) × (f r ≡ d))
allow-through true m f refused d rejects h allowed =
    let same : refused ≡ d = cc in
    absurd (reject-ne-allow (sym rejects ∙ ap (λ x. x.decision) same ∙ allowed))
allow-through false (ok r) f refused d rejects h allowed = (refl, (r, refl, cc))
allow-through false (err e) f refused d rejects h allowed = cc

module _ (platform : Platform) (runtime : Runtime) (inputs : Inputs) (bundle : Bundle) where
  -- The documents are accepted, the bundle names the artifact, and nothing speaks against it.
  pub record IsAllowed : Type 0 where
    pub events : Events
    pub policy : Policy
    pub provenance : Statement
    pub identity : Correlation
    pub recomputed : Bundle
    pub stream_read : parse_event_stream platform inputs.event_bytes ≡ ok events
    pub policy_read : decode_policy platform inputs.policy_bytes ≡ ok policy
    pub statement_read : decode_statement platform inputs.provenance_bytes ≡ ok provenance
    pub identified : provenance_identity platform provenance ≡ ok identity
    pub same_artifact : bundle.manifest.artifact.sha256 ≡ digest platform inputs.artifact_bytes
    pub assembled : assemble platform runtime inputs ≡ ok recomputed
    pub approved : IsApproved platform bundle recomputed identity policy (all events)

  conclude-allow :
      (events : Events) (policy : Policy) (identity : Correlation) (d : Decision)
      → conclude platform runtime inputs bundle events policy identity ≡ ok d
      → d.decision ≡ "ALLOW"
      → (bundle.manifest.artifact.sha256 ≡ digest platform inputs.artifact_bytes)
        × ((recomputed : Bundle) × (assemble platform runtime inputs ≡ ok recomputed)
            × (decision_of platform bundle recomputed identity policy (all events) ≡ d))
  unfolding conclude
  conclude-allow events policy identity d h allowed =
      let (named, found) =
        allow-through (bundle.manifest.artifact.sha256 != digest platform inputs.artifact_bytes)
          (assemble platform runtime inputs) _ (other_artifact platform bundle) d refl h allowed in
      (ground arith, found)

  decision_of_iff :
      (events : List Event) (policy : Policy) (identity : Correlation) (recomputed : Bundle)
      → IsStop policy.incomplete_decision
      → ((decision_of platform bundle recomputed identity policy events).decision ≡ "ALLOW")
        ↔ IsApproved platform bundle recomputed identity policy events
  unfolding decision_of
  decision_of_iff events policy identity recomputed stop =
      let clear = decide-allow_iff (reasons_of platform bundle recomputed identity policy events) in
      let approved = reasons_of_iff platform bundle recomputed identity policy events stop in
      (λ h. approved.0 (clear.0 h), λ h. clear.1 (approved.1 h))

  verify-IsAllowed :
      (d : Decision)
      → verify platform runtime inputs bundle ≡ ok d
      → d.decision ≡ "ALLOW"
      → IsAllowed
  unfolding verify
  verify-IsAllowed d h allowed =
      let (events, stream_read, h1) =
        >>=-eq-ok (parse_event_stream platform inputs.event_bytes) _ h in
      let (policy, policy_read, h2) = >>=-eq-ok (decode_policy platform inputs.policy_bytes) _ h1 in
      let (provenance, statement_read, h3) =
        >>=-eq-ok (decode_statement platform inputs.provenance_bytes) _ h2 in
      let (identity, identified, h4) = >>=-eq-ok (provenance_identity platform provenance) _ h3 in
      let (same_artifact, (recomputed, assembled, decided)) =
        conclude-allow events policy identity d h4 allowed in
      let stop =
        (decode_policy-IsPolicy platform inputs.policy_bytes policy policy_read).incomplete in
      record {
        events = events;
        policy = policy;
        provenance = provenance;
        identity = identity;
        recomputed = recomputed;
        stream_read = stream_read;
        policy_read = policy_read;
        statement_read = statement_read;
        identified = identified;
        same_artifact = same_artifact;
        assembled = assembled;
        approved =
            (decision_of_iff (all events) policy identity recomputed stop).0
              (ap (λ x. x.decision) decided ∙ allowed);
      }

  IsAllowed-verify :
      (a : IsAllowed)
      → verify platform runtime inputs bundle
        ≡ ok (decision_of platform bundle a.recomputed a.identity a.policy (all a.events))
  unfolding verify conclude
  IsAllowed-verify a = ground (
    arith, a.stream_read, a.policy_read, a.statement_read, a.identified, a.same_artifact,
    a.assembled,
  )

-- `Verify` returns ALLOW exactly when the four documents are accepted, the manifest names the
-- artifact's digest, the inputs assemble, graph, manifest and trace of the bundle have the canonical
-- bytes of the assembled ones, the provenance names the manifest's build and run, the evidence is
-- complete, the policy lists provider, builder and repository, and it permits every event.
pub verify_allow_iff :
    (platform : Platform) (runtime : Runtime) (inputs : Inputs) (bundle : Bundle)
    → ((d : Decision) × (verify platform runtime inputs bundle ≡ ok d) × (d.decision ≡ "ALLOW"))
      ↔ IsAllowed platform runtime inputs bundle
verify_allow_iff platform runtime inputs bundle = (
  λ (d, decided, allowed). verify-IsAllowed platform runtime inputs bundle d decided allowed,
  λ a. (
    decision_of platform bundle a.recomputed a.identity a.policy (all a.events),
    IsAllowed-verify platform runtime inputs bundle a,
    (decision_of_iff platform runtime inputs bundle (all a.events) a.policy a.identity a.recomputed
          (decode_policy-IsPolicy platform inputs.policy_bytes a.policy a.policy_read).incomplete).1
        a.approved,
  ),
)

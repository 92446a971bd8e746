-- ===== src/Verify.antt =====
-- `Verify` and `canonicalEqual` of internal/rpf/verify.go: the decision on a bundle.
pub mod Approved
pub mod Allow
pub mod Assembled
use runtime_provenance_firew.Base.{
  String, ◌<>◌, ◌||◌, Bool, true, false, not, List, [], ◌∷◌, ◌++◌, ◌==◌, ◌!=◌, bytes_eq, string_eq,
  contains, if◌then◌else◌, Result, ok, err, ◌>>=◌,
}
use runtime_provenance_firew.Json.{Value}
use runtime_provenance_firew.Model.{Event, Correlation, Policy, Reason, Decision, run_eq}
use runtime_provenance_firew.Model.Encoding.{graph_value, manifest_value, statement_value}
use runtime_provenance_firew.Platform.{Platform, Bytes}
use runtime_provenance_firew.Parse.{canonical, digest}
use runtime_provenance_firew.Documents.{decode_statement, decode_policy}
use runtime_provenance_firew.Evidence.{Events, all}
use runtime_provenance_firew.Stream.{parse_event_stream}
use runtime_provenance_firew.Graph.{Runtime}
use runtime_provenance_firew.Loss.{completeness}
use runtime_provenance_firew.Provenance.{provenance_identity}
use runtime_provenance_firew.Assemble.{Inputs, Bundle, assemble}
use runtime_provenance_firew.Behavior.{reason_if, behavior_reasons, decide}

-- `errA == nil && errB == nil && bytes.Equal(a, b)`
abbrev pub equal_texts : Result Bytes → Result Bytes → Bool
equal_texts (ok a) (ok b) = a == b
equal_texts (ok a) (err e) = false
equal_texts (err e) b = false

module _ (platform : Platform) where
  unfoldable pub canonical_equal : Value → Value → Bool
  canonical_equal left right = equal_texts (canonical platform left) (canonical platform right)

  -- The reasons of `Verify`, in the order in which it appends them.
  unfoldable pub reasons_of : Bundle → Bundle → Correlation → Policy → List Event → List Reason
  reasons_of bundle recomputed identity policy events =
      reason_if (not (canonical_equal (graph_value bundle.graph) (graph_value recomputed.graph)))
        "RPF-INTEGRITY-001" "REJECT" "execution graph differs from event-derived graph" 0
      ++ (reason_if
            (not (
              canonical_equal (manifest_value bundle.manifest)
                (manifest_value recomputed.manifest)))
            "RPF-INTEGRITY-002" "REJECT" "evidence manifest differs from recomputed commitments" 0
          ++ (reason_if
                (not (
                  canonical_equal (statement_value bundle.runtime_trace)
                    (statement_value recomputed.runtime_trace)))
                "RPF-INTEGRITY-003" "REJECT"
                "runtime trace differs from artifact/evidence/provenance binding" 0
              ++ (reason_if
                    (identity.build_id != bundle.manifest.build_id
                      || identity.run_identity != bundle.manifest.run_identity)
                    "RPF-IDENTITY-001" "REJECT"
                    "SLSA provenance identity differs from runtime evidence" 0
                  ++ (reason_if (completeness bundle.manifest != "complete") "RPF-EVIDENCE-001"
                        policy.incomplete_decision
                        ("runtime evidence is " <> completeness bundle.manifest) 0
                      ++ (reason_if (identity.run_identity.provider != policy.expected_provider)
                            "RPF-CI-001" "REJECT" "CI provider is not authorized by policy" 0
                          ++ (reason_if
                                (not (contains policy.allowed_builder_ids identity.builder_id))
                                "RPF-BUILDER-001" "REJECT"
                                "provenance builder identity is not authorized by policy" 0
                              ++ (reason_if
                                    (not (
                                      contains policy.allowed_repositories
                                        identity.source.repository))
                                    "RPF-SOURCE-001" "REJECT"
                                    "source repository identity is not authorized by policy" 0
                                  ++ behavior_reasons events policy)))))))

  -- The decision where the bundle names another artifact.
  abbrev pub other_artifact : Bundle → Decision
  other_artifact bundle = record {
    decision = "REJECT";
    completeness = completeness bundle.manifest;
    reasons =
        record {
          code = "RPF-ARTIFACT-001";
          effect = "REJECT";
          message = "artifact digest does not match evidence manifest";
          sequence = 0;
        }
        ∷ [];
  }

  unfoldable pub decision_of : Bundle → Bundle → Correlation → Policy → List Event → Decision
  unfolding reasons_of
  decision_of bundle recomputed identity policy events = record {
    decision = decide (reasons_of bundle recomputed identity policy events);
    completeness = completeness bundle.manifest;
    reasons = reasons_of bundle recomputed identity policy events;
  }

module _ (platform : Platform) (runtime : Runtime) where
  -- `Verify` from its test of the artifact on.
  unfoldable pub conclude : Inputs → Bundle → Events → Policy → Correlation → Result Decision
  unfolding decision_of
  conclude inputs bundle events policy identity =
      if bundle.manifest.artifact.sha256 != digest platform inputs.artifact_bytes
      then ok (other_artifact platform bundle)
      else do
        recomputed ← assemble platform runtime inputs
        ok (decision_of platform bundle recomputed identity policy (all events))

  unfoldable pub verify : Inputs → Bundle → Result Decision
  unfolding conclude
  verify inputs bundle = do
    events ← parse_event_stream platform inputs.event_bytes
    policy ← decode_policy platform inputs.policy_bytes
    provenance ← decode_statement platform inputs.provenance_bytes
    identity ← provenance_identity platform provenance
    conclude inputs bundle events policy identity

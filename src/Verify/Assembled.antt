-- ===== src/Verify/Assembled.antt =====
-- `Verify` of internal/rpf/verify.go on a bundle that `Assemble` made of the same inputs.
use runtime_provenance_firew.Base.{
  ◌≡◌, ◌↔◌, sym, ap, subst₂, ◌∙◌, String, true, contains, string_eq, ok, >>=-eq-ok,
}
use runtime_provenance_firew.Json.{Value}
use runtime_provenance_firew.Model.{Correlation, Policy, Decision, Statement}
use runtime_provenance_firew.Model.Encoding.{graph_value, manifest_value, statement_value}
use runtime_provenance_firew.Platform.{Platform, Bytes}
use runtime_provenance_firew.Parse.{canonical, canonical_digest}
use runtime_provenance_firew.Documents.{decode_statement, decode_policy}
use runtime_provenance_firew.Evidence.{Events, all}
use runtime_provenance_firew.Stream.{parse_event_stream}
use runtime_provenance_firew.Graph.{Runtime}
use runtime_provenance_firew.Graph.Determinism.{IsGo}
use runtime_provenance_firew.Loss.{completeness}
use runtime_provenance_firew.Provenance.{provenance_identity}
use runtime_provenance_firew.Assemble.{Inputs, Bundle, assemble}
use runtime_provenance_firew.Assemble.Commitments.{assemble_binds}
use runtime_provenance_firew.Assemble.Determinism.{assemble-agree}
use runtime_provenance_firew.Behavior.Permitted.{AllPermitted}
use runtime_provenance_firew.Verify.{verify}
use runtime_provenance_firew.Verify.Allow.{IsAllowed, verify_allow_iff}

-- What the policy and the evidence alone decide.
pub record IsAcceptable (bundle : Bundle) (events : Events) (policy : Policy)
    (identity : Correlation) : Type 0 where
  pub complete : completeness bundle.manifest ≡ "complete"
  pub provider : identity.run_identity.provider ≡ policy.expected_provider
  pub builder : contains policy.allowed_builder_ids identity.builder_id ≡ true
  pub repository : contains policy.allowed_repositories identity.source.repository ≡ true
  pub permitted : AllPermitted policy (all events)

canonical_digest-canonical :
    (platform : Platform) (v : Value) (hash : String)
    → canonical_digest platform v ≡ ok hash
    → (raw : Bytes) × (canonical platform v ≡ ok raw)
unfolding canonical_digest
canonical_digest-canonical platform v hash h =
    let (raw, written, _) = >>=-eq-ok (canonical platform v) _ h in (raw, written)

module _ (platform : Platform) (runtime : Runtime) (inputs : Inputs) (bundle : Bundle)
    (events : Events) (policy : Policy) (provenance : Statement) (identity : Correlation)
    (trace : Bytes) (assembled : assemble platform runtime inputs ≡ ok bundle)
    (stream_read : parse_event_stream platform inputs.event_bytes ≡ ok events)
    (policy_read : decode_policy platform inputs.policy_bytes ≡ ok policy)
    (statement_read : decode_statement platform inputs.provenance_bytes ≡ ok provenance)
    (identified : provenance_identity platform provenance ≡ ok identity)
    (traced : canonical platform (statement_value bundle.runtime_trace) ≡ ok trace) where
  IsAcceptable-IsAllowed :
      IsAcceptable bundle events policy identity → IsAllowed platform runtime inputs bundle
  IsAcceptable-IsAllowed good =
      let a = assemble_binds platform runtime inputs bundle assembled in
      let statements : a.provenance ≡ provenance = cc (a.statement_read, statement_read) in
      let same : a.identity ≡ identity =
        cc (a.identified, identified, ap (provenance_identity platform) statements) in
      let (graph, graph_written) =
        canonical_digest-canonical platform (graph_value bundle.graph) _ a.commits.graph_hash in
      let (manifest, manifest_written) =
        canonical_digest-canonical platform (manifest_value bundle.manifest) _
          a.commits.manifest_hashed in
      record {
        events = events;
        policy = policy;
        provenance = provenance;
        identity = identity;
        recomputed = bundle;
        stream_read = stream_read;
        policy_read = policy_read;
        statement_read = statement_read;
        identified = identified;
        same_artifact = a.commits.artifact;
        assembled = assembled;
        approved = record {
          graph = (graph, graph_written, graph_written);
          manifest = (manifest, manifest_written, manifest_written);
          trace = (trace, traced, traced);
          build_id = sym (a.commits.build_id ∙ ap (λ i. i.build_id) same);
          run_identity = sym (a.commits.run_identity ∙ ap (λ i. i.run_identity) same);
          complete = good.complete;
          provider = good.provider;
          builder = good.builder;
          repository = good.repository;
          permitted = good.permitted;
        };
      }

  IsAllowed-IsAcceptable :
      IsAllowed platform runtime inputs bundle → IsAcceptable bundle events policy identity
  IsAllowed-IsAcceptable a =
      let streams : a.events ≡ events = cc (a.stream_read, stream_read) in
      let policies : a.policy ≡ policy = cc (a.policy_read, policy_read) in
      let statements : a.provenance ≡ provenance = cc (a.statement_read, statement_read) in
      let same : a.identity ≡ identity =
        cc (a.identified, identified, ap (provenance_identity platform) statements) in
      record {
        complete = a.approved.complete;
        provider = cc (a.approved.provider, same, policies);
        builder = cc (a.approved.builder, same, policies);
        repository = cc (a.approved.repository, same, policies);
        permitted =
            subst₂ (λ p (es : Events). AllPermitted p (all es)) policies streams
              a.approved.permitted;
      }

-- On a bundle that `Assemble` made of the same inputs, whose trace has canonical bytes, `Verify`
-- finds nothing wrong with the binding, even where Go orders its map and arranges equal items in
-- another way than it did for `Assemble`: it returns ALLOW exactly when the evidence is complete, the
-- policy lists provider, builder and repository of the identity, and it permits every event.
pub assembled_bundle_allowed_iff :
    (platform : Platform) (r s : Runtime) (inputs : Inputs) (bundle : Bundle) (events : Events)
    (policy : Policy) (provenance : Statement) (identity : Correlation) (trace : Bytes)
    → IsGo r
    → IsGo s
    → assemble platform r inputs ≡ ok bundle
    → parse_event_stream platform inputs.event_bytes ≡ ok events
    → decode_policy platform inputs.policy_bytes ≡ ok policy
    → decode_statement platform inputs.provenance_bytes ≡ ok provenance
    → provenance_identity platform provenance ≡ ok identity
    → canonical platform (statement_value bundle.runtime_trace) ≡ ok trace
    → ((d : Decision) × (verify platform s inputs bundle ≡ ok d) × (d.decision ≡ "ALLOW"))
      ↔ IsAcceptable bundle events policy identity
assembled_bundle_allowed_iff platform r s inputs bundle events policy provenance identity trace go
      go' assembled stream_read policy_read statement_read identified traced =
    let allow = verify_allow_iff platform s inputs bundle in
    let again = sym (assemble-agree platform r s go go' inputs) ∙ assembled in
    (
      λ d.
          IsAllowed-IsAcceptable platform s inputs bundle events policy provenance identity trace
            again stream_read policy_read statement_read identified traced (allow.0 d),
      λ good. allow.1 (
          IsAcceptable-IsAllowed platform s inputs bundle events policy provenance identity trace
            again stream_read policy_read statement_read identified traced good),
    )

-- ===== src/Assemble/Determinism.antt =====
-- `Assemble` of internal/rpf/verify.go does not depend on the order in which Go ranges over a map and
-- arranges equal items.
use runtime_provenance_firew.Base.{
  ◌≡◌, ◌!=◌, refl, ap, ◌||◌, length, ltb, nat_eq, ◌==◌, string_eq, Result, ok, err, ◌>>=◌, fail_if,
  wrap, >>=-eq-ok, fail_if-eq-ok, stream_size, in_policy, in_provenance, provenance_predicate,
}
use runtime_provenance_firew.Model.{Correlation, ExecutionGraph, slsa_predicate}
use runtime_provenance_firew.Model.Encoding.{graph_value, manifest_value, correlation_value}
use runtime_provenance_firew.Platform.{Platform, Bytes}
use runtime_provenance_firew.Parse.{canonical_digest, to_map, max_document_bytes}
use runtime_provenance_firew.Documents.{decode_statement, decode_policy}
use runtime_provenance_firew.Evidence.{Events, verify_chain}
use runtime_provenance_firew.Stream.{parse_event_stream, read_events, split_lines, non_empty}
use runtime_provenance_firew.Graph.{Runtime}
use runtime_provenance_firew.Graph.Determinism.{IsGo, build_graph_deterministic}
use runtime_provenance_firew.Provenance.{provenance_identity}
use runtime_provenance_firew.Assemble.{
  Inputs, check_binding, compose, assemble, manifest_of, correlation_of, trace_of,
}

-- A stream that is read has passed `verifyChain`.
parse_event_stream-verify_chain :
    (platform : Platform) (raw : Bytes) (events : Events)
    → parse_event_stream platform raw ≡ ok events
    → verify_chain platform events ≡ ok tt
unfolding parse_event_stream
parse_event_stream-verify_chain platform raw events h =
    let (_, h1) =
      fail_if-eq-ok (length raw == 0 || ltb max_document_bytes (length raw)) stream_size _ h in
    let (list, read, h2) = >>=-eq-ok (read_events platform 0 (split_lines raw)) _ h1 in
    let (found, some_found, h3) = >>=-eq-ok (non_empty list) _ h2 in
    let (_, verified, h4) = >>=-eq-ok (verify_chain platform found) _ h3 in
    let same : found ≡ events = cc in cc

-- What follows a result is one where it is one on its value.
pub >>=-agree :
    {A : Type 0} {B : Type 0} (m : Result A) (f g : A → Result B)
    → ((a : A) → m ≡ ok a → f a ≡ g a)
    → (m >>= f) ≡ (m >>= g)
>>=-agree (ok a) f g h = h a refl
>>=-agree (err e) f g h = refl

module _ (platform : Platform) (r s : Runtime) (go : IsGo r) (go' : IsGo s) (inputs : Inputs) where
  compose-agree :
      (events : Events) (identity : Correlation)
      → verify_chain platform events ≡ ok tt
      → compose platform r inputs events identity ≡ compose platform s inputs events identity
  unfolding compose
  compose-agree events identity verified =
      ap
        (λ (m : Result ExecutionGraph). do
          graph ← m
          graph_hash ← canonical_digest platform (graph_value graph)
          let manifest = manifest_of platform inputs identity events graph_hash
          manifest_hash ← canonical_digest platform (manifest_value manifest)
          correlation_map ← to_map platform (
              correlation_value
                (correlation_of platform inputs identity manifest manifest_hash graph_hash))
          ok (record {
            graph = graph;
            manifest = manifest;
            runtime_trace = trace_of platform inputs identity events graph correlation_map;
          }))
        (build_graph_deterministic platform r s go go' events verified)

  -- `Assemble` gives one bundle or error.
  pub assemble-agree : assemble platform r inputs ≡ assemble platform s inputs
  unfolding assemble
  assemble-agree = >>=-agree (parse_event_stream platform inputs.event_bytes) _ _ λ events parsed.
      let verified = parse_event_stream-verify_chain platform inputs.event_bytes events parsed in
      >>=-agree (wrap in_policy (decode_policy platform inputs.policy_bytes)) _ _ λ policy read.
        >>=-agree (wrap in_provenance (decode_statement platform inputs.provenance_bytes)) _ _
          λ provenance accepted.
            >>=-agree (fail_if (provenance.predicate_type != slsa_predicate) provenance_predicate) _
              _
              λ unit kind.
                >>=-agree (provenance_identity platform provenance) _ _ λ identity identified.
                  >>=-agree (check_binding platform inputs events provenance identity) _ _
                    λ unit binds. compose-agree events identity verified

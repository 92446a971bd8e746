-- ===== src/Tests/Assembled.antt =====
-- `Assemble` and `Verify` at a stream of one event and the statement of the local fixture, on a
-- platform that answers every call alike.
use native.Mathlib.Decide.{ℕ_discrete}
use runtime_provenance_firew.Base.{
  ◌≡◌, ◌!=◌, false, ◌↔◌, refl, some, [], ◌∷◌, string_eq, nat_eq, string_dec, ok,
}
use runtime_provenance_firew.Base.Equality.{bytes_eq}
use runtime_provenance_firew.Json.{str, fields, end, lookup, replace, delete}
use runtime_provenance_firew.Model.{
  Event, Statement, Correlation, Decision, slsa_predicate, zero_hash, source_eq, build_eq,
  sensor_eq, run_eq, node_eq,
}
use runtime_provenance_firew.Model.Encoding.{statement_value}
use runtime_provenance_firew.Platform.{Platform, eof}
use runtime_provenance_firew.Parse.{
  canonical, canonical_digest, decode_strict, to_map, validate_json_shape, walk_json, require_eof,
}
use runtime_provenance_firew.Documents.{
  decode_statement, decode_policy, check_statement, check_policy,
}
use runtime_provenance_firew.Evidence.{
  Events, event_digest, committed_bytes, committed_body, strip_hash, validate_event, is_allowed,
  lacks_identity, verify_chain, verify_from,
}
use runtime_provenance_firew.Stream.{
  parse_event_stream, read_event, read_events, split_lines, drop_cr, non_empty,
}
use runtime_provenance_firew.Graph.{build_graph, collect, find_node, put_node}
use runtime_provenance_firew.Provenance.{
  provenance_identity, check_identity, is_incomplete, resolved_source_matches,
}
use runtime_provenance_firew.Assemble.{
  Inputs, Bundle, assemble, check_binding, compose, verify_artifact_observation, subject_matches,
  digest_at,
}
use runtime_provenance_firew.Assemble.Commitments.{IsAssembled, assemble_binds}
use runtime_provenance_firew.LocalProvenance.{
  local_identity, local_definition, local_details, local_statement,
}
use runtime_provenance_firew.Verify.{verify}
use runtime_provenance_firew.Verify.Assembled.{IsAcceptable, assembled_bundle_allowed_iff}
use runtime_provenance_firew.Tests.Sorts.{runtime, runtime-IsGo, keyed_runtime, keyed_runtime-IsGo}
use runtime_provenance_firew.Tests.Documents.{policy}
use runtime_provenance_firew.Tests.Sample.{platform_with, started, compiler, source}
use runtime_provenance_firew.Tests.Sensor.{plain_platform}

abbrev event : Event
event = record started {
  operation = "artifact_finalized";
  process = some compiler;
  resource = some (fields (("sha256", str "d") ∷ []));
  integrity = record { previous_event_hash = zero_hash; event_hash = "sha256:d" };
}

abbrev events : Events
events = record { first = event; rest = [] }

abbrev identity : Correlation
identity = local_identity event source

abbrev provenance : Statement
provenance = local_statement plain_platform "a.out" (3 ∷ []) events source end

abbrev platform : Platform
platform = record plain_platform {
  decode_event = λ raw. some (event, eof);
  decode_statement = λ raw. some (provenance, eof);
  decode_correlation = λ raw. some (identity, eof);
  decode_policy = λ raw. some (policy, eof);
}

abbrev inputs : Inputs
inputs = record {
  artifact_bytes = 3 ∷ [];
  artifact_name = "a.out";
  event_bytes = 1 ∷ 10 ∷ [];
  provenance_bytes = 1 ∷ [];
  policy_bytes = 1 ∷ [];
}

stream_read : parse_event_stream platform inputs.event_bytes ≡ ok events
unfolding parse_event_stream read_event read_events split_lines drop_cr non_empty verify_chain
    verify_from event_digest committed_bytes committed_body strip_hash validate_event is_allowed
    lacks_identity canonical decode_strict validate_json_shape walk_json require_eof lookup replace
    delete string_eq string_dec nat_eq ℕ_discrete bytes_eq build_eq sensor_eq platform_with
stream_read = refl

policy_read : decode_policy platform inputs.policy_bytes ≡ ok policy
unfolding decode_policy check_policy decode_strict validate_json_shape walk_json require_eof
    string_eq string_dec nat_eq ℕ_discrete
policy_read = refl

statement_read : decode_statement platform inputs.provenance_bytes ≡ ok provenance
unfolding decode_statement check_statement decode_strict validate_json_shape walk_json require_eof
    string_eq string_dec nat_eq ℕ_discrete local_statement
statement_read = refl

identified : provenance_identity platform provenance ≡ ok identity
unfolding provenance_identity check_identity is_incomplete resolved_source_matches canonical
    decode_strict validate_json_shape walk_json require_eof lookup string_eq string_dec nat_eq
    ℕ_discrete local_statement local_definition local_details local_identity
identified = refl

composed : (b : Bundle) × (compose platform runtime inputs events identity ≡ ok b)
unfolding compose build_graph collect find_node put_node canonical_digest canonical to_map
    decode_strict validate_json_shape walk_json require_eof lookup string_eq string_dec nat_eq
    ℕ_discrete node_eq local_identity
composed = (_, refl)

bound : check_binding platform inputs events provenance identity ≡ ok tt
unfolding check_binding subject_matches digest_at verify_artifact_observation lookup string_eq
    string_dec nat_eq ℕ_discrete source_eq local_statement local_identity
bound = refl

same_predicate : (provenance.predicate_type != slsa_predicate) ≡ false
unfolding string_eq string_dec local_statement
same_predicate = refl

assembled : (b : Bundle) × (assemble platform runtime inputs ≡ ok b)
unfolding assemble
assembled = (
  composed.0,
  rw (stream_read, policy_read, statement_read, same_predicate, identified, bound) composed.1,
)

traced : canonical platform (statement_value assembled.0.runtime_trace) ≡ ok (1 ∷ [])
unfolding canonical
traced = refl

assembled_bundle_allowed_iff_example :
    ((d : Decision) × (verify platform keyed_runtime inputs assembled.0 ≡ ok d)
      × (d.decision ≡ "ALLOW"))
    ↔ IsAcceptable assembled.0 events policy identity
assembled_bundle_allowed_iff_example =
    assembled_bundle_allowed_iff platform runtime keyed_runtime inputs assembled.0 events policy
      provenance identity (1 ∷ []) runtime-IsGo keyed_runtime-IsGo assembled.1 stream_read
      policy_read statement_read identified traced

assemble_binds_example : IsAssembled platform runtime inputs assembled.0
assemble_binds_example = assemble_binds platform runtime inputs assembled.0 assembled.1

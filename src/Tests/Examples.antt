-- ===== src/Tests/Examples.antt =====
-- The theorems at concrete inputs.
use runtime_provenance_firew.Base.{err, out_of_fuel, ◌≢◌}
use runtime_provenance_firew.Base.{
  arith, ◌≡◌, ◌↔◌, refl, ok, List, [], ◌∷◌, map, true, false, ◌⊎◌, none, some, ◌<◌, ◌^◌,
  chain_owned, string_eq, string_dec, nat_eq,
}
use runtime_provenance_firew.Base.Equality.{bytes_eq}
use native.Mathlib.Decide.{ℕ_discrete}
use runtime_provenance_firew.Json.{generic, Value, Fields, lookup, lookup_in, as_object}
use runtime_provenance_firew.Model.{Manifest, Loss, Reason, Decision, zero_hash, build_identity_key}
use runtime_provenance_firew.Model.Encoding.{event_value}
use runtime_provenance_firew.Platform.{
  Platform, Bytes, next, open_brace, close_brace, open_bracket, close_bracket, text, scalar, eof,
}
use runtime_provenance_firew.Parse.Fuel.{validate_json_shape_terminates}
use runtime_provenance_firew.Platform.Laws.{IsJson}
use runtime_provenance_firew.Parse.{
  canonical, decode_strict, max_document_bytes, validate_json_shape, walk_json, require_eof,
}
use runtime_provenance_firew.Documents.{check_policy}
use runtime_provenance_firew.Documents.Checks.{IsPolicy, check_policy_iff}
use runtime_provenance_firew.Evidence.{all, verify_chain, validate_event}
use runtime_provenance_firew.Evidence.Body.{form}
use runtime_provenance_firew.Evidence.Validation.{IsWellFormed, validate_event_iff}
use runtime_provenance_firew.Evidence.Linkage.{IsRun, verify_chain_iff}
use runtime_provenance_firew.Evidence.Tamper.{Collision, tamper_evidence}
use runtime_provenance_firew.Chain.{append}
use runtime_provenance_firew.Chain.Append.{append_failed, stamped, IsStamped}
use runtime_provenance_firew.Chain.Verified.{AllValid, written_chain_verifies}
use runtime_provenance_firew.Graph.{build_graph}
use runtime_provenance_firew.Graph.Determinism.{build_graph_deterministic}
use runtime_provenance_firew.Loss.{completeness}
use runtime_provenance_firew.Loss.Completeness.{
  IsKnown, NoLoss, completeness_iff, wrapped_loss_is_complete,
}
use runtime_provenance_firew.Provenance.{
  provenance_identity, check_identity, is_incomplete, resolved_source_matches,
}
use runtime_provenance_firew.Provenance.Agreement.{Agrees, provenance_identity-Agrees}
use runtime_provenance_firew.Behavior.{decide, behavior_reasons}
use runtime_provenance_firew.Behavior.Precedence.{HasEffect, decide-reject_iff, decide-allow_iff}
use runtime_provenance_firew.Behavior.Permitted.{IsClear, AllPermitted, behavior_reasons_iff}
use runtime_provenance_firew.Assemble.{Inputs, Bundle}
use runtime_provenance_firew.Verify.{verify}
use runtime_provenance_firew.Verify.Allow.{IsAllowed, verify_allow_iff}
use runtime_provenance_firew.Tests.Sorts.{runtime, runtime-IsGo, keyed_runtime, keyed_runtime-IsGo}
use runtime_provenance_firew.Tests.Sample.{
  chain_platform, platform_with, platform_with-IsJson, new_chain, build, sensor,
}
use runtime_provenance_firew.Tests.Documents.{platform, policy, statement, identity}
use runtime_provenance_firew.Chain.Parsed.{output, written_stream_parses}
use runtime_provenance_firew.Stream.{parse_event_stream}
use runtime_provenance_firew.Stream.Written.{settled, IsLineJson}
use runtime_provenance_firew.Tests.Runs.{both_written, output_small, events-ReadsBack}
use runtime_provenance_firew.Tests.Sample.{platform_with-IsLineJson, started, finished}
use runtime_provenance_firew.Tests.Runs.{
  events, line, first_observation, events_verify, events-Readable, events-Writes, chain_made,
  started_refused, started_appended,
}
use runtime_provenance_firew.Tests.Codec.{
  write, write_text, read, read_text, read_value, char_of, char_from, in_range, are_less, is_less,
}

chain_platform-IsJson : IsJson chain_platform
chain_platform-IsJson = platform_with-IsJson _ [] [] []

chain_platform-IsLineJson : IsLineJson chain_platform
chain_platform-IsLineJson = platform_with-IsLineJson _ [] [] []

verify_chain_iff_example :
    (verify_chain chain_platform events ≡ ok tt)
    ↔ IsRun chain_platform build sensor 0 zero_hash 0 (all events)
verify_chain_iff_example = verify_chain_iff chain_platform events

validate_event_iff_example : (validate_event started ≡ ok tt) ↔ IsWellFormed started
validate_event_iff_example = validate_event_iff started

-- A platform whose decoder yields the tokens of an object that holds an array.
abbrev nested_platform : Platform
nested_platform = record chain_platform {
  tokens = λ raw. next open_brace (
      next (text "a")
        (next open_bracket (next scalar (next close_bracket (next close_brace eof)))));
}

validate_json_shape_terminates_example :
    validate_json_shape nested_platform (1 ∷ []) ≢ err out_of_fuel
validate_json_shape_terminates_example = validate_json_shape_terminates nested_platform (1 ∷ [])

tamper_evidence_example :
    (map (λ e. form chain_platform (event_value e)) (all events)
      ≡ map (λ e. form chain_platform (event_value e)) (all events))
    ⊎ Collision chain_platform
tamper_evidence_example =
    tamper_evidence chain_platform chain_platform-IsJson events events events_verify events_verify
      (omega arith) (omega arith) refl

append_failed_example : (append chain_platform new_chain started).0 ≡ new_chain
append_failed_example =
    append_failed chain_platform new_chain started chain_owned (omega arith) started_refused

stamped_example : IsStamped chain_platform new_chain first_observation started
stamped_example =
    stamped chain_platform new_chain first_observation started (line started) started_appended

written_chain_verifies_example :
    AllValid (all events) × (verify_chain chain_platform events ≡ ok tt)
written_chain_verifies_example =
    written_chain_verifies chain_platform chain_platform-IsJson build sensor new_chain events
      chain_made events-Writes (omega arith) (omega arith, (omega arith, tt)) events-Readable

build_graph_deterministic_example :
    build_graph chain_platform runtime (all events)
    ≡ build_graph chain_platform keyed_runtime (all events)
build_graph_deterministic_example =
    build_graph_deterministic chain_platform runtime keyed_runtime runtime-IsGo keyed_runtime-IsGo
      events events_verify

abbrev manifest : Manifest
manifest = record {
  schema_version = "0.1";
  build_id = "build-1";
  run_identity = identity.run_identity;
  source = identity.source;
  event_stream = record { sha256 = "1"; first_sequence = 1; last_sequence = 2; event_count = 2 };
  loss = record {
    kernel_reserve = 0;
    kernel_correlation = 0;
    decode = 0;
    queue = 0;
    persistence = 0;
    counter_read_error = false;
  };
  lifecycle = record { started = true; finalized = true };
  execution_graph_sha256 = "2";
  artifact = record { name = "a.out"; sha256 = "162" };
  policy_sha256 = "21";
  sensor_config_sha256 = "d1";
}

completeness_iff_example :
    (completeness manifest ≡ "complete") ↔ (IsKnown manifest × NoLoss manifest.loss)
completeness_iff_example = completeness_iff manifest (omega arith)

wrapped_loss_is_complete_example :
    (loss : Loss) × (loss.kernel_reserve < 2 ^ 63)
    × (loss.kernel_correlation < 2 ^ 63)
    × (loss.decode < 2 ^ 63)
    × (loss.queue < 2 ^ 63)
    × (loss.persistence < 2 ^ 63)
    × (¬ NoLoss loss)
    × (completeness (record manifest { loss = loss }) ≡ "complete")
wrapped_loss_is_complete_example =
    wrapped_loss_is_complete manifest
      (record { started = refl; finalized = refl; counters_read = refl })

check_policy_iff_example : (check_policy policy ≡ ok tt) ↔ IsPolicy policy
check_policy_iff_example = check_policy_iff policy

abbrev reasons : List Reason
reasons =
    record { code = "RPF-PROCESS-001"; effect = "REVIEW"; message = "m"; sequence = 2 }
    ∷ record { code = "RPF-EGRESS-001"; effect = "REJECT"; message = "m"; sequence = 3 }
    ∷ []

decide-reject_iff_example : (decide reasons ≡ "REJECT") ↔ HasEffect "REJECT" reasons
decide-reject_iff_example = decide-reject_iff reasons

decide-allow_iff_example :
    (decide reasons ≡ "ALLOW")
    ↔ ((HasEffect "REJECT" reasons → ⊥) × (HasEffect "REVIEW" reasons → ⊥))
decide-allow_iff_example = decide-allow_iff reasons

behavior_reasons_iff_example :
    IsClear (behavior_reasons (all events) policy) ↔ AllPermitted policy (all events)
behavior_reasons_iff_example = behavior_reasons_iff policy (all events)

abbrev inputs : Inputs
inputs = record {
  artifact_bytes = 1 ∷ 2 ∷ 3 ∷ [];
  artifact_name = "a.out";
  event_bytes = line started;
  provenance_bytes = 20 ∷ [];
  policy_bytes = 21 ∷ [];
}

abbrev bundle : Bundle
bundle = record {
  graph = record { schema_version = "0.1"; build_id = "build-1"; nodes = none; edges = none };
  manifest = manifest;
  runtime_trace = statement;
}

verify_allow_iff_example :
    ((d : Decision) × (verify platform runtime inputs bundle ≡ ok d) × (d.decision ≡ "ALLOW"))
    ↔ IsAllowed platform runtime inputs bundle
verify_allow_iff_example = verify_allow_iff platform runtime inputs bundle

identified : provenance_identity platform statement ≡ ok identity
unfolding provenance_identity check_identity is_incomplete resolved_source_matches canonical
    decode_strict validate_json_shape walk_json require_eof lookup generic platform_with read_value
    read read_text write write_text char_of char_from in_range are_less is_less string_eq nat_eq
    bytes_eq string_dec ℕ_discrete
identified = refl

provenance_identity-Agrees_example :
    (definition internal : Fields) × (v : Value) × (raw : Bytes) × (as_object
        (lookup_in statement.predicate "buildDefinition")
      ≡ some definition)
    × (as_object (lookup "internalParameters" definition) ≡ some internal)
    × (lookup build_identity_key internal ≡ some v)
    × (canonical platform v ≡ ok raw)
    × (decode_strict platform platform.decode_correlation raw max_document_bytes ≡ ok identity)
    × Agrees identity definition statement.predicate
provenance_identity-Agrees_example =
    provenance_identity-Agrees platform statement identity identified

written_stream_parses_example :
    parse_event_stream chain_platform (output chain_platform both_written)
    ≡ ok (record {
      first = settled chain_platform started;
      rest = settled chain_platform finished ∷ [];
    })
written_stream_parses_example =
    written_stream_parses chain_platform chain_platform-IsJson chain_platform-IsLineJson build
      sensor new_chain events chain_made both_written (omega arith) (omega arith, (omega arith, tt))
      events-Readable events-ReadsBack output_small

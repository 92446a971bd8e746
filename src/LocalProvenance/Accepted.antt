-- ===== src/LocalProvenance/Accepted.antt =====
-- What `provenanceIdentity` and `Assemble` of internal/rpf/verify.go make of the statement of
-- internal/rpf/local_provenance.go.
use runtime_provenance_firew.Base.{
  ap, texts_differ, wrap, in_identity, String, ◌≡◌, ◌≢◌, refl, sym, ◌∙◌, ◌||◌, length, ◌==◌, ◌!=◌,
  nat_eq, string_eq, string_dec, ok, arith, fail_if-eq-ok, >>=-eq-ok, local_inputs, local_source,
  true, false, not, if◌then◌else◌, fail_if, ◌>>◌, ◌>>=◌, identity_incomplete, external_conflict,
  dependencies_omit, details_conflict,
}
use runtime_provenance_firew.Json.{object, Fields, lookup}
use runtime_provenance_firew.Model.{SourceIdentity, Statement, Correlation, source_eq}
use runtime_provenance_firew.Model.Encoding.{correlation_value}
use runtime_provenance_firew.Platform.{Platform, Bytes}
use runtime_provenance_firew.Parse.{digest, to_map, canonical, decode_strict, max_document_bytes}
use runtime_provenance_firew.Documents.{elements}
use runtime_provenance_firew.Evidence.{Events, all, final}
use runtime_provenance_firew.Provenance.{
  provenance_identity, check_identity, is_incomplete, resolved_source_matches,
}
use runtime_provenance_firew.Assemble.{
  Inputs, check_binding, subject_matches, digest_at, verify_artifact_observation,
}
use runtime_provenance_firew.LocalProvenance.{
  local_identity, local_definition, local_details, local_statement, create_local_fixture_provenance,
  local_builder_id,
}

-- The map that `toMap` makes of an identity has canonical bytes that decode to the identity.
abbrev pub ReadsIdentity : Platform → Correlation → Type 0
ReadsIdentity platform identity =
    (m : Fields)
    → to_map platform (correlation_value identity) ≡ ok m
    → (raw : Bytes) × (canonical platform (object m) ≡ ok raw)
      × (decode_strict platform platform.decode_correlation raw max_document_bytes ≡ ok identity)

-- What a statement that is created has gone through.
record IsCreated (platform : Platform) (name : String) (artifact : Bytes) (events : Events)
    (source : SourceIdentity) (statement : Statement) : Type 0 where
  identity_map : Fields
  observed : verify_artifact_observation (all events) (digest platform artifact) ≡ ok tt
  same_source : events.first.build.source ≡ source
  revision : source.revision ≢ ""
  mapped :
      to_map platform (correlation_value (local_identity events.first source)) ≡ ok identity_map
  made : statement ≡ local_statement platform name artifact events source identity_map

created :
    (platform : Platform) (name : String) (artifact : Bytes) (events : Events)
    (repository revision : String) (statement : Statement)
    → create_local_fixture_provenance platform name artifact events repository revision
      ≡ ok statement
    → IsCreated platform name artifact events
        (record { repository = repository; revision = revision })
        statement
unfolding create_local_fixture_provenance
created platform name artifact events repository revision statement h =
    let source : SourceIdentity = record { repository = repository; revision = revision } in
    let (inputs, h1) =
      fail_if-eq-ok (name == "" || length artifact == 0 || repository == "" || revision == "")
        local_inputs _ h in
    let (_, observed, h2) =
      >>=-eq-ok (verify_artifact_observation (all events) (digest platform artifact)) _ h1 in
    let (same, h3) = fail_if-eq-ok (events.first.build.source != source) local_source _ h2 in
    let (m, mapped, h4) =
      >>=-eq-ok (to_map platform (correlation_value (local_identity events.first source))) _ h3 in
    let made : local_statement platform name artifact events source m ≡ statement = cc in
    record {
      identity_map = m;
      observed = observed;
      same_source = ground arith;
      revision = ground arith;
      mapped = mapped;
      made = sym made;
    }

-- The tests of `provenanceIdentity` on a local statement, its lookups done.
check_identity-local :
    (platform : Platform) (name : String) (artifact : Bytes) (events : Events)
    (source : SourceIdentity) (m : Fields)
    → check_identity
        (local_identity events.first source)
        (local_definition source m)
        (local_statement platform name artifact events source m).predicate
      ≡ (do
        fail_if
            (events.first.build.build_id == ""
              || local_builder_id == ""
              || events.first.build.run_id == ""
              || source.revision == "")
            identity_incomplete
        fail_if
            (not (source.repository == source.repository)
              || not (source.revision == source.revision))
            external_conflict
        fail_if
            (not (
              if (if source.repository == source.repository
                then source.revision == source.revision
                else false)
              then true
              else false))
            dependencies_omit
        fail_if
            (events.first.build.run_id != events.first.build.run_id
              || events.first.observed_at == ""
              || (final events).observed_at == "")
            details_conflict
        ok (local_identity events.first source))
unfolding check_identity is_incomplete resolved_source_matches lookup local_definition local_details
    local_statement local_identity string_eq string_dec
check_identity-local platform name artifact events source m = refl

local-accepted :
    (platform : Platform) (name : String) (artifact : Bytes) (events : Events)
    (source : SourceIdentity) (statement : Statement)
    → (c : IsCreated platform name artifact events source statement)
    → events.first.build.build_id ≢ ""
    → events.first.build.run_id ≢ ""
    → events.first.observed_at ≢ ""
    → (final events).observed_at ≢ ""
    → check_identity
        (local_identity events.first source)
        (local_definition source c.identity_map)
        (local_statement platform name artifact events source c.identity_map).predicate
      ≡ ok (local_identity events.first source)
local-accepted platform name artifact events source statement c build_id run_id started finished =
    let revision = c.revision in
    let builder = texts_differ local_builder_id "" refl in
    check_identity-local platform name artifact events source c.identity_map ∙ ground arith

provenance_identity-local :
    (platform : Platform) (name : String) (artifact : Bytes) (events : Events)
    (source : SourceIdentity) (m : Fields)
    → provenance_identity platform (local_statement platform name artifact events source m) ≡ (do
      raw ← canonical platform (object m)
      identity ←
          wrap in_identity
            (decode_strict platform platform.decode_correlation raw max_document_bytes)
      check_identity identity
          (local_definition source m)
          (local_statement platform name artifact events source m).predicate)
unfolding provenance_identity lookup local_definition local_statement string_eq string_dec
provenance_identity-local platform name artifact events source m = refl

subject_matches-local :
    (platform : Platform) (inputs : Inputs) (events : Events) (source : SourceIdentity) (m : Fields)
    → subject_matches
        (elements
          (local_statement platform inputs.artifact_name inputs.artifact_bytes events source
            m).subject)
        inputs.artifact_name
        (digest platform inputs.artifact_bytes)
      ≡ true
unfolding subject_matches digest_at local_statement
subject_matches-local platform inputs events source m = ground arith

-- The unsigned statement that `CreateLocalFixtureProvenance` makes of parsed events is one from which
-- `provenanceIdentity` reads the events' build and run, the local builder and the named source, and
-- `Assemble` accepts its binding to the events and to that artifact, if the events are identified and
-- the first and the last have a time, and an identity's map reads back as the identity.
pub local_provenance_accepted :
    (platform : Platform) (inputs : Inputs) (events : Events) (repository revision : String)
    (statement : Statement)
    → create_local_fixture_provenance platform inputs.artifact_name inputs.artifact_bytes events
        repository revision
      ≡ ok statement
    → ReadsIdentity platform
        (local_identity events.first (record { repository = repository; revision = revision }))
    → events.first.build.build_id ≢ ""
    → events.first.build.run_id ≢ ""
    → events.first.observed_at ≢ ""
    → (final events).observed_at ≢ ""
    → (provenance_identity platform statement
        ≡ ok
            (local_identity events.first (record { repository = repository; revision = revision })))
      × (check_binding platform inputs events statement
            (local_identity events.first (record { repository = repository; revision = revision }))
          ≡ ok tt)
unfolding check_binding local_identity
local_provenance_accepted platform inputs events repository revision statement h reads build_id
      run_id started finished =
    let source : SourceIdentity = record { repository = repository; revision = revision } in
    let c =
      created platform inputs.artifact_name inputs.artifact_bytes events repository revision
        statement h in
    let (raw, written, decoded) = reads c.identity_map c.mapped in
    let accepted =
      local-accepted platform inputs.artifact_name inputs.artifact_bytes events source statement c
        build_id run_id started finished in
    let looked =
      provenance_identity-local platform inputs.artifact_name inputs.artifact_bytes events source
        c.identity_map in
    let subject = subject_matches-local platform inputs events source c.identity_map in
    let identified : provenance_identity platform statement
        ≡ ok (local_identity events.first source) =
      ap (provenance_identity platform) c.made ∙ looked ∙ rw (written, decoded) accepted in
    let same = c.same_source in
    let observed = c.observed in (identified, rw (c.made, subject, observed) (ground arith))

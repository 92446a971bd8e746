-- ===== src/LocalProvenance.antt =====
-- internal/rpf/local_provenance.go: the unsigned statement of the local fixture.
pub mod Accepted
use runtime_provenance_firew.Base.{
  String, ◌||◌, List, [], ◌∷◌, length, ◌==◌, ◌!=◌, nat_eq, string_eq, some, Result, ok, ◌>>=◌, ◌>>◌,
  fail_if, local_inputs, local_source,
}
use runtime_provenance_firew.Json.{str, array, object, items, Fields, fields}
use runtime_provenance_firew.Model.{
  SourceIdentity, Event, Statement, Correlation, statement_type, slsa_predicate, build_identity_key,
  source_eq,
}
use runtime_provenance_firew.Model.Encoding.{correlation_value}
use runtime_provenance_firew.Platform.{Platform, Bytes}
use runtime_provenance_firew.Parse.{digest, to_map}
use runtime_provenance_firew.Evidence.{Events, all, final}
use runtime_provenance_firew.Assemble.{verify_artifact_observation, artifact_subject}

abbrev pub local_build_type : String
local_build_type =
    "https://github.com/adilalperenciftci/runtime-provenance-firewall/build-types/local-fixture/v0.1"

abbrev pub local_builder_id : String
local_builder_id =
    "https://github.com/adilalperenciftci/runtime-provenance-firewall/builders/local-fixture/v0.1"

-- The identity of the build that the events are of.
unfoldable pub local_identity : Event → SourceIdentity → Correlation
local_identity first source = record {
  build_id = first.build.build_id;
  builder_id = local_builder_id;
  run_identity = record { provider = "local"; run_id = first.build.run_id; attempt = 1 };
  source = source;
  evidence_manifest_hash = "";
  execution_graph_hash = "";
  slsa_provenance_hash = "";
  policy_hash = "";
  completeness = "";
}

-- The maps of the predicate, their entries in key order.
unfoldable pub local_definition : SourceIdentity → Fields → Fields
local_definition source identity_map = fields (
    ("buildType", str local_build_type)
    ∷ (
      "externalParameters",
      object
          (fields (("repository", str source.repository) ∷ ("revision", str source.revision) ∷ [])),
    )
    ∷ ("internalParameters", object (fields ((build_identity_key, object identity_map) ∷ [])))
    ∷ (
      "resolvedDependencies",
      array (
          items (
            object (
              fields (
                ("digest", object (fields (("gitCommit", str source.revision) ∷ [])))
                ∷ ("uri", str source.repository)
                ∷ []))
            ∷ [])),
    )
    ∷ [])

unfoldable pub local_details : Event → Event → Fields
local_details first last = fields (
    ("builder", object (fields (("id", str local_builder_id) ∷ [])))
    ∷ (
      "metadata",
      object (
          fields (
            ("finishedOn", str last.observed_at)
            ∷ ("invocationId", str first.build.run_id)
            ∷ ("startedOn", str first.observed_at)
            ∷ [])),
    )
    ∷ [])

unfoldable pub local_statement :
    Platform → String → Bytes → Events → SourceIdentity → Fields → Statement
local_statement platform artifact_name artifact events source identity_map = record {
  type = statement_type;
  subject = artifact_subject artifact_name (digest platform artifact);
  predicate_type = slsa_predicate;
  predicate = some (
      fields (
        ("buildDefinition", object (local_definition source identity_map))
        ∷ ("runDetails", object (local_details events.first (final events)))
        ∷ []));
}

-- `CreateLocalFixtureProvenance` on events that are not none; the command has them from
-- `ParseEventStream`.
unfoldable pub create_local_fixture_provenance :
    Platform → String → Bytes → Events → String → String → Result Statement
create_local_fixture_provenance platform artifact_name artifact events repository revision = do
  fail_if (artifact_name == "" || length artifact == 0 || repository == "" || revision == "")
      local_inputs
  let source : SourceIdentity = record { repository = repository; revision = revision }
  verify_artifact_observation (all events) (digest platform artifact)
  fail_if (events.first.build.source != source) local_source
  identity_map ← to_map platform (correlation_value (local_identity events.first source))
  ok (local_statement platform artifact_name artifact events source identity_map)

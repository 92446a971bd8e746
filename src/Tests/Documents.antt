-- ===== src/Tests/Documents.antt =====
-- A statement, its identity and a policy, and a platform that reads them.
use runtime_provenance_firew.Base.{[], ◌∷◌, some}
use runtime_provenance_firew.Json.{Value, str, array, object, Fields, nil, cons, fields}
use runtime_provenance_firew.Model.{
  Statement, Correlation, Policy, statement_type, slsa_predicate, build_identity_key,
}
use runtime_provenance_firew.Platform.{Platform}
use runtime_provenance_firew.Tests.Sample.{platform_with, source}
use runtime_provenance_firew.Tests.Codec.{write}

abbrev pub identity : Correlation
identity = record {
  build_id = "build-1";
  builder_id = "builder-1";
  run_identity = record { provider = "ci"; run_id = "run-1"; attempt = 1 };
  source = source;
  evidence_manifest_hash = "";
  execution_graph_hash = "";
  slsa_provenance_hash = "";
  policy_hash = "";
  completeness = "";
}

-- The text of the identity; the platform's decoder knows it.
abbrev identity_text : Value
identity_text = str "identity-1"

abbrev pub definition : Fields
definition = fields (
    ("buildType", str "https://example.org/build")
    ∷ (
      "externalParameters",
      object (fields (("repository", str "github.com/a/b") ∷ ("revision", str "c0ffee") ∷ [])),
    )
    ∷ ("internalParameters", object (fields ((build_identity_key, identity_text) ∷ [])))
    ∷ (
      "resolvedDependencies",
      array (
          cons
            (object (
              fields (
                ("digest", object (fields (("gitCommit", str "c0ffee") ∷ [])))
                ∷ ("uri", str "github.com/a/b")
                ∷ [])))
            nil),
    )
    ∷ [])

abbrev pub run_details : Fields
run_details = fields (
    ("builder", object (fields (("id", str "builder-1") ∷ [])))
    ∷ (
      "metadata",
      object (
          fields (
            ("finishedOn", str "2025-01-01T00:00:02Z")
            ∷ ("invocationId", str "run-1")
            ∷ ("startedOn", str "2025-01-01T00:00:00Z")
            ∷ [])),
    )
    ∷ [])

abbrev pub statement : Statement
statement = record {
  type = statement_type;
  subject = some (record { name = "a.out"; digest = some (("sha256", "162") ∷ []) } ∷ []);
  predicate_type = slsa_predicate;
  predicate =
      some
        (fields (("buildDefinition", object definition) ∷ ("runDetails", object run_details) ∷ []));
}

abbrev pub policy : Policy
policy = record {
  schema_version = "0.1";
  allowed_builder_ids = "builder-1" ∷ [];
  allowed_artifact_producers = "/bin/cc" ∷ [];
  allowed_repositories = "github.com/a/b" ∷ [];
  allowed_executables = "/bin/cc" ∷ "/bin/sh" ∷ [];
  allowed_network_destinations = [];
  forbidden_sensitive_categories = "credentials" ∷ [];
  expected_provider = "ci";
  incomplete_decision = "REVIEW";
}

abbrev pub platform : Platform
platform =
    platform_with [] ((20 ∷ [], statement) ∷ []) ((write identity_text [], identity) ∷ [])
      ((21 ∷ [], policy) ∷ [])

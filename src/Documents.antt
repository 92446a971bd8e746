-- ===== src/Documents.antt =====
-- internal/rpf/parse.go: the statement and the policy documents.
pub mod Checks
use runtime_provenance_firew.Base.{
  ◌||◌, ◌&&◌, Option, none, some, List, [], length, ◌==◌, ◌!=◌, nat_eq, string_eq, Result, ok,
  ◌>>=◌, ◌>>◌, fail_if, statement_type, no_subjects, policy_version, incomplete_decision,
  allowlists,
}
use runtime_provenance_firew.Model
use runtime_provenance_firew.Model.{Statement, Subject, Policy}
use runtime_provenance_firew.Platform.{Platform, Bytes}
use runtime_provenance_firew.Parse.{decode_strict, max_document_bytes}

-- What a slice that may be nil ranges over.
abbrev pub elements : {A : Type 0} → Option (List A) → List A
elements none = []
elements (some xs) = xs

unfoldable pub check_statement : Statement → Result (Unit {0})
check_statement statement = do
  fail_if (statement.type != Model.statement_type) statement_type
  fail_if (length (elements statement.subject) == 0) no_subjects
  ok tt

unfoldable pub check_policy : Policy → Result (Unit {0})
check_policy policy = do
  fail_if (policy.schema_version != "0.1") policy_version
  fail_if (policy.incomplete_decision != "REVIEW" && policy.incomplete_decision != "REJECT")
      incomplete_decision
  fail_if
      (policy.expected_provider == ""
        || length policy.allowed_builder_ids == 0
        || length policy.allowed_artifact_producers == 0
        || length policy.allowed_repositories == 0)
      allowlists
  ok tt

module _ (platform : Platform) where
  unfoldable pub decode_statement : Bytes → Result Statement
  unfolding check_statement
  decode_statement raw = do
    statement ← decode_strict platform platform.decode_statement raw max_document_bytes
    check_statement statement
    ok statement

  unfoldable pub decode_policy : Bytes → Result Policy
  unfolding check_policy
  decode_policy raw = do
    policy ← decode_strict platform platform.decode_policy raw max_document_bytes
    check_policy policy
    ok policy

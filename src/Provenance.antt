-- ===== src/Provenance.antt =====
-- `provenanceIdentity` and `resolvedSourceMatches` of internal/rpf/verify.go: the identity that an
-- SLSA provenance statement claims, and its agreement with the rest of the statement.
pub mod Agreement
use runtime_provenance_firew.Base.{
  String, ◌||◌, Bool, true, false, not, Option, none, some, ◌==◌, ◌!=◌, string_eq, if◌then◌else◌,
  Result, ok, ◌>>=◌, ◌>>◌, fail_if, require, wrap, definition_missing, internal_missing,
  identity_missing, in_identity, identity_incomplete, structure_incomplete, external_conflict,
  dependencies_omit, details_conflict,
}
use runtime_provenance_firew.Json.{
  Value, object, Items, nil, cons, Fields, lookup, lookup_in, as_object, as_array, text_of, is_text,
}
use runtime_provenance_firew.Model.{SourceIdentity, Statement, Correlation, build_identity_key}
use runtime_provenance_firew.Platform.{Platform}
use runtime_provenance_firew.Parse.{canonical, decode_strict, max_document_bytes}

abbrev pub is_none : {A : Type 0} → Option A → Bool
is_none none = true
is_none (some a) = false

-- A dependency that names the source's repository and revision.
abbrev pub is_source : Option Fields → SourceIdentity → Bool
is_source none source = false
is_source (some dependency) source =
    if is_text (lookup "uri" dependency) source.repository
    then is_text (lookup_in (as_object (lookup "digest" dependency)) "gitCommit") source.revision
    else false

unfoldable pub resolved_source_matches : Items → SourceIdentity → Bool
resolved_source_matches nil source = false
resolved_source_matches (cons raw dependencies) source =
    if is_source (as_object (some raw)) source
    then true
    else resolved_source_matches dependencies source

abbrev pub items_or_nil : Option Items → Items
items_or_nil none = nil
items_or_nil (some vs) = vs

unfoldable pub is_incomplete : Correlation → Bool
is_incomplete identity =
    identity.build_id == ""
    || identity.builder_id == ""
    || identity.run_identity.run_id == ""
    || identity.source.revision == ""

-- The tests behind the decoding of the identity, on `buildDefinition` and on the predicate.
unfoldable pub check_identity : Correlation → Fields → Option Fields → Result Correlation
unfolding is_incomplete resolved_source_matches
check_identity identity definition predicate = do
  fail_if (is_incomplete identity) identity_incomplete
  let external = as_object (lookup "externalParameters" definition)
  let resolved = as_array (lookup "resolvedDependencies" definition)
  let run_details = as_object (lookup_in predicate "runDetails")
  fail_if
      (text_of (lookup "buildType" definition) == ""
        || is_none external
        || is_none resolved
        || is_none run_details)
      structure_incomplete
  fail_if
      (not (is_text (lookup_in external "repository") identity.source.repository)
        || not (is_text (lookup_in external "revision") identity.source.revision))
      external_conflict
  fail_if (not (resolved_source_matches (items_or_nil resolved) identity.source)) dependencies_omit
  let builder = as_object (lookup_in run_details "builder")
  let metadata = as_object (lookup_in run_details "metadata")
  fail_if
      (is_none builder
        || is_none metadata
        || text_of (lookup_in builder "id") != identity.builder_id
        || text_of (lookup_in metadata "invocationId") != identity.run_identity.run_id
        || text_of (lookup_in metadata "startedOn") == ""
        || text_of (lookup_in metadata "finishedOn") == "")
      details_conflict
  ok identity

module _ (platform : Platform) where
  unfoldable pub provenance_identity : Statement → Result Correlation
  unfolding check_identity
  provenance_identity statement = do
    definition ←
        require (as_object (lookup_in statement.predicate "buildDefinition")) definition_missing
    internal ← require (as_object (lookup "internalParameters" definition)) internal_missing
    raw_identity ← require (lookup build_identity_key internal) identity_missing
    raw ← canonical platform raw_identity
    identity ←
        wrap in_identity (decode_strict platform platform.decode_correlation raw max_document_bytes)
    check_identity identity definition statement.predicate

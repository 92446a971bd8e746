-- ===== src/Provenance/Agreement.antt =====
-- What a statement says whose identity `provenanceIdentity` of internal/rpf/verify.go accepts.
use runtime_provenance_firew.Base.{
  String, ◌≡◌, ◌≢◌, ◌↔◌, ◌⊎◌, inl, inr, ◌||◌, true, false, not, Option, none, some, Bool-cases, sym,
  ap, subst, arith, ◌==◌, ◌!=◌, string_eq, ok, >>=-eq-ok, require-eq-ok, wrap-eq-ok, fail_if-eq-ok,
  definition_missing, internal_missing, identity_missing, in_identity, identity_incomplete,
  structure_incomplete, external_conflict, dependencies_omit, details_conflict,
}
use runtime_provenance_firew.Json.{
  Value, str, null, bool, uint, int, float64, number, array, structure, object, Items, nil, cons,
  Fields, lookup, lookup_in, as_object, as_array, text_of, is_text,
}
use runtime_provenance_firew.Model.{SourceIdentity, Statement, Correlation, build_identity_key}
use runtime_provenance_firew.Platform.{Platform, Bytes}
use runtime_provenance_firew.Parse.{canonical, decode_strict, max_document_bytes}
use runtime_provenance_firew.Provenance.{
  is_none, is_source, resolved_source_matches, items_or_nil, is_incomplete, check_identity,
  provenance_identity,
}

is_text_iff : (v : Option Value) (s : String) → (is_text v s ≡ true) ↔ (v ≡ some (str s))
is_text_iff none s = (λ h. cc, λ h. cc)
is_text_iff (some (str t)) s = (λ h. ground arith, λ h. ground arith)
is_text_iff (some null) s = (λ h. cc, λ h. cc)
is_text_iff (some (bool b)) s = (λ h. cc, λ h. cc)
is_text_iff (some (uint n)) s = (λ h. cc, λ h. cc)
is_text_iff (some (int z)) s = (λ h. cc, λ h. cc)
is_text_iff (some (float64 n)) s = (λ h. cc, λ h. cc)
is_text_iff (some (number t)) s = (λ h. cc, λ h. cc)
is_text_iff (some (array vs)) s = (λ h. cc, λ h. cc)
is_text_iff (some (object fs)) s = (λ h. cc, λ h. cc)
is_text_iff (some (structure fs)) s = (λ h. cc, λ h. cc)

-- A text that is not empty is there.
text_of-some : (v : Option Value) (s : String) → s ≢ "" → text_of v ≡ s → v ≡ some (str s)
text_of-some none s h e = absurd (h (sym e))
text_of-some (some (str t)) s h e = ap (λ x. some (str x)) e
text_of-some (some null) s h e = absurd (h (sym e))
text_of-some (some (bool b)) s h e = absurd (h (sym e))
text_of-some (some (uint n)) s h e = absurd (h (sym e))
text_of-some (some (int z)) s h e = absurd (h (sym e))
text_of-some (some (float64 n)) s h e = absurd (h (sym e))
text_of-some (some (number t)) s h e = absurd (h (sym e))
text_of-some (some (array vs)) s h e = absurd (h (sym e))
text_of-some (some (object fs)) s h e = absurd (h (sym e))
text_of-some (some (structure fs)) s h e = absurd (h (sym e))

-- A dependency with the source's repository as its uri and its revision as its commit.
abbrev pub Pins : Option Fields → SourceIdentity → Type 0
Pins none source = ⊥
Pins (some dependency) source =
    (lookup "uri" dependency ≡ some (str source.repository))
    × (lookup_in (as_object (lookup "digest" dependency)) "gitCommit" ≡ some (str source.revision))

abbrev pub SomePins : Items → SourceIdentity → Type 0
SomePins nil source = ⊥
SomePins (cons v vs) source = Pins (as_object (some v)) source ⊎ SomePins vs source

is_source-Pins :
    (dependency : Option Fields) (source : SourceIdentity)
    → is_source dependency source ≡ true
    → Pins dependency source
is_source-Pins none source h = cc
is_source-Pins (some d) source h =
    let uri = is_text_iff (lookup "uri" d) source.repository in
    let commit =
      is_text_iff (lookup_in (as_object (lookup "digest" d)) "gitCommit") source.revision in
    (uri.0 (ground arith), commit.0 (ground arith))

resolved-SomePins :
    (vs : Items) (source : SourceIdentity)
    → resolved_source_matches vs source ≡ true
    → SomePins vs source
unfolding resolved_source_matches
resolved-SomePins nil source h = cc
resolved-SomePins (cons v vs) source h = elim (Bool-cases (is_source (as_object (some v)) source)) [
  | inl found ↦ inl (is_source-Pins (as_object (some v)) source found)
  | inr other ↦ inr (resolved-SomePins vs source (rw other at h))
]

-- The statement's other parts say what the identity says.
pub record Agrees (c : Correlation) (definition : Fields) (predicate : Option Fields) : Type 0 where
  pub build_id : c.build_id ≢ ""
  pub run_id : c.run_identity.run_id ≢ ""
  pub build_type : text_of (lookup "buildType" definition) ≢ ""
  pub repository :
      lookup_in (as_object (lookup "externalParameters" definition)) "repository"
      ≡ some (str c.source.repository)
  pub revision :
      lookup_in (as_object (lookup "externalParameters" definition)) "revision"
      ≡ some (str c.source.revision)
  pub dependency :
      SomePins (items_or_nil (as_array (lookup "resolvedDependencies" definition))) c.source
  pub builder :
      lookup_in
        (as_object (lookup_in (as_object (lookup_in predicate "runDetails")) "builder"))
        "id"
      ≡ some (str c.builder_id)
  pub invocation :
      lookup_in
        (as_object (lookup_in (as_object (lookup_in predicate "runDetails")) "metadata"))
        "invocationId"
      ≡ some (str c.run_identity.run_id)

check_identity-guards :
    (c d : Correlation) (definition : Fields) (predicate : Option Fields)
    → check_identity c definition predicate ≡ ok d
    → let external = as_object (lookup "externalParameters" definition) in
      let resolved = as_array (lookup "resolvedDependencies" definition) in
      let run_details = as_object (lookup_in predicate "runDetails") in
      let builder = as_object (lookup_in run_details "builder") in
      let metadata = as_object (lookup_in run_details "metadata") in
      (is_incomplete c ≡ false)
      × ((text_of (lookup "buildType" definition) == ""
            || is_none external
            || is_none resolved
            || is_none run_details)
          ≡ false)
      × ((not (is_text (lookup_in external "repository") c.source.repository)
            || not (is_text (lookup_in external "revision") c.source.revision))
          ≡ false)
      × (not (resolved_source_matches (items_or_nil resolved) c.source) ≡ false)
      × ((is_none builder
            || is_none metadata
            || text_of (lookup_in builder "id") != c.builder_id
            || text_of (lookup_in metadata "invocationId") != c.run_identity.run_id
            || text_of (lookup_in metadata "startedOn") == ""
            || text_of (lookup_in metadata "finishedOn") == "")
          ≡ false)
      × (c ≡ d)
unfolding check_identity
check_identity-guards c d definition predicate h =
    let (complete, h1) = fail_if-eq-ok _ identity_incomplete _ h in
    let (structured, h2) = fail_if-eq-ok _ structure_incomplete _ h1 in
    let (external, h3) = fail_if-eq-ok _ external_conflict _ h2 in
    let (pinned, h4) = fail_if-eq-ok _ dependencies_omit _ h3 in
    let (detailed, h5) = fail_if-eq-ok _ details_conflict _ h4 in
    (complete, structured, external, pinned, detailed, cc)

is_incomplete-false :
    (c : Correlation)
    → is_incomplete c ≡ false
    → (c.build_id ≢ "") × (c.builder_id ≢ "") × (c.run_identity.run_id ≢ "")
unfolding is_incomplete
is_incomplete-false c h = (ground arith, ground arith, ground arith)

check_identity-Agrees :
    (c d : Correlation) (definition : Fields) (predicate : Option Fields)
    → check_identity c definition predicate ≡ ok d
    → (c ≡ d) × Agrees c definition predicate
check_identity-Agrees c d definition predicate h =
    let guards = check_identity-guards c d definition predicate h in
    let (built, by, run) = is_incomplete-false c guards.0 in
    let structured = guards.1 in
    let external = guards.2 in
    let detailed = guards.4 in
    (
      guards.5,
      record {
        build_id = built;
        run_id = run;
        build_type = ground (arith, structured);
        repository = (is_text_iff _ c.source.repository).0 (ground (arith, external));
        revision = (is_text_iff _ c.source.revision).0 (ground (arith, external));
        dependency = resolved-SomePins _ c.source (ground (arith, guards.3));
        builder = text_of-some _ c.builder_id by (ground (arith, detailed));
        invocation = text_of-some _ c.run_identity.run_id run (ground (arith, detailed));
      },
    )

-- A statement whose identity `provenanceIdentity` accepts has the identity's JSON among its internal
-- parameters, and its build type, external parameters, resolved dependencies, builder and
-- invocation agree with that identity.
pub provenance_identity-Agrees :
    (platform : Platform) (statement : Statement) (c : Correlation)
    → provenance_identity platform statement ≡ ok c
    → (definition internal : Fields) × (v : Value) × (raw : Bytes) × (as_object
          (lookup_in statement.predicate "buildDefinition")
        ≡ some definition)
      × (as_object (lookup "internalParameters" definition) ≡ some internal)
      × (lookup build_identity_key internal ≡ some v)
      × (canonical platform v ≡ ok raw)
      × (decode_strict platform platform.decode_correlation raw max_document_bytes ≡ ok c)
      × Agrees c definition statement.predicate
unfolding provenance_identity
provenance_identity-Agrees platform statement c h =
    let (definition, defined, h1) =
      require-eq-ok (as_object (lookup_in statement.predicate "buildDefinition")) definition_missing
        _ h in
    let (internal, inner, h2) =
      require-eq-ok (as_object (lookup "internalParameters" definition)) internal_missing _ h1 in
    let (v, held, h3) = require-eq-ok (lookup build_identity_key internal) identity_missing _ h2 in
    let (raw, written, h4) = >>=-eq-ok (canonical platform v) _ h3 in
    let (read, decoded, h5) =
      wrap-eq-ok in_identity
        (decode_strict platform platform.decode_correlation raw max_document_bytes) _ h4 in
    let (same, agrees) = check_identity-Agrees read c definition statement.predicate h5 in
    (
      definition,
      internal,
      v,
      raw,
      defined,
      inner,
      held,
      written,
      cc (decoded, same),
      subst (λ x. Agrees x definition statement.predicate) same agrees,
    )

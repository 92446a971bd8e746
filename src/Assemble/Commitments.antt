-- ===== src/Assemble/Commitments.antt =====
-- What a bundle of `Assemble` in internal/rpf/verify.go commits to.
use runtime_provenance_firew.Base.{
  String, ◌≡◌, ◌≢◌, refl, ◌⊎◌, inl, inr, ◌||◌, ◌&&◌, true, false, not, Option, none, some, List, [],
  ◌∷◌, length, Bool-cases, subst, arith, ◌==◌, ◌!=◌, string_eq, ok, >>=-eq-ok, wrap-eq-ok,
  fail_if-eq-ok, string_dec, in_policy, in_provenance, provenance_predicate, build_mismatch,
  source_mismatch, subject_mismatch,
}
use runtime_provenance_firew.Json.{lookup_in, text_of}
use runtime_provenance_firew.Model.{
  Process, Event, Statement, Subject, Correlation, Policy, source_eq, slsa_predicate,
}
use runtime_provenance_firew.Model.Encoding.{graph_value, manifest_value, correlation_value}
use runtime_provenance_firew.Platform.{Platform}
use runtime_provenance_firew.Parse.{canonical_digest, digest, to_map}
use runtime_provenance_firew.Documents.{elements, decode_statement, decode_policy}
use runtime_provenance_firew.Evidence.{Events, all, is_nil}
use runtime_provenance_firew.Stream.{parse_event_stream}
use runtime_provenance_firew.Graph.{Runtime, build_graph}
use runtime_provenance_firew.Provenance.{provenance_identity}
use runtime_provenance_firew.Assemble.{
  Inputs, Bundle, verify_artifact_observation, digest_at, subject_matches, artifact_subject,
  manifest_of, correlation_of, trace_of, check_binding, compose, assemble,
}

-- The first finalization among the events is of this artifact and has a producer.
abbrev pub Observes : String → List Event → Type 0
Observes hash [] = ⊥
Observes hash (e ∷ es) =
    ((e.operation ≡ "artifact_finalized")
      × (text_of (lookup_in e.resource "sha256") ≡ hash)
      × ((p : Process) × (e.process ≡ some p)))
    ⊎ ((e.operation ≢ "artifact_finalized") × Observes hash es)

has_process : (p : Option Process) → is_nil p ≡ false → (q : Process) × (p ≡ some q)
has_process none h = cc
has_process (some p) h = (p, refl)

observed :
    (es : List Event) (hash : String)
    → verify_artifact_observation es hash ≡ ok tt
    → Observes hash es
unfolding verify_artifact_observation
observed [] hash h = cc
observed (e ∷ es) hash h = elim (string_dec e.operation "artifact_finalized") [
  | yes op ↦ inl (op, ground arith, has_process e.process (ground arith))
  | no op ↦ inr (op, observed es hash (ground arith))
]

abbrev pub SomeSubject : String → String → List Subject → Type 0
SomeSubject name hash [] = ⊥
SomeSubject name hash (s ∷ ss) =
    ((s.name ≡ name) × (digest_at "sha256" (elements s.digest) ≡ hash)) ⊎ SomeSubject name hash ss

subject_found :
    (ss : List Subject) (name hash : String)
    → subject_matches ss name hash ≡ true
    → SomeSubject name hash ss
unfolding subject_matches
subject_found [] name hash h = cc
subject_found (s ∷ ss) name hash h =
    elim (Bool-cases (s.name == name && digest_at "sha256" (elements s.digest) == hash)) [
      | inl found ↦ inl (ground arith, ground arith)
      | inr other ↦ inr (subject_found ss name hash (rw other at h))
    ]

module _ (platform : Platform) where
  -- What the events, the statement and the artifact agree on.
  pub record IsBound (inputs : Inputs) (events : Events) (provenance : Statement)
      (identity : Correlation) : Type 0 where
    pub build_id : identity.build_id ≡ events.first.build.build_id
    pub run_id : identity.run_identity.run_id ≡ events.first.build.run_id
    pub source : identity.source ≡ events.first.build.source
    pub subject :
        SomeSubject inputs.artifact_name
          (digest platform inputs.artifact_bytes)
          (elements provenance.subject)
    pub finalized : Observes (digest platform inputs.artifact_bytes) (all events)

  check_binding-guards :
      (inputs : Inputs) (events : Events) (provenance : Statement) (identity : Correlation)
      → check_binding platform inputs events provenance identity ≡ ok tt
      → ((identity.build_id != events.first.build.build_id
            || identity.run_identity.run_id != events.first.build.run_id)
          ≡ false)
        × ((identity.source != events.first.build.source) ≡ false)
        × (not (
              subject_matches
                (elements provenance.subject)
                inputs.artifact_name
                (digest platform inputs.artifact_bytes))
            ≡ false)
        × (verify_artifact_observation (all events) (digest platform inputs.artifact_bytes) ≡ ok tt)
  unfolding check_binding
  check_binding-guards inputs events provenance identity h =
      let (built, h1) = fail_if-eq-ok _ build_mismatch _ h in
      let (sourced, h2) = fail_if-eq-ok _ source_mismatch _ h1 in
      let (named, h3) = fail_if-eq-ok _ subject_mismatch _ h2 in (built, sourced, named, h3)

  check_binding-IsBound :
      (inputs : Inputs) (events : Events) (provenance : Statement) (identity : Correlation)
      → check_binding platform inputs events provenance identity ≡ ok tt
      → IsBound inputs events provenance identity
  check_binding-IsBound inputs events provenance identity h =
      let guards = check_binding-guards inputs events provenance identity h in
      record {
        build_id = ground arith;
        run_id = ground arith;
        source = ground arith;
        subject = subject_found _ _ _ (ground arith);
        finalized = observed _ _ guards.3;
      }

module _ (platform : Platform) (runtime : Runtime) where
  -- The digests and counts in a bundle.
  pub record Commits (inputs : Inputs) (events : Events) (identity : Correlation) (bundle : Bundle)
      : Type 0 where
    pub graph : build_graph platform runtime (all events) ≡ ok bundle.graph
    pub graph_hash :
        canonical_digest platform (graph_value bundle.graph)
        ≡ ok bundle.manifest.execution_graph_sha256
    pub artifact_name : bundle.manifest.artifact.name ≡ inputs.artifact_name
    pub artifact : bundle.manifest.artifact.sha256 ≡ digest platform inputs.artifact_bytes
    pub stream : bundle.manifest.event_stream.sha256 ≡ digest platform inputs.event_bytes
    pub event_count : bundle.manifest.event_stream.event_count ≡ length (all events)
    pub policy : bundle.manifest.policy_sha256 ≡ digest platform inputs.policy_bytes
    pub build_id : bundle.manifest.build_id ≡ identity.build_id
    pub run_identity : bundle.manifest.run_identity ≡ identity.run_identity
    pub source : bundle.manifest.source ≡ identity.source
    pub trace_subject :
        bundle.runtime_trace.subject
        ≡ artifact_subject inputs.artifact_name (digest platform inputs.artifact_bytes)
    pub manifest_hash : String
    pub manifest_hashed :
        canonical_digest platform (manifest_value bundle.manifest) ≡ ok manifest_hash

  compose-Commits :
      (inputs : Inputs) (events : Events) (identity : Correlation) (bundle : Bundle)
      → compose platform runtime inputs events identity ≡ ok bundle
      → Commits inputs events identity bundle
  unfolding compose manifest_of trace_of
  compose-Commits inputs events identity bundle h =
      let (graph, built, h1) = >>=-eq-ok (build_graph platform runtime (all events)) _ h in
      let (hash, hashed, h2) = >>=-eq-ok (canonical_digest platform (graph_value graph)) _ h1 in
      let manifest = manifest_of platform inputs identity events hash in
      let (manifest_hash, committed, h3) =
        >>=-eq-ok (canonical_digest platform (manifest_value manifest)) _ h2 in
      let (entries, read, h4) =
        >>=-eq-ok
          (to_map platform (
            correlation_value
              (correlation_of platform inputs identity manifest manifest_hash hash)))
          _ h3 in
      let made : Bundle = record {
        graph = graph;
        manifest = manifest;
        runtime_trace = trace_of platform inputs identity events graph entries;
      } in
      let same : made ≡ bundle = cc h4 in
      subst (Commits inputs events identity) same (record {
        graph = built;
        graph_hash = hashed;
        artifact_name = refl;
        artifact = refl;
        stream = refl;
        event_count = refl;
        policy = refl;
        build_id = refl;
        run_identity = refl;
        source = refl;
        trace_subject = refl;
        manifest_hash = manifest_hash;
        manifest_hashed = committed;
      })

  -- The parsed documents behind a bundle, and how they and the bundle agree.
  pub record IsAssembled (inputs : Inputs) (bundle : Bundle) : Type 0 where
    pub events : Events
    pub policy : Policy
    pub provenance : Statement
    pub identity : Correlation
    pub stream_read : parse_event_stream platform inputs.event_bytes ≡ ok events
    pub policy_read : decode_policy platform inputs.policy_bytes ≡ ok policy
    pub statement_read : decode_statement platform inputs.provenance_bytes ≡ ok provenance
    pub predicate : provenance.predicate_type ≡ slsa_predicate
    pub identified : provenance_identity platform provenance ≡ ok identity
    pub bound : IsBound platform inputs events provenance identity
    pub commits : Commits inputs events identity bundle

  -- A bundle is assembled only from an event stream, a policy and an SLSA statement that are
  -- accepted, where build, run and source of the statement's identity are those of the events, the
  -- statement has the artifact as a subject and the first finalization event is of the artifact; and
  -- the bundle's manifest has the digests of artifact, stream, policy and graph, its trace the
  -- artifact as its subject.
  pub assemble_binds :
      (inputs : Inputs) (bundle : Bundle)
      → assemble platform runtime inputs ≡ ok bundle
      → IsAssembled inputs bundle
  unfolding assemble
  assemble_binds inputs bundle h =
      let (events, stream_read, h1) =
        >>=-eq-ok (parse_event_stream platform inputs.event_bytes) _ h in
      let (policy, policy_read, h2) =
        wrap-eq-ok in_policy (decode_policy platform inputs.policy_bytes) _ h1 in
      let (provenance, statement_read, h3) =
        wrap-eq-ok in_provenance (decode_statement platform inputs.provenance_bytes) _ h2 in
      let (slsa, h4) =
        fail_if-eq-ok (provenance.predicate_type != slsa_predicate) provenance_predicate _ h3 in
      let (identity, identified, h5) = >>=-eq-ok (provenance_identity platform provenance) _ h4 in
      let (unit, checked, h6) =
        >>=-eq-ok (check_binding platform inputs events provenance identity) _ h5 in
      record {
        events = events;
        policy = policy;
        provenance = provenance;
        identity = identity;
        stream_read = stream_read;
        policy_read = policy_read;
        statement_read = statement_read;
        predicate = ground arith;
        identified = identified;
        bound = check_binding-IsBound platform inputs events provenance identity checked;
        commits = compose-Commits inputs events identity bundle h6;
      }

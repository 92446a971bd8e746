-- ===== src/Verify/Approved.antt =====
-- What the reasons of `Verify` in internal/rpf/verify.go test.
use runtime_provenance_firew.Base.{
  ◌≡◌, refl, ◌↔◌, inl, ◌||◌, true, false, not, List, arith, ◌!=◌, bytes_eq, string_eq, contains,
  Result, ok, err,
}
use runtime_provenance_firew.Json.{Value}
use runtime_provenance_firew.Model.{Event, Correlation, Policy, run_eq, source_eq}
use runtime_provenance_firew.Model.Encoding.{graph_value, manifest_value, statement_value}
use runtime_provenance_firew.Platform.{Platform, Bytes}
use runtime_provenance_firew.Parse.{canonical}
use runtime_provenance_firew.Loss.{completeness}
use runtime_provenance_firew.Assemble.{Bundle}
use runtime_provenance_firew.Behavior.{behavior_reasons}
use runtime_provenance_firew.Verify.{equal_texts, canonical_equal, reasons_of}
use runtime_provenance_firew.Behavior.Permitted.{
  IsClear, IsStop, guard-IsClear, AllPermitted, behavior_reasons_iff,
}

module _ (platform : Platform) where
  -- Both have canonical bytes, and the same.
  abbrev pub SameText : Value → Value → Type 0
  SameText v w = (raw : Bytes) × (canonical platform v ≡ ok raw) × (canonical platform w ≡ ok raw)

  equal_texts_iff :
      (a b : Result Bytes)
      → (equal_texts a b ≡ true) ↔ ((raw : Bytes) × (a ≡ ok raw) × (b ≡ ok raw))
  equal_texts_iff (ok a) (ok b) = (λ h. (a, refl, ground arith), λ h. ground (arith, h))
  equal_texts_iff (ok a) (err e) = (λ h. cc, λ h. cc (h.2))
  equal_texts_iff (err e) b = (λ h. cc, λ h. cc (h.1))

  canonical_equal_iff : (v w : Value) → (canonical_equal platform v w ≡ true) ↔ SameText v w
  unfolding canonical_equal
  canonical_equal_iff v w = equal_texts_iff (canonical platform v) (canonical platform w)

  -- What the reasons of `Verify` test.
  pub record IsApproved (bundle recomputed : Bundle) (identity : Correlation) (policy : Policy)
      (events : List Event) : Type 0 where
    pub graph : SameText (graph_value bundle.graph) (graph_value recomputed.graph)
    pub manifest : SameText (manifest_value bundle.manifest) (manifest_value recomputed.manifest)
    pub trace :
        SameText (statement_value bundle.runtime_trace) (statement_value recomputed.runtime_trace)
    pub build_id : identity.build_id ≡ bundle.manifest.build_id
    pub run_identity : identity.run_identity ≡ bundle.manifest.run_identity
    pub complete : completeness bundle.manifest ≡ "complete"
    pub provider : identity.run_identity.provider ≡ policy.expected_provider
    pub builder : contains policy.allowed_builder_ids identity.builder_id ≡ true
    pub repository : contains policy.allowed_repositories identity.source.repository ≡ true
    pub permitted : AllPermitted policy events

  abbrev Guards : Bundle → Bundle → Correlation → Policy → List Event → Type 0
  Guards bundle recomputed identity policy events =
      (not (canonical_equal platform (graph_value bundle.graph) (graph_value recomputed.graph))
        ≡ false)
      × ((not (
              canonical_equal platform (manifest_value bundle.manifest)
                (manifest_value recomputed.manifest))
            ≡ false)
          × ((not (
                  canonical_equal platform (statement_value bundle.runtime_trace)
                    (statement_value recomputed.runtime_trace))
                ≡ false)
              × (((identity.build_id != bundle.manifest.build_id
                      || identity.run_identity != bundle.manifest.run_identity)
                    ≡ false)
                  × (((completeness bundle.manifest != "complete") ≡ false)
                      × (((identity.run_identity.provider != policy.expected_provider) ≡ false)
                          × ((not (contains policy.allowed_builder_ids identity.builder_id) ≡ false)
                              × ((not (
                                      contains policy.allowed_repositories
                                        identity.source.repository)
                                    ≡ false)
                                  × (IsClear (behavior_reasons events policy)))))))))

  reasons_of-Guards :
      (bundle recomputed : Bundle) (identity : Correlation) (policy : Policy) (events : List Event)
      → IsStop policy.incomplete_decision
      → IsClear (reasons_of platform bundle recomputed identity policy events)
        ↔ Guards bundle recomputed identity policy events
  unfolding reasons_of
  reasons_of-Guards bundle recomputed identity policy events stop =
      let reject : IsStop "REJECT" = inl refl in
      guard-IsClear _ _ _ _ _ _ reject (
        guard-IsClear _ _ _ _ _ _ reject (
          guard-IsClear _ _ _ _ _ _ reject (
            guard-IsClear _ _ _ _ _ _ reject (
              guard-IsClear _ _ _ _ _ _ stop (
                guard-IsClear _ _ _ _ _ _ reject (
                  guard-IsClear _ _ _ _ _ _ reject
                    (guard-IsClear _ _ _ _ _ _ reject (λ h. h, λ h. h))))))))

  pub reasons_of_iff :
      (bundle recomputed : Bundle) (identity : Correlation) (policy : Policy) (events : List Event)
      → IsStop policy.incomplete_decision
      → IsClear (reasons_of platform bundle recomputed identity policy events)
        ↔ IsApproved bundle recomputed identity policy events
  reasons_of_iff bundle recomputed identity policy events stop =
      let (to, from) = reasons_of-Guards bundle recomputed identity policy events stop in
      let texts = canonical_equal_iff (graph_value bundle.graph) (graph_value recomputed.graph) in
      let texts' =
        canonical_equal_iff (manifest_value bundle.manifest) (manifest_value recomputed.manifest) in
      let texts'' =
        canonical_equal_iff (statement_value bundle.runtime_trace)
          (statement_value recomputed.runtime_trace) in
      let behavior = behavior_reasons_iff policy events in
      (
        λ h.
            let (g, (m, (t, (i, (c, (p, (b, (r, e)))))))) = to h in
            record {
              graph = texts.0 (ground arith);
              manifest = texts'.0 (ground arith);
              trace = texts''.0 (ground arith);
              build_id = ground arith;
              run_identity = ground arith;
              complete = ground arith;
              provider = ground arith;
              builder = ground arith;
              repository = ground arith;
              permitted = behavior.0 e;
            },
        λ a. from (
          ground (arith, texts.1 a.graph),
          (
            ground (arith, texts'.1 a.manifest),
            (
              ground (arith, texts''.1 a.trace),
              (
                ground (arith, a.build_id, a.run_identity),
                (
                  ground (arith, a.complete),
                  (
                    ground (arith, a.provider),
                    (
                      ground (arith, a.builder),
                      (ground (arith, a.repository), behavior.1 a.permitted),
                    ),
                  ),
                ),
              ),
            ),
          ),
        ),
      )

-- ===== src/Evidence/Tamper.antt =====
-- The hash chain of internal/rpf/evidence.go as evidence of tampering: what the last event hash of
-- a verified stream commits to.
use text.Mathlib.TextLemmas.{append_cancel_left}
use runtime_provenance_firew.Base.{
  ℕ, ◌+◌, ◌≤◌, String, ◌<>◌, ◌≡◌, ◌≢◌, refl, sym, ◌∙◌, List, [], ◌∷◌, map, ◌⊎◌, inl, inr, ok,
  >>=-eq-ok, arith, length, last, bytes_dec,
}
use runtime_provenance_firew.Json.{Value}
use runtime_provenance_firew.Model.{Event, BuildScope, Sensor, zero_hash}
use runtime_provenance_firew.Model.Encoding.{event_value}
use runtime_provenance_firew.Platform.{Platform, Bytes}
use runtime_provenance_firew.Platform.Laws.{IsJson}
use runtime_provenance_firew.Parse.{digest, max_events}
use runtime_provenance_firew.Evidence.{
  Events, all, final, committed_bytes, event_digest, verify_chain,
}
use runtime_provenance_firew.Evidence.Linkage.{IsLinked, Follows, verify_chain-Follows}
use runtime_provenance_firew.Evidence.Body.{
  form, body, committed_bytes-injective, body-previous, body-sequence, body-form,
}

-- Two different inputs of SHA-256 with the same digest.
abbrev pub Collision : Platform → Type 0
Collision platform = (x y : Bytes) × (x ≢ y) × (digest platform x ≡ digest platform y)

-- The event hash that a list ends with, if the hash before it is `previous`.
abbrev end_hash : String → List Event → String
end_hash previous [] = previous
end_hash previous (e ∷ es) = end_hash e.integrity.event_hash es

end_hash-last :
    (p : String) (e : Event) (es : List Event)
    → end_hash p (e ∷ es) ≡ (last e es).integrity.event_hash
end_hash-last p e [] = refl
end_hash-last p e (f ∷ es) = end_hash-last e.integrity.event_hash f es

module _ (platform : Platform) where
  event_digest-eq-ok :
      (e : Event) {hash : String}
      → event_digest platform e ≡ ok hash
      → (raw : Bytes) × (committed_bytes platform e ≡ ok raw)
        × ("sha256:" <> digest platform raw ≡ hash)
  unfolding event_digest
  event_digest-eq-ok e h =
      let (raw, written, h1) = >>=-eq-ok (committed_bytes platform e) _ h in (raw, written, cc)

  module _ (json : IsJson platform) where
    -- Two events with the same digest have the same body, or show a collision.
    pub event_digest-body :
        (e f : Event) {hash : String}
        → event_digest platform e ≡ ok hash
        → event_digest platform f ≡ ok hash
        → (body platform e ≡ body platform f) ⊎ Collision platform
    event_digest-body e f h k =
        let (x, written, hashed) = event_digest-eq-ok e h in
        let (y, written', hashed') = event_digest-eq-ok f k in
        let same : digest platform x ≡ digest platform y = append_cancel_left "sha256:" _ _ (cc) in
        elim (bytes_dec x y) [
          | yes p ↦ inl (committed_bytes-injective platform json e f written (rw p written'))
          | no differ ↦ inr (x, y, differ, same)
        ]

    -- The JSON of every event of a list.
    abbrev pub forms : List Event → List Value
    forms = map (λ e. form platform (event_value e))

    step_back :
        {scope scope' : BuildScope} {sensor sensor' : Sensor} {i j m n : ℕ} {p q : String}
        (e f : Event) (es fs : List Event)
        → IsLinked platform scope sensor i p m e
        → IsLinked platform scope' sensor' j q n f
        → ((e.integrity.event_hash ≡ f.integrity.event_hash) × (forms es ≡ forms fs))
          ⊎ Collision platform
        → ((p ≡ q) × (forms (e ∷ es) ≡ forms (f ∷ fs))) ⊎ Collision platform
    step_back e f es fs l r (inr collision) = inr collision
    step_back e f es fs l r (inl (same, tails)) =
        elim (event_digest-body e f l.hash (rw same r.hash)) [
          | inl bodies ↦ inl (
            cc (l.previous_hash, r.previous_hash, body-previous platform e f bodies),
            cc (tails, body-form platform e f bodies same),
          )
          | inr collision ↦ inr collision
        ]

    module _ (scope scope' : BuildScope) (sensor sensor' : Sensor) where
      agree :
          (i j m n : ℕ) (p q : String) (es fs : List Event)
          → length es ≡ length fs
          → Follows platform scope sensor i p m es
          → Follows platform scope' sensor' j q n fs
          → end_hash p es ≡ end_hash q fs
          → ((p ≡ q) × (forms es ≡ forms fs)) ⊎ Collision platform
      agree i j m n p q [] [] size a b h = inl (h, refl)
      agree i j m n p q [] (f ∷ fs) size a b h = absurd (omega arith)
      agree i j m n p q (e ∷ es) [] size a b h = absurd (omega arith)
      agree i j m n p q (e ∷ es) (f ∷ fs) size (l, a) (r, b) h = step_back e f es fs l r (
          agree (i + 1) (j + 1) e.monotonic_ns f.monotonic_ns e.integrity.event_hash
            f.integrity.event_hash es fs (omega arith) a b h)

  Follows-last :
      {scope : BuildScope} {sensor : Sensor} (i m : ℕ) (p : String) (e : Event) (es : List Event)
      → Follows platform scope sensor i p m (e ∷ es)
      → ((last e es).sequence ≡ i + length (e ∷ es))
        × (event_digest platform (last e es) ≡ ok (last e es).integrity.event_hash)
  Follows-last i m p e [] (l, _) = (omega (arith, l.sequence), l.hash)
  Follows-last i m p e (f ∷ es) (_, r) =
      let later = Follows-last (i + 1) e.monotonic_ns e.integrity.event_hash f es r in
      (omega (arith, later.0), later.1)

-- On a platform that is as encoding/json documents, two verified streams of at most `max_events`
-- events that end with the same event hash have the same JSON at every position, or they show two
-- different inputs of SHA-256 with one digest.
pub tamper_evidence :
    (platform : Platform)
    → IsJson platform
    → (a b : Events) → verify_chain platform a ≡ ok tt
    → verify_chain platform b ≡ ok tt
    → length (all a) ≤ max_events
    → length (all b) ≤ max_events
    → (final a).integrity.event_hash ≡ (final b).integrity.event_hash
    → (map (λ e. form platform (event_value e)) (all a)
        ≡ map (λ e. form platform (event_value e)) (all b))
      ⊎ Collision platform
tamper_evidence platform json a b va vb small small' same =
    let fa = verify_chain-Follows platform a va in
    let fb = verify_chain-Follows platform b vb in
    let (count, hash) = Follows-last platform 0 0 zero_hash a.first a.rest fa in
    let (count', hash') = Follows-last platform 0 0 zero_hash b.first b.rest fb in
    elim (event_digest-body platform json (final a) (final b) hash (rw same hash')) [
      | inr collision ↦ inr collision
      | inl bodies ↦
          let size : length (all a) ≡ length (all b) = omega (
            arith,
            body-sequence platform (final a) (final b) bodies (omega arith) (omega arith),
          ) in
          drop_hash (
            agree platform json a.first.build b.first.build a.first.sensor b.first.sensor 0 0 0 0
              zero_hash zero_hash (all a) (all b) size fa fb
              (end_hash-last zero_hash a.first a.rest
                ∙ same
                ∙ sym (end_hash-last zero_hash b.first b.rest)))
    ]
  where
    drop_hash : {A B C : Type 0} → (A × B) ⊎ C → B ⊎ C
    drop_hash (inl (x, y)) = inl y
    drop_hash (inr z) = inr z

-- ===== src/Evidence/Linkage.antt =====
-- What `verifyChain` of internal/rpf/evidence.go accepts: first along the stream, and then as
-- statements on positions.
use runtime_provenance_firew.Base.{
  ℕ, zero, suc, ◌+◌, ◌≤◌, String, ◌≡◌, refl, ◌↔◌, some, List, [], ◌∷◌, arith, get_elem?, ◌!=◌, ◌||◌,
  false, ltb, string_eq, nat_eq, ok, fail_if-eq-ok, >>=-eq-ok, wrong_sequence, crosses_build,
  changes_sensor, reverses_time, previous_mismatch, hash_mismatch,
}
use runtime_provenance_firew.Model.{Event, BuildScope, Sensor, zero_hash, build_eq, sensor_eq}
use runtime_provenance_firew.Platform.{Platform}
use runtime_provenance_firew.Evidence.{Events, all, event_digest, verify_from, verify_chain}

module _ (platform : Platform) (scope : BuildScope) (sensor : Sensor) where
  -- An event at a position, after an event with the hash `previous` and the time `monotonic`.
  pub record IsLinked (index : ℕ) (previous : String) (monotonic : ℕ) (e : Event) : Type 0 where
    pub sequence : e.sequence ≡ index + 1
    pub build : e.build ≡ scope
    pub sensor_same : e.sensor ≡ sensor
    pub order : monotonic ≤ e.monotonic_ns
    pub previous_hash : e.integrity.previous_event_hash ≡ previous
    pub hash : event_digest platform e ≡ ok e.integrity.event_hash

  abbrev pub Follows : ℕ → String → ℕ → List Event → Type 0
  Follows index previous monotonic [] = Unit
  Follows index previous monotonic (e ∷ es) =
      IsLinked index previous monotonic e
      × Follows (index + 1) e.integrity.event_hash e.monotonic_ns es

  verify_from-guards :
      (index : ℕ) (previous : String) (monotonic : ℕ) (e : Event) (es : List Event)
      → verify_from platform scope sensor index previous monotonic (e ∷ es) ≡ ok tt
      → ((e.sequence != index + 1) ≡ false)
        × ((e.build.build_id != scope.build_id
              || e.build.run_id != scope.run_id
              || e.build != scope)
            ≡ false)
        × ((e.sensor != sensor) ≡ false)
        × (ltb e.monotonic_ns monotonic ≡ false)
        × ((e.integrity.previous_event_hash != previous) ≡ false)
        × ((actual : String) × (event_digest platform e ≡ ok actual)
            × ((e.integrity.event_hash != actual) ≡ false)
            × (verify_from platform scope sensor (index + 1) actual e.monotonic_ns es ≡ ok tt))
  unfolding verify_from
  verify_from-guards index previous monotonic e es h =
      let (numbered, h1) = fail_if-eq-ok _ (wrong_sequence e.sequence) _ h in
      let (built, h2) = fail_if-eq-ok _ (crosses_build e.sequence) _ h1 in
      let (sensed, h3) = fail_if-eq-ok _ (changes_sensor e.sequence) _ h2 in
      let (ordered, h4) = fail_if-eq-ok _ (reverses_time e.sequence) _ h3 in
      let (linked, h5) = fail_if-eq-ok _ (previous_mismatch e.sequence) _ h4 in
      let (actual, digested, h6) = >>=-eq-ok (event_digest platform e) _ h5 in
      let (hashed, h7) = fail_if-eq-ok _ (hash_mismatch e.sequence) _ h6 in
      (numbered, built, sensed, ordered, linked, (actual, digested, hashed, h7))

  verify_from-Follows :
      (index : ℕ) (previous : String) (monotonic : ℕ) (es : List Event)
      → verify_from platform scope sensor index previous monotonic es ≡ ok tt
      → Follows index previous monotonic es
  verify_from-Follows index previous monotonic [] h = tt
  verify_from-Follows index previous monotonic (e ∷ es) h =
      let (numbered, built, sensed, ordered, linked, (actual, digested, hashed, later)) =
        verify_from-guards index previous monotonic e es h in
      let same : e.integrity.event_hash ≡ actual = ground arith in
      (
        record {
          sequence = ground arith;
          build = ground arith;
          sensor_same = ground arith;
          order = ground arith;
          previous_hash = ground arith;
          hash = cc (digested, same);
        },
        verify_from-Follows (index + 1) e.integrity.event_hash e.monotonic_ns es (rw same later),
      )

  Follows-verify_from :
      (index : ℕ) (previous : String) (monotonic : ℕ) (es : List Event)
      → Follows index previous monotonic es
      → verify_from platform scope sensor index previous monotonic es ≡ ok tt
  unfolding verify_from
  Follows-verify_from index previous monotonic [] h = refl
  Follows-verify_from index previous monotonic (e ∷ es) (l, f) =
      ground
        (arith, l.hash, Follows-verify_from (index + 1) e.integrity.event_hash e.monotonic_ns es f)

  -- The same by positions, from the position `offset` of the stream.
  pub record IsRun (offset : ℕ) (previous : String) (monotonic : ℕ) (es : List Event) : Type 0 where
    pub numbered : (i : ℕ) (e : Event) → get_elem? es i ≡ some e → e.sequence ≡ offset + i + 1
    pub one_build : (i : ℕ) (e : Event) → get_elem? es i ≡ some e → e.build ≡ scope
    pub one_sensor : (i : ℕ) (e : Event) → get_elem? es i ≡ some e → e.sensor ≡ sensor
    pub hashed :
        (i : ℕ) (e : Event)
        → get_elem? es i ≡ some e
        → event_digest platform e ≡ ok e.integrity.event_hash
    pub starts :
        (e : Event)
        → get_elem? es 0 ≡ some e
        → (e.integrity.previous_event_hash ≡ previous) × (monotonic ≤ e.monotonic_ns)
    pub linked :
        (i : ℕ) (e f : Event)
        → get_elem? es i ≡ some e
        → get_elem? es (suc i) ≡ some f
        → (f.integrity.previous_event_hash ≡ e.integrity.event_hash)
          × (e.monotonic_ns ≤ f.monotonic_ns)

  Follows-IsRun :
      (index : ℕ) (previous : String) (monotonic : ℕ) (es : List Event)
      → Follows index previous monotonic es
      → IsRun index previous monotonic es
  Follows-IsRun index previous monotonic [] h = record {
    numbered = λ i e p. cc;
    one_build = λ i e p. cc;
    one_sensor = λ i e p. cc;
    hashed = λ i e p. cc;
    starts = λ e p. cc;
    linked = λ i e f p q. cc;
  }
  Follows-IsRun index previous monotonic (x ∷ es) (l, f) =
      let r = Follows-IsRun (index + 1) x.integrity.event_hash x.monotonic_ns es f in
      record {
        numbered = elim [
          | zero ↦ λ e p. ground arith
          | suc i ↦ λ e p. omega (arith, r.numbered i e p)
        ];
        one_build = elim [ zero ↦ λ e p. ground (arith, l.build) | suc i ↦ r.one_build i ];
        one_sensor = elim [ zero ↦ λ e p. ground (arith, l.sensor_same) | suc i ↦ r.one_sensor i ];
        hashed = elim [ zero ↦ λ e p. ground (arith, l.hash) | suc i ↦ r.hashed i ];
        starts = λ e p. ground arith;
        linked = elim [
          | zero ↦ λ e g p q. ground (arith, r.starts g q)
          | suc i ↦ λ e g p q. r.linked i e g p q
        ];
      }

  IsRun-Follows :
      (index : ℕ) (previous : String) (monotonic : ℕ) (es : List Event)
      → IsRun index previous monotonic es
      → Follows index previous monotonic es
  IsRun-Follows index previous monotonic [] r = tt
  IsRun-Follows index previous monotonic (x ∷ es) r = (
    record {
      sequence = omega (arith, r.numbered 0 x refl);
      build = r.one_build 0 x refl;
      sensor_same = r.one_sensor 0 x refl;
      order = (r.starts x refl).1;
      previous_hash = (r.starts x refl).0;
      hash = r.hashed 0 x refl;
    },
    IsRun-Follows (index + 1) x.integrity.event_hash x.monotonic_ns es (record {
      numbered = λ i e p. omega (arith, r.numbered (suc i) e p);
      one_build = λ i. r.one_build (suc i);
      one_sensor = λ i. r.one_sensor (suc i);
      hashed = λ i. r.hashed (suc i);
      starts = λ e p. r.linked 0 x e refl p;
      linked = λ i. r.linked (suc i);
    }),
  )

-- A stream passes `verifyChain` exactly when the event at position i has the sequence i + 1, the
-- build scope and the sensor of the first event, and its own digest as its event hash; the first
-- event has the zero hash before it, and every other the hash of its predecessor and no earlier
-- time.
pub verify_chain_iff :
    (platform : Platform) (events : Events)
    → (verify_chain platform events ≡ ok tt)
      ↔ IsRun platform events.first.build events.first.sensor 0 zero_hash 0 (all events)
unfolding verify_chain
verify_chain_iff platform events = (
  λ h.
      Follows-IsRun platform _ _ 0 zero_hash 0 (all events)
        (verify_from-Follows platform _ _ 0 zero_hash 0 (all events) h),
  λ r.
      Follows-verify_from platform _ _ 0 zero_hash 0 (all events)
        (IsRun-Follows platform _ _ 0 zero_hash 0 (all events) r),
)

pub verify_chain-Follows :
    (platform : Platform) (events : Events)
    → verify_chain platform events ≡ ok tt
    → Follows platform events.first.build events.first.sensor 0 zero_hash 0 (all events)
unfolding verify_chain
verify_chain-Follows platform events h =
    verify_from-Follows platform _ _ 0 zero_hash 0 (all events) h

pub Follows-verify_chain :
    (platform : Platform) (events : Events)
    → Follows platform events.first.build events.first.sensor 0 zero_hash 0 (all events)
    → verify_chain platform events ≡ ok tt
unfolding verify_chain
Follows-verify_chain platform events h =
    Follows-verify_from platform _ _ 0 zero_hash 0 (all events) h

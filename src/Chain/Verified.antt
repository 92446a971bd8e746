-- ===== src/Chain/Verified.antt =====
-- What internal/rpf/chain.go writes, internal/rpf/evidence.go verifies.
use runtime_provenance_firew.Base.{
  ℕ, ◌+◌, ◌^◌, ◌≤◌, ◌<◌, ◌≡◌, sym, ap, subst, subst₂, ◌∙◌, List, [], ◌∷◌, arith, length, ok, err,
  Error,
}
use runtime_provenance_firew.Json.{Fields}
use runtime_provenance_firew.Model.{Event, BuildScope, Sensor, zero_hash}
use runtime_provenance_firew.Platform.{Platform, Bytes}
use runtime_provenance_firew.Platform.Laws.{IsJson}
use runtime_provenance_firew.Parse.{max_events}
use runtime_provenance_firew.Evidence.{Events, all, committed_body, verify_chain, validate_event}
use runtime_provenance_firew.Evidence.Body.{event_digest-hash}
use runtime_provenance_firew.Evidence.Linkage.{Follows, Follows-verify_chain}
use runtime_provenance_firew.Chain.{EventChain, new_event_chain, append, increment}
use runtime_provenance_firew.Chain.Append.{append_failed, stamped, append-eq-ok}

-- Times that do not fall, from `monotonic` on.
abbrev pub Rises : ℕ → List Event → Type 0
Rises monotonic [] = Unit
Rises monotonic (e ∷ es) = (monotonic ≤ e.monotonic_ns) × Rises e.monotonic_ns es

abbrev pub AllValid : List Event → Type 0
AllValid [] = Unit
AllValid (e ∷ es) = (validate_event e ≡ ok tt) × AllValid es

new_event_chain-eq-ok :
    (build : BuildScope) (sensor : Sensor) (chain : EventChain)
    → new_event_chain build sensor ≡ ok chain
    → chain ≡ record { build = build; sensor = sensor; sequence = 0; previous = zero_hash }
unfolding new_event_chain
new_event_chain-eq-ok build sensor chain h = ground arith

module _ (platform : Platform) where
  -- The events that calls of `Append` write from a chain on, failed calls among them.
  pub data Writes : EventChain → List Event → Type 0 where
    done : (chain : EventChain) → Writes chain []
    failed :
        (chain : EventChain) (event : Event) (e : Error) (fs : List Event)
        → (append platform chain event).1 ≡ err e
        → Writes (append platform chain event).0 fs
        → Writes chain fs
    written :
        (chain : EventChain) (event f : Event) (line : Bytes) (fs : List Event)
        → (append platform chain event).1 ≡ ok (f, line)
        → Writes (append platform chain event).0 fs
        → Writes chain (f ∷ fs)

  -- Every finished event decodes strictly, within the limits for an event.
  abbrev pub Readable : List Event → Type 0
  Readable [] = Unit
  Readable (e ∷ es) = ((fs : Fields) × (committed_body platform e ≡ ok fs)) × Readable es

  module _ (json : IsJson platform) where
    Writes-Follows :
        (chain : EventChain) (es : List Event) (m : ℕ)
        → Writes chain es
        → chain.sequence + length es < 2 ^ 64
        → Rises m es
        → Readable es
        → Follows platform chain.build chain.sensor chain.sequence chain.previous m es
    Writes-Follows chain es m (done _) bound rises readable = tt
    Writes-Follows chain es m (failed _ event e _ refused w) bound rises readable =
        let same = append_failed platform chain event e (omega arith) refused in
        subst (λ (c : EventChain). Follows platform c.build c.sensor c.sequence c.previous m es)
          same
          (Writes-Follows (append platform chain event).0 es m w (rw same bound) rises readable)
    Writes-Follows chain es m (written _ event f line fs appended w) bound (rise, rises)
          (read, readable) =
        let s = stamped platform chain event f line appended in
        let a = append-eq-ok platform chain event f line appended in
        let step : increment chain.sequence ≡ chain.sequence + 1 = omega arith in
        let next : (append platform chain event).0
            ≡ record chain { sequence = chain.sequence + 1; previous = f.integrity.event_hash } =
          a.next_chain
          ∙ ap (λ n. record chain { sequence = n; previous = f.integrity.event_hash }) step in
        (
          record {
            sequence = s.sequence ∙ step;
            build = s.build;
            sensor_same = s.sensor;
            order = rise;
            previous_hash = s.previous;
            hash = event_digest-hash platform json f "" read.1 s.digested;
          },
          subst
              (λ (c : EventChain).
                Follows platform c.build c.sensor c.sequence c.previous f.monotonic_ns fs)
              next
              (Writes-Follows (append platform chain event).0 fs f.monotonic_ns w
                (rw next (omega arith)) rises readable),
        )

  Writes-valid : (chain : EventChain) (es : List Event) → Writes chain es → AllValid es
  Writes-valid chain es (done _) = tt
  Writes-valid chain es (failed _ event e _ refused w) = Writes-valid _ es w
  Writes-valid chain es (written _ event f line fs appended w) =
      ((append-eq-ok platform chain event f line appended).finished.valid, Writes-valid _ fs w)

-- On a platform that is as encoding/json documents, whatever calls of `Append` on a new chain
-- succeed, failed calls between them, the events written pass `validateEvent` one by one and
-- `verifyChain` together, if there are at most `max_events` of them, their times do not fall, and
-- each decodes strictly within the limits for an event.
pub written_chain_verifies :
    (platform : Platform)
    → IsJson platform
    → (build : BuildScope) (sensor : Sensor) (chain : EventChain) (events : Events)
    → new_event_chain build sensor ≡ ok chain
    → Writes platform chain (all events)
    → length (all events) ≤ max_events
    → Rises 0 (all events)
    → Readable platform (all events)
    → AllValid (all events) × (verify_chain platform events ≡ ok tt)
written_chain_verifies platform json build sensor chain events made w small rises readable =
    let start : EventChain = record {
      build = build;
      sensor = sensor;
      sequence = 0;
      previous = zero_hash;
    } in
    let writes : Writes platform start (all events) =
      subst (λ c. Writes platform c (all events)) (new_event_chain-eq-ok build sensor chain made)
        w in
    let followed =
      Writes-Follows platform json start (all events) 0 writes (omega arith) rises readable in
    (
      Writes-valid platform start (all events) writes,
      Follows-verify_chain platform events (
          subst₂ (λ b s. Follows platform b s 0 zero_hash 0 (all events)) (sym followed.0.build)
            (sym followed.0.sensor_same) followed),
    )

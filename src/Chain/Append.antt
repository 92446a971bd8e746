-- ===== src/Chain/Append.antt =====
-- `Append` of internal/rpf/chain.go on its error and success branches.
use runtime_provenance_firew.Base.{
  ℕ, ◌^◌, ◌<◌, String, ◌<>◌, ◌≡◌, refl, sym, ap, ◌∙◌, true, false, inl, inr, [], ◌∷◌, ◌++◌, arith,
  Bool-cases, Result, ok, err, >>=-eq-ok, Error, chain_owned,
}
use runtime_provenance_firew.Json.{decimal}
use runtime_provenance_firew.Model.{Event}
use runtime_provenance_firew.Model.Encoding.{event_value}
use runtime_provenance_firew.Platform.{Platform, Bytes}
use runtime_provenance_firew.Parse.{canonical, digest}
use runtime_provenance_firew.Evidence.{validate_event, event_digest}
use runtime_provenance_firew.Chain.{
  EventChain, increment, decrement, is_chain_owned, stamp, finish, settle, append,
}

module _ (platform : Platform) where
  settle_failed :
      (chain : EventChain) (r : Result (Event × Bytes)) (e : Error)
      → (settle platform chain r).1 ≡ err e
      → (settle platform chain r).0 ≡ record chain { sequence = decrement chain.sequence }
  unfolding settle
  settle_failed chain (ok (event, line)) e h = cc
  settle_failed chain (err x) e h = refl

  decrement-increment : (n : ℕ) → n < 2 ^ 64 → decrement (increment n) ≡ n
  decrement-increment n h = omega arith

  abbrev pub advance : EventChain → EventChain
  advance chain = record chain { sequence = increment chain.sequence }

  append_owned :
      (chain : EventChain) (event : Event)
      → is_chain_owned event ≡ true
      → append platform chain event ≡ (chain, err chain_owned)
  unfolding append
  append_owned chain event h = rw h

  append_free :
      (chain : EventChain) (event : Event)
      → is_chain_owned event ≡ false
      → append platform chain event
        ≡ settle platform (advance chain) (finish platform (stamp platform (advance chain) event))
  unfolding append
  append_free chain event h = rw h

  -- An append that fails, for whatever reason, leaves the chain as it was, if the chain's sequence is a
  -- uint64.
  pub append_failed :
      (chain : EventChain) (event : Event) (e : Error)
      → chain.sequence < 2 ^ 64
      → (append platform chain event).1 ≡ err e
      → (append platform chain event).0 ≡ chain
  append_failed chain event e bound h = elim (Bool-cases (is_chain_owned event)) [
    | inl owned ↦ rw (append_owned chain event owned)
    | inr free ↦ rw (append_free chain event free) (
        settle_failed (advance chain) _ e (rw (append_free chain event free) at h)
        ∙ ap (λ n. record chain { sequence = n }) (decrement-increment chain.sequence bound))
  ]

  -- What `finish` does with the hash that it computes.
  abbrev pub hashed : Event → String → Event
  hashed e hash = record e { integrity = record e.integrity { event_hash = hash } }

  pub record IsFinished (e f : Event) (line : Bytes) : Type 0 where
    pub digested : event_digest platform e ≡ ok f.integrity.event_hash
    pub finished : f ≡ hashed e f.integrity.event_hash
    pub valid : validate_event f ≡ ok tt
    pub written :
        (raw : Bytes) × (canonical platform (event_value f) ≡ ok raw) × (line ≡ raw ++ b'\n' ∷ [])

  finish-eq-ok :
      (e f : Event) (line : Bytes) → finish platform e ≡ ok (f, line) → IsFinished e f line
  unfolding finish
  finish-eq-ok e f line h =
      let (hash, digested, h1) = >>=-eq-ok (event_digest platform e) _ h in
      let (unit, valid, h2) = >>=-eq-ok (validate_event (hashed e hash)) _ h1 in
      let (raw, written, h3) = >>=-eq-ok (canonical platform (event_value (hashed e hash))) _ h2 in
      let same : hashed e hash ≡ f = cc in
      let same_line : raw ++ b'\n' ∷ [] ≡ line = cc in
      rw (← same) (record {
        digested = digested;
        finished = refl;
        valid = valid;
        written = (raw, written, sym same_line);
      })

  settle-eq-ok :
      (chain : EventChain) (r : Result (Event × Bytes)) (f : Event) (line : Bytes)
      → (settle platform chain r).1 ≡ ok (f, line)
      → (r ≡ ok (f, line))
        × ((settle platform chain r).0 ≡ record chain { previous = f.integrity.event_hash })
  unfolding settle
  settle-eq-ok chain (ok pair) f line h = (h, cc)
  settle-eq-ok chain (err x) f line h = cc

  -- What an append that succeeds has written, and how the chain goes on.
  pub record Appended (chain : EventChain) (event f : Event) (line : Bytes) : Type 0 where
    pub free : is_chain_owned event ≡ false
    pub finished : IsFinished (stamp platform (advance chain) event) f line
    pub next_chain :
        (append platform chain event).0
        ≡ record chain { sequence = increment chain.sequence; previous = f.integrity.event_hash }

  pub append-eq-ok :
      (chain : EventChain) (event f : Event) (line : Bytes)
      → (append platform chain event).1 ≡ ok (f, line)
      → Appended chain event f line
  append-eq-ok chain event f line h = elim (Bool-cases (is_chain_owned event)) [
    | inl owned ↦
        let refused : (append platform chain event).1 ≡ err chain_owned =
          ap (λ p. p.1) (append_owned chain event owned) in
        cc
    | inr free ↦
        let (done, next) =
          settle-eq-ok (advance chain) (finish platform (stamp platform (advance chain) event)) f
            line (rw (append_free chain event free) at h) in
        record {
          free = free;
          finished = finish-eq-ok _ f line done;
          next_chain = ap (λ p. p.0) (append_free chain event free) ∙ next;
        }
  ]

  -- The event of a line: the caller's observation under the chain's metadata, hashed while its
  -- event hash was empty.
  pub record IsStamped (chain : EventChain) (event f : Event) : Type 0 where
    pub schema_version : f.schema_version ≡ "0.2"
    pub event_id :
        f.event_id
        ≡ "urn:rpf:event:"
          <> digest platform (
              platform.bytes_of (
                chain.build.build_id
                <> ("\0" <> (chain.build.run_id <> ("\0" <> decimal (increment chain.sequence))))))
    pub sequence : f.sequence ≡ increment chain.sequence
    pub build : f.build ≡ chain.build
    pub sensor : f.sensor ≡ chain.sensor
    pub previous : f.integrity.previous_event_hash ≡ chain.previous
    pub observed_at : f.observed_at ≡ event.observed_at
    pub monotonic : f.monotonic_ns ≡ event.monotonic_ns
    pub operation : f.operation ≡ event.operation
    pub process : f.process ≡ event.process
    pub resource : f.resource ≡ event.resource
    pub outcome : f.outcome ≡ event.outcome
    pub digested : event_digest platform (hashed f "") ≡ ok f.integrity.event_hash

  unhashed : (event : Event) → is_chain_owned event ≡ false → event.integrity.event_hash ≡ ""
  unfolding is_chain_owned
  unhashed event h = ground arith

  -- An event that `Append` returns has the schema version, the chain's build, sensor, next sequence and
  -- previous hash, the identifier made of these, the caller's two times, operation, process, resource
  -- and outcome, and as its hash the digest of the same event with an empty hash.
  pub stamped :
      (chain : EventChain) (event f : Event) (line : Bytes)
      → (append platform chain event).1 ≡ ok (f, line)
      → IsStamped chain event f
  unfolding stamp
  stamped chain event f line h =
      let a = append-eq-ok chain event f line h in
      let e = a.finished.finished in
      record {
        schema_version = ap (λ x. x.schema_version) e;
        event_id = ap (λ x. x.event_id) e;
        sequence = ap (λ x. x.sequence) e;
        build = ap (λ x. x.build) e;
        sensor = ap (λ x. x.sensor) e;
        previous = ap (λ x. x.integrity.previous_event_hash) e;
        observed_at = ap (λ x. x.observed_at) e;
        monotonic = ap (λ x. x.monotonic_ns) e;
        operation = ap (λ x. x.operation) e;
        process = ap (λ x. x.process) e;
        resource = ap (λ x. x.resource) e;
        outcome = ap (λ x. x.outcome) e;
        digested =
            ap (event_digest platform) (
              ap (λ x. hashed x "") e
              ∙ ap (λ x. hashed (stamp platform (advance chain) event) x)
                  (sym (unhashed event a.free)))
            ∙ a.finished.digested;
      }

-- ===== src/Evidence/Body.antt =====
-- What `eventDigest` of internal/rpf/evidence.go commits to.
use runtime_provenance_firew.Base.{
  ◌<◌, ◌^◌, String, string_lt, string_eq, ◌≡◌, refl, ap, ◌∙◌, some, ok, >>=-eq-ok,
}
use runtime_provenance_firew.Json.{
  Value, str, object, field, end, Fields, map_value, generic, decimal, lookup, replace, delete,
  sort_fields, number,
}
use runtime_provenance_firew.Json.Laws.{generic_idem}
use runtime_provenance_firew.Json.Decimal.{decimal-injective}
use runtime_provenance_firew.Model.{Event}
use runtime_provenance_firew.Model.Encoding.{
  event_value, process_value, build_value, outcome_value, sensor_value,
}
use runtime_provenance_firew.Platform.{Platform, Bytes, eof}
use runtime_provenance_firew.Platform.Laws.{IsJson, decode-canonical, canonical-injective}
use runtime_provenance_firew.Parse.Strict.{decode_strict-eq-ok}
use runtime_provenance_firew.Parse.{canonical, decode_strict, max_event_bytes}
use runtime_provenance_firew.Evidence.{strip_hash, committed_body, committed_bytes, event_digest}

module _ (platform : Platform) where
  abbrev pub form : Value → Value
  form = generic platform.float_text

  -- The entries of an event's JSON, with `integrity` in between.
  abbrev entries_around : Fields → Event → Fields
  entries_around integrity e = field "build" (form (build_value e.build)) (
      field "event_id" (str e.event_id) (
        field "integrity" (object integrity) (
          field "monotonic_ns" (number (decimal e.monotonic_ns)) (
            field "observed_at" (str e.observed_at) (
              field "operation" (str e.operation) (
                field "outcome" (form (outcome_value e.outcome)) (
                  field "process" (form (process_value e.process)) (
                    field "resource" (form (map_value e.resource)) (
                      field "schema_version" (str e.schema_version) (
                        field "sensor" (form (sensor_value e.sensor))
                          (field "sequence" (number (decimal e.sequence)) end)))))))))))

  -- The JSON of an event, and the same without `event_hash`.
  unfoldable pub entries : Event → Fields
  entries e =
      entries_around
        (field "event_hash" (str e.integrity.event_hash)
          (field "previous_event_hash" (str e.integrity.previous_event_hash) end))
        e

  pub body : Event → Fields
  body e = entries_around (field "previous_event_hash" (str e.integrity.previous_event_hash) end) e

  pub form-event_value : (e : Event) → form (event_value e) ≡ object (entries e)
  unfolding event_value entries generic sort_fields string_lt
  form-event_value e = refl

  form-body : (e : Event) → form (object (body e)) ≡ object (body e)
  unfolding body generic
  form-body e = cc (
    generic_idem platform.float_text (build_value e.build),
    generic_idem platform.float_text (outcome_value e.outcome),
    generic_idem platform.float_text (process_value e.process),
    generic_idem platform.float_text (map_value e.resource),
    generic_idem platform.float_text (sensor_value e.sensor),
  )

  strip_hash-entries : (e : Event) → strip_hash (entries e) ≡ ok (body e)
  unfolding entries body strip_hash lookup replace delete string_eq
  strip_hash-entries e = refl

  module _ (json : IsJson platform) where
    committed_body-eq : (e : Event) {fs : Fields} → committed_body platform e ≡ ok fs → fs ≡ body e
    unfolding committed_body
    committed_body-eq e {fs} h =
        let (raw, written, h1) = >>=-eq-ok (canonical platform (event_value e)) _ h in
        let (fs', strict, h2) =
          >>=-eq-ok (decode_strict platform platform.decode_map raw max_event_bytes) _ h1 in
        let decoded =
          (decode_strict-eq-ok platform platform.decode_map raw max_event_bytes strict).decoded in
        let tree =
          decode-canonical platform json (event_value e) raw written
          ∙ ap some (form-event_value e) in
        let same : fs' ≡ entries e = json.decode_map-object raw (entries e) fs' eof tree decoded in
        let stripped : strip_hash (entries e) ≡ ok fs = rw same at h2 in
        cc (strip_hash-entries e, stripped)

    pub committed_bytes-written :
        (e : Event) {raw : Bytes}
        → committed_bytes platform e ≡ ok raw
        → canonical platform (object (body e)) ≡ ok raw
    unfolding committed_bytes
    committed_bytes-written e h =
        let (fs, of_e, h1) = >>=-eq-ok (committed_body platform e) _ h in
        rw (committed_body-eq e of_e) at h1

    -- The bytes of two events are the same only if their bodies are.
    pub committed_bytes-injective :
        (e f : Event) {raw : Bytes}
        → committed_bytes platform e ≡ ok raw
        → committed_bytes platform f ≡ ok raw
        → body e ≡ body f
    committed_bytes-injective e f {raw} h k =
        let same =
          canonical-injective platform json (object (body e)) (object (body f)) raw
            (committed_bytes-written e h) (committed_bytes-written f k) in
        cc (form-body e, form-body f, same)

    -- The digest does not depend on the event hash, if the event can be read back.
    pub event_digest-hash :
        (e : Event) (hash : String) {fs : Fields} {digested : String}
        → committed_body platform e ≡ ok fs
        → event_digest platform (record e { integrity = record e.integrity { event_hash = hash } })
          ≡ ok digested
        → event_digest platform e ≡ ok digested
    unfolding event_digest committed_bytes
    event_digest-hash e hash {fs} h k =
        let other : Event = record e { integrity = record e.integrity { event_hash = hash } } in
        let (raw, written, k1) = >>=-eq-ok (committed_bytes platform other) _ k in
        let same : fs ≡ body other = committed_body-eq e h ∙ unfold body in refl in
        let rewritten : canonical platform (object fs) ≡ ok raw =
          rw same (committed_bytes-written other written) in
        rw (h, rewritten) k1

-- What an equation between bodies says of the events.
pub body-previous :
    (platform : Platform) (e f : Event)
    → body platform e ≡ body platform f
    → e.integrity.previous_event_hash ≡ f.integrity.previous_event_hash
unfolding body
body-previous platform e f h = cc

pub body-sequence :
    (platform : Platform) (e f : Event)
    → body platform e ≡ body platform f
    → e.sequence < 2 ^ 64
    → f.sequence < 2 ^ 64
    → e.sequence ≡ f.sequence
unfolding body
body-sequence platform e f h bound bound' =
    decimal-injective e.sequence f.sequence bound bound' (cc)

-- The JSON of events with the same body and the same event hash is the same.
pub body-form :
    (platform : Platform) (e f : Event)
    → body platform e ≡ body platform f
    → e.integrity.event_hash ≡ f.integrity.event_hash
    → form platform (event_value e) ≡ form platform (event_value f)
unfolding body entries
body-form platform e f h k = cc (h, k, form-event_value platform e, form-event_value platform f)

-- ===== src/Stream/Written.antt =====
-- `ParseEventStream` of internal/rpf/evidence.go on the lines that internal/rpf/chain.go writes.
use runtime_provenance_firew.Base.{
  ℕ, suc, ◌+◌, ◌≤◌, ◌<◌, String, ◌≡◌, ◌≢◌, refl, sym, ap, ◌∙◌, Option, none, some, List, [], ◌∷◌,
  ◌++◌, map, arith, length, length-append, nat_eq, bytes_eq, ok, require-eq-ok, marshal_failed,
  decode_failed, require-some,
}
use runtime_provenance_firew.Json.{Value, Fields, generic, generic_fields, map_value}
use runtime_provenance_firew.Json.Laws.{generic_idem}
use runtime_provenance_firew.Model.{Event, BuildScope, Sensor, zero_hash}
use runtime_provenance_firew.Model.Encoding.{event_value}
use runtime_provenance_firew.Platform.{Platform, Bytes}
use runtime_provenance_firew.Platform.Laws.{IsJson}
use runtime_provenance_firew.Parse.{canonical, max_event_bytes, max_document_bytes, max_events}
use runtime_provenance_firew.Parse.Strict.{Decoded, Decoded-decode_strict}
use runtime_provenance_firew.Evidence.{
  Events, all, validate_event, event_digest, committed_body, committed_bytes, verify_chain,
}
use runtime_provenance_firew.Evidence.Body.{form, entries, form-event_value}
use runtime_provenance_firew.Evidence.Linkage.{Follows, verify_chain-Follows, Follows-verify_chain}
use runtime_provenance_firew.Stream.{
  split_lines, drop_cr, read_event, read_events, parse_event_stream, non_empty,
}

-- No line end and no carriage return.
abbrev pub IsPlain : Bytes → Type 0
IsPlain [] = Unit
IsPlain (b ∷ bytes) = (b ≢ b'\n') × (b ≢ b'\r') × IsPlain bytes

-- What encoding/json documents of the text that Marshal writes: it is one line with nothing to
-- trim, and whether it exists depends on the value's generic form only.
pub record IsLineJson (platform : Platform) : Type 0 where
  pub marshal-IsPlain : (v : Value) (raw : Bytes) → platform.marshal v ≡ some raw → IsPlain raw
  pub trim_space-marshal :
      (v : Value) (raw : Bytes) → platform.marshal v ≡ some raw → platform.trim_space raw ≡ raw
  pub marshal-generic :
      (v w : Value) (raw : Bytes)
      → generic platform.float_text v ≡ generic platform.float_text w
      → platform.marshal v ≡ some raw
      → (other : Bytes) × (platform.marshal w ≡ some other)

split_lines-line :
    (raw rest : Bytes) → IsPlain raw → split_lines (raw ++ b'\n' ∷ rest) ≡ raw ∷ split_lines rest
unfolding split_lines
split_lines-line [] rest plain = ground arith
split_lines-line (b ∷ raw) rest (line, _, plain) = ground (arith, split_lines-line raw rest plain)

drop_cr-plain : (raw : Bytes) → IsPlain raw → drop_cr raw ≡ raw
unfolding drop_cr
drop_cr-plain [] plain = refl
drop_cr-plain (b ∷ []) (_, line, plain) = ground arith
drop_cr-plain (b ∷ c ∷ raw) (_, line, plain) = ap (λ r. b ∷ r) (drop_cr-plain (c ∷ raw) plain)

module _ (platform : Platform) where
  open platform use {marshal, decode_any, float_text}

  -- The event as it is read back: its resource is what a decoder with UseNumber makes of it.
  abbrev pub settled_map : Option Fields → Option Fields
  settled_map none = none
  settled_map (some fs) = some (generic_fields float_text fs)

  unfoldable pub settled : Event → Event
  settled e = record e { resource = settled_map e.resource }

  pub form-settled_map :
      (m : Option Fields) → form platform (map_value (settled_map m)) ≡ form platform (map_value m)
  unfolding generic
  form-settled_map none = refl
  form-settled_map (some fs) = generic_idem float_text (map_value (some fs))

  form-settled :
      (e : Event) → form platform (event_value (settled e)) ≡ form platform (event_value e)
  unfolding settled entries
  form-settled e = cc (
    form-event_value platform (settled e),
    form-event_value platform e,
    form-settled_map e.resource,
  )

  validate_event-settled : (e : Event) → validate_event (settled e) ≡ validate_event e
  unfolding settled validate_event
  validate_event-settled e = refl

  module _ (json : IsJson platform) (line_json : IsLineJson platform) where
    canonical-marshal :
        (v : Value) (raw : Bytes)
        → canonical platform v ≡ ok raw
        → ((text : Bytes) × (marshal v ≡ some text)) × (marshal (generic float_text v) ≡ some raw)
    unfolding canonical
    canonical-marshal v raw h =
        let (text, marshalled, h1) = require-eq-ok (marshal v) marshal_failed _ h in
        let (tree, decoded, h2) = require-eq-ok (decode_any text) decode_failed _ h1 in
        let same : tree ≡ generic float_text v = cc (json.decode-marshal v text marshalled) in
        ((text, marshalled), rw same at (require-some (marshal tree) marshal_failed h2))

    canonical-written :
        (v : Value) (text raw : Bytes)
        → marshal v ≡ some text
        → marshal (generic float_text v) ≡ some raw
        → canonical platform v ≡ ok raw
    unfolding canonical
    canonical-written v text raw h k = rw (h, json.decode-marshal v text h, k) refl

    -- Canonical bytes depend on the generic form only.
    pub canonical-generic :
        (v w : Value) (raw : Bytes)
        → form platform v ≡ form platform w
        → canonical platform v ≡ ok raw
        → canonical platform w ≡ ok raw
    canonical-generic v w raw same h =
        let ((text, marshalled), written) = canonical-marshal v raw h in
        let (other, marshalled') = line_json.marshal-generic v w text same marshalled in
        canonical-written w other raw marshalled' (rw same at written)

    module _ (e : Event) (raw : Bytes) (written : canonical platform (event_value e) ≡ ok raw) where
      settled-written : canonical platform (event_value (settled e)) ≡ ok raw
      settled-written =
          canonical-generic (event_value e) (event_value (settled e)) raw (sym (form-settled e))
            written

      event_digest-settled : event_digest platform (settled e) ≡ event_digest platform e
      unfolding event_digest committed_bytes committed_body
      event_digest-settled = rw (settled-written, written) refl

      written-IsPlain : IsPlain raw
      written-IsPlain =
          line_json.marshal-IsPlain (form platform (event_value e)) raw
            (canonical-marshal (event_value e) raw written).1

      read_event-written :
          (count : ℕ)
          → Decoded platform platform.decode_event raw max_event_bytes (settled e)
          → validate_event e ≡ ok tt
          → count + 1 ≤ max_events
          → read_event platform count raw ≡ ok (settled e)
      unfolding read_event
      read_event-written count d valid room =
          let line : platform.trim_space (drop_cr raw) ≡ raw =
            ap platform.trim_space (drop_cr-plain raw written-IsPlain)
            ∙ line_json.trim_space-marshal (form platform (event_value e)) raw
                (canonical-marshal (event_value e) raw written).1 in
          let strict =
            Decoded-decode_strict platform platform.decode_event raw max_event_bytes (settled e)
              d in
          let accepted : validate_event (settled e) ≡ ok tt = validate_event-settled e ∙ valid in
          ground (arith, line, strict, accepted, settled-written, d.not_empty)

  -- The text of a line decodes to the event, and fits the scanner's buffer.
  pub record IsRead (e : Event) (raw : Bytes) : Type 0 where
    pub written : canonical platform (event_value e) ≡ ok raw
    pub decoded : Decoded platform platform.decode_event raw max_event_bytes (settled e)
    pub fits : length raw < max_event_bytes
    pub valid : validate_event e ≡ ok tt

  -- The bytes are the lines of the events.
  abbrev pub Lines : List Event → Bytes → Type 0
  Lines [] bytes = bytes ≡ []
  Lines (e ∷ es) bytes =
      (raw : Bytes) × (rest : Bytes) × IsRead e raw × Lines es rest × (bytes ≡ raw ++ b'\n' ∷ rest)

  module _ (json : IsJson platform) (line_json : IsLineJson platform) where
    read_events-Lines :
        (count : ℕ) (es : List Event) (bytes : Bytes)
        → Lines es bytes
        → count + length es ≤ max_events
        → read_events platform count (split_lines bytes) ≡ ok (map settled es)
    unfolding read_events split_lines
    read_events-Lines count [] bytes h room = rw h refl
    read_events-Lines count (e ∷ es) bytes (raw, rest, read, lines, same) room =
        let first =
          read_event-written json line_json e raw read.written count read.decoded read.valid
            (omega arith) in
        let later = read_events-Lines (count + 1) es rest lines (omega arith) in
        let cut = split_lines-line raw rest (written-IsPlain json line_json e raw read.written) in
        let all_lines : split_lines bytes ≡ raw ∷ split_lines rest = ap split_lines same ∙ cut in
        rw all_lines (ground (arith, first, later, read.fits))

    Follows-settled :
        (scope : BuildScope) (sensor : Sensor) (index : ℕ) (previous : String) (monotonic : ℕ)
        (es : List Event) (bytes : Bytes)
        → Lines es bytes
        → Follows platform scope sensor index previous monotonic es
        → Follows platform scope sensor index previous monotonic (map settled es)
    unfolding settled
    Follows-settled scope sensor index previous monotonic [] bytes lines f = tt
    Follows-settled scope sensor index previous monotonic (e ∷ es) bytes
          (raw, rest, read, lines, same) (l, f) =
        (
          record {
            sequence = l.sequence;
            build = l.build;
            sensor_same = l.sensor_same;
            order = l.order;
            previous_hash = l.previous_hash;
            hash = event_digest-settled json line_json e raw read.written ∙ l.hash;
          },
          Follows-settled scope sensor (index + 1) e.integrity.event_hash e.monotonic_ns es rest
              lines f,
        )

    -- A file that holds the lines of a verified stream, within the limits, parses to its events.
    pub parse_event_stream-Lines :
        (events : Events) (bytes : Bytes)
        → Lines (all events) bytes
        → verify_chain platform events ≡ ok tt
        → length (all events) ≤ max_events
        → length bytes ≤ max_document_bytes
        → parse_event_stream platform bytes
          ≡ ok (record { first = settled events.first; rest = map settled events.rest })
    unfolding parse_event_stream non_empty settled
    parse_event_stream-Lines events bytes lines verified few small =
        let read = read_events-Lines 0 (all events) bytes lines (omega arith) in
        let followed =
          Follows-settled events.first.build events.first.sensor 0 zero_hash 0 (all events) bytes
            lines (verify_chain-Follows platform events verified) in
        let again : verify_chain platform
              (record { first = settled events.first; rest = map settled events.rest })
            ≡ ok tt =
          Follows-verify_chain platform
            (record { first = settled events.first; rest = map settled events.rest }) followed in
        let (raw, rest, _, _, same) = lines in
        let size : length bytes ≡ length raw + suc (length rest) =
          ap length same ∙ length-append raw (b'\n' ∷ rest) in
        ground (arith, read, again, size)

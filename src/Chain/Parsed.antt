-- ===== src/Chain/Parsed.antt =====
-- The file that calls of `Append` in internal/rpf/chain.go write, read by `ParseEventStream` of
-- internal/rpf/evidence.go.
use mathlib.Core.List.{append_assoc}
use runtime_provenance_firew.Base.{
  ◌≤◌, ◌<◌, ◌≡◌, refl, ap, ◌∙◌, List, [], ◌∷◌, ◌++◌, map, length, ok,
}
use runtime_provenance_firew.Model.{Event, BuildScope, Sensor}
use runtime_provenance_firew.Model.Encoding.{event_value}
use runtime_provenance_firew.Platform.{Platform, Bytes}
use runtime_provenance_firew.Platform.Laws.{IsJson}
use runtime_provenance_firew.Parse.{canonical, max_event_bytes, max_document_bytes, max_events}
use runtime_provenance_firew.Parse.Strict.{Decoded}
use runtime_provenance_firew.Evidence.{Events, all}
use runtime_provenance_firew.Stream.{parse_event_stream}
use runtime_provenance_firew.Stream.Written.{IsLineJson, settled, Lines, parse_event_stream-Lines}
use runtime_provenance_firew.Chain.{EventChain, new_event_chain}
use runtime_provenance_firew.Chain.Append.{append-eq-ok}
use runtime_provenance_firew.Chain.Verified.{
  Writes, done, failed, written, Rises, Readable, written_chain_verifies,
}

module _ (platform : Platform) where
  -- The bytes that the calls return, one after the other.
  abbrev pub output : {chain : EventChain} {es : List Event} → Writes platform chain es → Bytes
  output (done _) = []
  output (failed _ event e fs refused w) = output w
  output (written _ event f line fs appended w) = line ++ output w

  -- The text of an event is below the scanner's limit and decodes to the event.
  abbrev pub ReadsBack : List Event → Type 0
  ReadsBack [] = Unit
  ReadsBack (e ∷ es) =
      ((raw : Bytes)
        → canonical platform (event_value e) ≡ ok raw
        → Decoded platform platform.decode_event raw max_event_bytes (settled platform e)
          × (length raw < max_event_bytes))
      × ReadsBack es

  output-Lines :
      {chain : EventChain} {es : List Event} (w : Writes platform chain es)
      → ReadsBack es
      → Lines platform es (output w)
  output-Lines (done _) back = refl
  output-Lines (failed _ event e fs refused w) back = output-Lines w back
  output-Lines (written chain event f line fs appended w) (here, back) =
      let finished = (append-eq-ok platform chain event f line appended).finished in
      let (raw, text, same) = finished.written in
      let (decoded, fits) = here raw text in
      (
        raw,
        output w,
        record { written = text; decoded = decoded; fits = fits; valid = finished.valid },
        output-Lines w back,
        ap (λ l. l ++ output w) same ∙ append_assoc raw (b'\n' ∷ []) (output w),
      )

-- The bytes that calls of `Append` on a new chain return, failed calls between them, parse to the
-- events of those calls, their resources in the form that JSON gives them: on a platform that is as
-- encoding/json documents, within the limits on events and bytes, if the times do not fall and the
-- text of each event decodes strictly to that event.
pub written_stream_parses :
    (platform : Platform)
    → IsJson platform
    → IsLineJson platform
    → (build : BuildScope) (sensor : Sensor) (chain : EventChain) (events : Events)
    → new_event_chain build sensor ≡ ok chain
    → (w : Writes platform chain (all events)) → length (all events) ≤ max_events
    → Rises 0 (all events)
    → Readable platform (all events)
    → ReadsBack platform (all events)
    → length (output platform w) ≤ max_document_bytes
    → parse_event_stream platform (output platform w)
      ≡ ok (record {
        first = settled platform events.first;
        rest = map (settled platform) events.rest;
      })
written_stream_parses platform json line_json build sensor chain events made w few rises readable
      back small =
    parse_event_stream-Lines platform json line_json events (output platform w)
      (output-Lines platform w back)
      (written_chain_verifies platform json build sensor chain events made w few rises readable).1
      few small

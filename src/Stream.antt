-- ===== src/Stream.antt =====
-- `ParseEventStream` of internal/rpf/evidence.go, with the lines that bufio.Scanner yields.
pub mod Written
use runtime_provenance_firew.Base.{
  ℕ, ◌+◌, Bool, ◌||◌, true, List, [], ◌∷◌, length, ltb, leb, ◌==◌, ◌!=◌, nat_eq, bytes_eq,
  if◌then◌else◌, Result, ok, err, ◌>>=◌, ◌>>◌, fail_if, wrap, stream_size, blank_line,
  not_canonical, event_count, scan_failed, stream_empty, at_line,
}
use runtime_provenance_firew.Model.{Event}
use runtime_provenance_firew.Model.Encoding.{event_value}
use runtime_provenance_firew.Platform.{Platform, Bytes}
use runtime_provenance_firew.Parse.{
  canonical, decode_strict, max_document_bytes, max_event_bytes, max_events,
}
use runtime_provenance_firew.Evidence.{Events, validate_event, verify_chain}

add_byte : ℕ → List Bytes → List Bytes
add_byte b [] = (b ∷ []) ∷ []
add_byte b (line ∷ lines) = (b ∷ line) ∷ lines

-- The lines that end at `\n`, and what stands behind the last `\n` if that is not empty.
unfoldable pub split_lines : Bytes → List Bytes
unfolding add_byte
split_lines [] = []
split_lines (b ∷ bytes) =
    let lines = split_lines bytes in if b == b'\n' then [] ∷ lines else add_byte b lines

-- bufio.ScanLines drops a `\r` at a line's end.
unfoldable pub drop_cr : Bytes → Bytes
drop_cr [] = []
drop_cr (b ∷ []) = if b == b'\r' then [] else b ∷ []
drop_cr (b ∷ c ∷ bytes) = b ∷ drop_cr (c ∷ bytes)

-- `err != nil || !bytes.Equal(line, canonicalLine)`
abbrev pub is_other : Bytes → Result Bytes → Bool
is_other line (ok canonical_line) = line != canonical_line
is_other line (err e) = true

-- `if len(events) == 0 { … }`
unfoldable pub non_empty : List Event → Result Events
non_empty [] = err stream_empty
non_empty (event ∷ events) = ok (record { first = event; rest = events })

module _ (platform : Platform) where
  -- One round of the loop: the event of a line, where `count` events were read before it.
  unfoldable pub read_event : ℕ → Bytes → Result Event
  read_event count token = do
    let line = platform.trim_space (drop_cr token)
    fail_if (length line == 0) blank_line
    event ←
        wrap (at_line (count + 1))
          (decode_strict platform platform.decode_event line max_event_bytes)
    wrap (at_line (count + 1)) (validate_event event)
    fail_if (is_other line (canonical platform (event_value event))) not_canonical
    fail_if (ltb max_events (count + 1)) event_count
    ok event

  -- The loop. A line that fills the scanner's buffer of `max_event_bytes` ends it with an error.
  unfoldable pub read_events : ℕ → List Bytes → Result (List Event)
  unfolding read_event
  read_events count [] = ok []
  read_events count (token ∷ tokens) = do
    fail_if (leb max_event_bytes (length token)) scan_failed
    event ← read_event count token
    events ← read_events (count + 1) tokens
    ok (event ∷ events)

  unfoldable pub parse_event_stream : Bytes → Result Events
  unfolding read_events non_empty split_lines
  parse_event_stream raw = do
    fail_if (length raw == 0 || ltb max_document_bytes (length raw)) stream_size
    list ← read_events 0 (split_lines raw)
    events ← non_empty list
    verify_chain platform events
    ok events

-- ===== src/Tests/Runs.antt =====
-- Two events that a chain wrote, their digests, and the calls that wrote them.
use native.Mathlib.Decide.{ℕ_discrete}
use runtime_provenance_firew.Chain.{
  EventChain, new_event_chain, append, settle, finish, stamp, is_chain_owned,
}
use runtime_provenance_firew.Chain.Verified.{Readable, Writes, done, failed, written}
use runtime_provenance_firew.Chain.Append.{append_failed}
use runtime_provenance_firew.Chain.Parsed.{ReadsBack, output}
use runtime_provenance_firew.Stream.Written.{settled}
use runtime_provenance_firew.Parse.Strict.{Decoded}
use runtime_provenance_firew.Parse.{max_event_bytes, max_document_bytes}
use runtime_provenance_firew.Tests.Sample.{text_of_event}
use runtime_provenance_firew.Base.{length, ◌<◌, ◌≤◌, ◌∙◌}
use runtime_provenance_firew.Evidence.{all, validate_event, is_allowed, lacks_identity}
use runtime_provenance_firew.Evidence.Linkage.{Follows, Follows-verify_chain}
use runtime_provenance_firew.Model.{integrity_eq}
use runtime_provenance_firew.Tests.Sample.{new_chain}
use runtime_provenance_firew.Base.{
  chain_owned, sym, subst, arith, ℕ, List, ◌++◌, ◌≡◌, refl, ok, err, Result, none, some, [], ◌∷◌,
  string_eq, nat_eq, string_dec, string_lt,
}
use runtime_provenance_firew.Base.Equality.{bytes_eq}
use runtime_provenance_firew.Json.{
  lookup, replace, delete, generic, sort_fields, insert_sorted, decimal, decimal_int,
}
use runtime_provenance_firew.Model.{Event, zero_hash, build_eq, sensor_eq}
use runtime_provenance_firew.Model.Encoding.{event_value, process_value}
use runtime_provenance_firew.Parse.{
  canonical, decode_strict, validate_json_shape, walk_json, require_eof,
}
use runtime_provenance_firew.Evidence.{
  Events, verify_chain, event_digest, committed_bytes, committed_body, strip_hash,
}
use runtime_provenance_firew.Tests.Codec.{
  read_value, read, read_text, write, write_text, char_of, char_from, in_range, are_less, is_less,
}
use runtime_provenance_firew.Tests.Sample.{
  platform_with, sum, build, sensor, observation, chain_platform, started, finished, no_loss,
}

abbrev pub events : Events
events = record { first = started; rest = finished ∷ [] }

pub started_hash : event_digest chain_platform started ≡ ok "sha256:371925061"
unfolding event_digest committed_bytes committed_body strip_hash canonical decode_strict
    validate_json_shape walk_json require_eof lookup replace delete generic sort_fields
    insert_sorted string_lt string_dec decimal decimal_int event_value process_value platform_with
    sum read_value read read_text write write_text char_of char_from in_range are_less is_less
    string_eq nat_eq bytes_eq build_eq sensor_eq ℕ_discrete
started_hash = refl

pub finished_hash : event_digest chain_platform finished ≡ ok "sha256:3579879728"
unfolding event_digest committed_bytes committed_body strip_hash canonical decode_strict
    validate_json_shape walk_json require_eof lookup replace delete generic sort_fields
    insert_sorted string_lt string_dec decimal decimal_int event_value process_value platform_with
    sum read_value read read_text write write_text char_of char_from in_range are_less is_less
    string_eq nat_eq bytes_eq build_eq sensor_eq ℕ_discrete
finished_hash = refl

abbrev IsOk : {A : Type 0} → Result A → Type 0
IsOk (ok a) = Unit
IsOk (err e) = ⊥

readable_fields : {A : Type 0} (r : Result A) → IsOk r → (a : A) × (r ≡ ok a)
readable_fields (ok a) h = (a, refl)
readable_fields (err e) h = absurd h

pub events-Readable : Readable chain_platform (all events)
unfolding committed_body strip_hash canonical decode_strict validate_json_shape walk_json
    require_eof lookup replace delete generic sort_fields insert_sorted string_lt string_dec decimal
    decimal_int event_value process_value platform_with sum read_value read read_text write
    write_text char_of char_from in_range are_less is_less string_eq nat_eq bytes_eq build_eq
    sensor_eq ℕ_discrete
events-Readable = (
  readable_fields (committed_body chain_platform started) tt,
  (readable_fields (committed_body chain_platform finished) tt, tt),
)

pub events-Follows : Follows chain_platform build sensor 0 zero_hash 0 (all events)
events-Follows = (
  record {
    sequence = refl;
    build = refl;
    sensor_same = refl;
    order = omega arith;
    previous_hash = refl;
    hash = started_hash;
  },
  (
    record {
      sequence = refl;
      build = refl;
      sensor_same = refl;
      order = omega arith;
      previous_hash = refl;
      hash = finished_hash;
    },
    tt,
  ),
)

pub events_verify : verify_chain chain_platform events ≡ ok tt
events_verify = Follows-verify_chain chain_platform events events-Follows

abbrev pub text_or_empty : Result (List ℕ) → List ℕ
text_or_empty (ok raw) = raw
text_or_empty (err e) = []

-- The lines of the events.
abbrev pub line : Event → List ℕ
line e = text_or_empty (canonical chain_platform (event_value e)) ++ b'\n' ∷ []

abbrev pub first_observation : Event
first_observation = observation 10 "sensor_started" none none

pub started_appended :
    (append chain_platform new_chain first_observation).1 ≡ ok (started, line started)
unfolding append settle finish stamp is_chain_owned validate_event is_allowed lacks_identity
    integrity_eq event_digest committed_bytes committed_body strip_hash canonical decode_strict
    validate_json_shape walk_json require_eof lookup replace delete generic sort_fields
    insert_sorted string_lt string_dec decimal decimal_int event_value process_value platform_with
    sum read_value read read_text write write_text char_of char_from in_range are_less is_less
    string_eq nat_eq bytes_eq build_eq sensor_eq ℕ_discrete
started_appended = refl

-- The chain behind the first event.
abbrev second_chain : EventChain
second_chain = (append chain_platform new_chain first_observation).0

abbrev second_observation : Event
second_observation = observation 20 "sensor_finalized" none (some no_loss)

finished_appended :
    (append chain_platform second_chain second_observation).1 ≡ ok (finished, line finished)
unfolding append settle finish stamp is_chain_owned validate_event is_allowed lacks_identity
    integrity_eq event_digest committed_bytes committed_body strip_hash canonical decode_strict
    validate_json_shape walk_json require_eof lookup replace delete generic sort_fields
    insert_sorted string_lt string_dec decimal decimal_int event_value process_value platform_with
    sum read_value read read_text write write_text char_of char_from in_range are_less is_less
    string_eq nat_eq bytes_eq build_eq sensor_eq ℕ_discrete
finished_appended = refl

pub started_refused : (append chain_platform new_chain started).1 ≡ err chain_owned
unfolding append settle finish stamp is_chain_owned validate_event is_allowed lacks_identity
    integrity_eq event_digest committed_bytes committed_body strip_hash canonical decode_strict
    validate_json_shape walk_json require_eof lookup replace delete generic sort_fields
    insert_sorted string_lt string_dec decimal decimal_int event_value process_value platform_with
    sum read_value read read_text write write_text char_of char_from in_range are_less is_less
    string_eq nat_eq bytes_eq build_eq sensor_eq ℕ_discrete
started_refused = refl

-- A call that is refused, and two that write.
pub events-Writes : Writes chain_platform new_chain (all events)
events-Writes = failed new_chain started chain_owned (all events) started_refused (
    subst (λ c. Writes chain_platform c (all events))
      (sym
        (append_failed chain_platform new_chain started chain_owned (omega arith) started_refused))
      (written new_chain first_observation started (line started) (finished ∷ []) started_appended (
        written second_chain second_observation finished (line finished) [] finished_appended
          (done (append chain_platform second_chain second_observation).0))))

pub chain_made : new_event_chain build sensor ≡ ok new_chain
unfolding new_event_chain string_eq string_dec nat_eq ℕ_discrete
chain_made = refl

same_ok : {A : Type 0} {a b : A} → ok a ≡ ok b → a ≡ b
same_ok h = cc

started_text : ok (text_of_event started) ≡ canonical chain_platform (event_value started)
unfolding committed_body strip_hash canonical decode_strict validate_json_shape walk_json
    require_eof lookup replace delete generic sort_fields insert_sorted string_lt string_dec decimal
    decimal_int event_value process_value platform_with sum read_value read read_text write
    write_text char_of char_from in_range are_less is_less string_eq nat_eq bytes_eq build_eq
    sensor_eq ℕ_discrete
started_text = refl

finished_text : ok (text_of_event finished) ≡ canonical chain_platform (event_value finished)
unfolding committed_body strip_hash canonical decode_strict validate_json_shape walk_json
    require_eof lookup replace delete generic sort_fields insert_sorted string_lt string_dec decimal
    decimal_int event_value process_value platform_with sum read_value read read_text write
    write_text char_of char_from in_range are_less is_less string_eq nat_eq bytes_eq build_eq
    sensor_eq ℕ_discrete
finished_text = refl

started-Decoded :
    Decoded chain_platform chain_platform.decode_event
      (text_of_event started)
      max_event_bytes
      (settled chain_platform started)
    × (length (text_of_event started) < max_event_bytes)
unfolding committed_body strip_hash canonical decode_strict validate_json_shape walk_json
    require_eof lookup replace delete generic sort_fields insert_sorted string_lt string_dec decimal
    decimal_int event_value process_value platform_with sum read_value read read_text write
    write_text char_of char_from in_range are_less is_less string_eq nat_eq bytes_eq build_eq
    sensor_eq ℕ_discrete settled
started-Decoded = (
  record { not_empty = omega arith; in_limit = omega arith; shape = refl; decoded = refl },
  omega arith,
)

finished-Decoded :
    Decoded chain_platform chain_platform.decode_event
      (text_of_event finished)
      max_event_bytes
      (settled chain_platform finished)
    × (length (text_of_event finished) < max_event_bytes)
unfolding committed_body strip_hash canonical decode_strict validate_json_shape walk_json
    require_eof lookup replace delete generic sort_fields insert_sorted string_lt string_dec decimal
    decimal_int event_value process_value platform_with sum read_value read read_text write
    write_text char_of char_from in_range are_less is_less string_eq nat_eq bytes_eq build_eq
    sensor_eq ℕ_discrete settled
finished-Decoded = (
  record { not_empty = omega arith; in_limit = omega arith; shape = refl; decoded = refl },
  omega arith,
)

-- The text of each event decodes to it.
pub events-ReadsBack : ReadsBack chain_platform (all events)
events-ReadsBack = (
  λ raw h.
      subst
        (λ r.
          Decoded chain_platform chain_platform.decode_event r max_event_bytes
            (settled chain_platform started)
          × (length r < max_event_bytes))
        (same_ok (started_text ∙ h)) started-Decoded,
  (
    λ raw h.
        subst
          (λ r.
            Decoded chain_platform chain_platform.decode_event r max_event_bytes
              (settled chain_platform finished)
            × (length r < max_event_bytes))
          (same_ok (finished_text ∙ h)) finished-Decoded,
    tt,
  ),
)

-- The two calls that write, alone.
pub both_written : Writes chain_platform new_chain (all events)
both_written =
    written new_chain first_observation started (line started) (finished ∷ []) started_appended (
      written second_chain second_observation finished (line finished) [] finished_appended
        (done (append chain_platform second_chain second_observation).0))

pub output_small : length (output chain_platform both_written) ≤ max_document_bytes
unfolding committed_body strip_hash canonical decode_strict validate_json_shape walk_json
    require_eof lookup replace delete generic sort_fields insert_sorted string_lt string_dec decimal
    decimal_int event_value process_value platform_with sum read_value read read_text write
    write_text char_of char_from in_range are_less is_less string_eq nat_eq bytes_eq build_eq
    sensor_eq ℕ_discrete both_written
output_small = omega arith

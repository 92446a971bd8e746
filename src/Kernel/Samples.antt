-- ===== src/Kernel/Samples.antt =====
-- `decodeEvent` of internal/sensor/sensor_linux.go: which samples it takes, and what it reads from
-- one that holds a struct.
use runtime_provenance_firew.Base.{
  ℕ, zero, suc, ◌+◌, ◌≡◌, refl, sym, ap, subst, ◌∙◌, ◌≢◌, String, false, [], ◌∷◌, ◌++◌, arith,
  length, length-append, nat_eq, ok, ◌⊎◌, ◌↔◌,
}
use native.Mathlib.Decide.{ℕ_discrete}
use runtime_provenance_firew.Platform.{Bytes}
use runtime_provenance_firew.Kernel.{
  WireExecEvent, KernelEvent, drop_bytes, number, read_wire, wire_size, until_zero, c_string,
  event_of, is_unsupported, decode_event,
}
use runtime_provenance_firew.Kernel.Layout.{
  field, wire_bytes, low_first, IsWire, read_wire-wire_bytes, length-low_first,
}

-- The kinds of events: an execution, an open for writing, an open of the sensitive path and a
-- connection.
abbrev pub IsKind : ℕ → Type 0
IsKind kind = (kind ≡ 1) ⊎ (kind ≡ 2) ⊎ (kind ≡ 3) ⊎ (kind ≡ 4)

pub is_unsupported_iff : (kind : ℕ) → (is_unsupported kind ≡ false) ↔ IsKind kind
unfolding is_unsupported nat_eq ℕ_discrete
is_unsupported_iff kind = (λ h. ground arith, λ h. ground arith)

length-field : (n v : ℕ) (rest : Bytes) → length (field n v rest) ≡ n + length rest
unfolding field
length-field n v rest =
    length-append (low_first n v) rest ∙ ap (λ k. k + length rest) (length-low_first n v)

length-wire_bytes : (w : WireExecEvent) → IsWire w → length (wire_bytes w) ≡ wire_size
unfolding wire_bytes
length-wire_bytes w fits =
    simp (length-field, length-append, fits.command, fits.filename, fits.padding)

drop_bytes-drop_bytes :
    (m n : ℕ) (xs : Bytes) → drop_bytes m (drop_bytes n xs) ≡ drop_bytes (n + m) xs
unfolding drop_bytes
drop_bytes-drop_bytes m zero xs =
    let same : m ≡ 0 + m = omega arith in ap (λ k. drop_bytes k xs) same
drop_bytes-drop_bytes zero (suc n) [] =
    let same : suc n ≡ suc n + 0 = omega arith in ap (λ k. drop_bytes k []) same
drop_bytes-drop_bytes (suc m) (suc n) [] =
    let same : suc (n + suc m) ≡ suc n + suc m = omega arith in ap (λ k. drop_bytes k []) same
drop_bytes-drop_bytes m (suc n) (x ∷ xs) =
    let same : suc (n + m) ≡ suc n + m = omega arith in
    drop_bytes-drop_bytes m n xs ∙ ap (λ k. drop_bytes k (x ∷ xs)) same

read_wire-kind : (raw : Bytes) → (read_wire raw).kind ≡ number 4 (drop_bytes 64 raw)
unfolding read_wire
read_wire-kind raw = simp drop_bytes-drop_bytes

-- No byte is zero.
abbrev pub HasNoZero : Bytes → Type 0
HasNoZero [] = Unit
HasNoZero (b ∷ bs) = (b ≢ 0) × HasNoZero bs

until_zero-append :
    (name padding : Bytes) → HasNoZero name → until_zero (name ++ 0 ∷ padding) ≡ name
unfolding until_zero nat_eq ℕ_discrete
until_zero-append [] padding h = refl
until_zero-append (b ∷ bs) padding (h, hs) =
    let rest = until_zero-append bs padding hs in ground arith

module _ (string_of : Bytes → String) where
  -- A sample of the size and with a supported kind is an event, with any other size it is refused
  -- for that, and otherwise for its kind.
  decode_event-guards :
      (raw : Bytes) (e : KernelEvent)
      → decode_event string_of raw ≡ ok e
      → (length raw ≡ wire_size) × (is_unsupported (read_wire raw).kind ≡ false)
  unfolding decode_event nat_eq ℕ_discrete
  decode_event-guards raw e h = ground arith

  decode_event-read :
      (raw : Bytes)
      → length raw ≡ wire_size
      → is_unsupported (read_wire raw).kind ≡ false
      → decode_event string_of raw ≡ ok (event_of string_of (read_wire raw))
  unfolding decode_event nat_eq ℕ_discrete
  decode_event-read raw size supported = ground arith

-- A sample is decoded exactly when it has the 360 bytes of the struct and the number in its bytes 64
-- to 67, the low byte first, is one of the four kinds.
pub decode_event-ok_iff :
    (string_of : Bytes → String) (raw : Bytes)
    → ((e : KernelEvent) × (decode_event string_of raw ≡ ok e))
      ↔ ((length raw ≡ 360) × IsKind (number 4 (drop_bytes 64 raw)))
decode_event-ok_iff string_of raw = (
  λ (e, decoded).
      let guards = decode_event-guards string_of raw e decoded in
      (
        guards.0,
        subst IsKind (read_wire-kind raw) ((is_unsupported_iff (read_wire raw).kind).0 guards.1),
      ),
  λ (size, kind). (
    event_of string_of (read_wire raw),
    decode_event-read string_of raw size (
        (is_unsupported_iff (read_wire raw).kind).1 (subst IsKind (sym (read_wire-kind raw)) kind)),
  ),
)

-- A sample that holds the struct, its numbers within their types, of a supported kind, with a
-- command and a file name that a zero byte ends, is decoded to the event with the same numbers and
-- the bytes before those zeros as its texts, whatever stands behind the zeros.
pub decode_event-wire_bytes :
    (string_of : Bytes → String) (w : WireExecEvent)
    → IsWire w
    → IsKind w.kind
    → (command filename rest others : Bytes) → HasNoZero command
    → HasNoZero filename
    → w.command ≡ command ++ 0 ∷ rest
    → w.filename ≡ filename ++ 0 ∷ others
    → decode_event string_of (wire_bytes w)
      ≡ ok (record {
        monotonic_ns = w.monotonic_ns;
        cgroup_id = w.cgroup_id;
        start_time_ns = w.start_time_ns;
        parent_start_time_ns = w.parent_start_time_ns;
        pid = w.pid;
        tgid = w.tgid;
        ppid = w.ppid;
        uid = w.uid;
        gid = w.gid;
        pid_namespace = w.pid_namespace;
        mount_namespace = w.mount_namespace;
        parent_pid_namespace = w.parent_pid_namespace;
        kind = w.kind;
        flags = w.flags;
        destination_ipv4 = w.destination_ipv4;
        destination_port = w.destination_port;
        protocol = w.protocol;
        command = string_of command;
        filename = string_of filename;
      })
unfolding event_of c_string
decode_event-wire_bytes string_of w fits kind command filename rest others no_zero none_zero ends
      end =
    let same = read_wire-wire_bytes w fits in
    let decoded =
      decode_event-read string_of (wire_bytes w) (length-wire_bytes w fits)
        (rw same ((is_unsupported_iff w.kind).1 kind)) in
    let first : until_zero w.command ≡ command = rw ends (until_zero-append command rest no_zero) in
    let second : until_zero w.filename ≡ filename =
      rw end (until_zero-append filename others none_zero) in
    decoded ∙ rw (same, first, second) refl

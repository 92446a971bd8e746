-- ===== src/Kernel/Resources/Released.antt =====
-- internal/sensor/sensor_linux.go: what `Open` leaves open, what `Close` closes, what `Loss` sums up
-- and when `Read` returns.
use runtime_provenance_firew.Base.{
  ℕ, zero, suc, ◌+◌, ◌%◌, ◌^◌, ◌≡◌, refl, sym, String, true, some, List, [], ◌∷◌, ◌++◌, not, arith,
  nat_eq, string_eq, string_dec, Result, ok, err, cancelled, read_failed, fail_if-eq-ok,
  require-eq-ok, >>=-eq-ok, ◌<◌, ◌≢◌, counter_missing, counter_unreadable,
}
use runtime_provenance_firew.Platform.{Bytes}
use runtime_provenance_firew.Kernel.{KernelEvent, decode_event}
use runtime_provenance_firew.Kernel.Resources.{
  Resource, Config, Host, KernelSensor, LossCounters, Poll, close_link, close_links,
  close_collection, close_reader, close_sensor, abandon, attach_connect, attach_all, open_sensor,
  sum_counters, read_counter, read_event, read_loss, context_done, deadline_exceeded, reader_failed,
  sample,
}

-- A failed `Open` leaves open what was open before it, and a sensor closes to that.
abbrev pub Restores : List Resource → List Resource × Result KernelSensor → Type 0
Restores before (after, err e) = after ≡ before
Restores before (after, ok sensor) = close_sensor sensor after ≡ before

-- Whatever fails on the way, `Open` closes everything that it opened; and what a successful `Open`
-- opened, `Close` of its sensor closes. What else was open before stays open.
pub open_sensor-Restores :
    (host : Host) (object_path : String) (config : Config) (before : List Resource)
    → Restores before (open_sensor host object_path config before)
unfolding open_sensor attach_all attach_connect abandon close_link close_links close_collection
    close_reader close_sensor string_eq string_dec
open_sensor-Restores host object_path config before = ground arith

-- The exact sum of the values of a counter.
abbrev pub total : List ℕ → ℕ
total [] = 0
total (value ∷ values) = value + total values

sum_counters-mod :
    (host : Host) (start : ℕ) (values : List ℕ)
    → sum_counters host start values % 2 ^ 64 ≡ (start + total values) % 2 ^ 64
unfolding sum_counters
sum_counters-mod host start [] = omega arith
sum_counters-mod host start (value ∷ values) =
    omega (arith, sum_counters-mod host ((start + value) % 2 ^ 64) values)

sum_counters-lt :
    (host : Host) (start : ℕ) (values : List ℕ)
    → start < 2 ^ 64
    → sum_counters host start values < 2 ^ 64
unfolding sum_counters
sum_counters-lt host start [] bound = bound
sum_counters-lt host start (value ∷ values) bound =
    sum_counters-lt host ((start + value) % 2 ^ 64) values (omega arith)

-- A counter is read as `n`: its map is there, each CPU has a value, and `n` is their sum as a uint64.
abbrev pub Counts : Host → String → ℕ → Type 0
Counts host name n =
    (values : List ℕ) × (host.has_map name ≡ true)
    × (host.lookup_counter name ≡ some values)
    × (n ≡ total values % 2 ^ 64)

read_counter-Counts :
    (host : Host) (name : String) (n : ℕ) → read_counter host name ≡ ok n → Counts host name n
unfolding read_counter
read_counter-Counts host name n h =
    let (present, h1) = fail_if-eq-ok (not (host.has_map name)) counter_missing _ h in
    let (values, looked, h2) =
      require-eq-ok (host.lookup_counter name) counter_unreadable
        (λ values. ok (sum_counters host 0 values)) h1 in
    let low = sum_counters-lt host 0 values (omega arith) in
    let sum = sum_counters-mod host 0 values in (values, ground arith, looked, ground arith)

-- `Loss` succeeds only if all five counters can be read, and each field it returns is the sum of that
-- counter over the CPUs as a uint64.
pub read_loss-Counts :
    (host : Host) (loss : LossCounters)
    → read_loss host ≡ ok loss
    → Counts host "ringbuf_drops" loss.ring_buffer
      × Counts host "correlation_drops" loss.correlation
      × Counts host "path_read_drops" loss.path_read
      × Counts host "map_update_drops" loss.map_update
      × Counts host "cgroup_mismatch_drops" loss.cgroup_mismatch
unfolding read_loss
read_loss-Counts host loss h =
    let (ring, ring_read, h1) = >>=-eq-ok (read_counter host "ringbuf_drops") _ h in
    let (correlation, correlation_read, h2) =
      >>=-eq-ok (read_counter host "correlation_drops") _ h1 in
    let (path, path_read, h3) = >>=-eq-ok (read_counter host "path_read_drops") _ h2 in
    let (update, update_read, h4) = >>=-eq-ok (read_counter host "map_update_drops") _ h3 in
    let (mismatch, mismatch_read, h5) =
      >>=-eq-ok (read_counter host "cgroup_mismatch_drops") _ h4 in
    let same : record {
      ring_buffer = ring;
      correlation = correlation;
      path_read = path;
      map_update = update;
      cgroup_mismatch = mismatch;
    }
        ≡ loss =
      cc in
    rw (sym same) (
      read_counter-Counts host "ringbuf_drops" ring ring_read,
      read_counter-Counts host "correlation_drops" correlation correlation_read,
      read_counter-Counts host "path_read_drops" path path_read,
      read_counter-Counts host "map_update_drops" update update_read,
      read_counter-Counts host "cgroup_mismatch_drops" mismatch mismatch_read,
    )

-- Rounds of `Read` that meet only the reader's deadline.
abbrev pub deadlines : ℕ → List Poll
deadlines zero = []
deadlines (suc n) = deadline_exceeded ∷ deadlines n

-- What `Read` returns for a round that is not a deadline.
abbrev pub IsOutcome : (Bytes → String) → Poll → Result KernelEvent → Type 0
IsOutcome string_of context_done result = result ≡ err cancelled
IsOutcome string_of deadline_exceeded result = ⊥
IsOutcome string_of reader_failed result = result ≡ err read_failed
IsOutcome string_of (sample raw) result = result ≡ decode_event string_of raw

-- However many deadlines pass before it, `Read` returns at the first round that meets something else:
-- the context's end, the reader's error or the decoded sample, and takes no further round.
pub read_event-IsOutcome :
    (string_of : Bytes → String) (n : ℕ) (poll : Poll) (polls : List Poll)
    → poll ≢ deadline_exceeded
    → (result : Result KernelEvent) × (read_event string_of (deadlines n ++ poll ∷ polls)
        ≡ some (result, polls))
      × IsOutcome string_of poll result
unfolding read_event
read_event-IsOutcome string_of zero context_done polls other = (_, refl, refl)
read_event-IsOutcome string_of zero deadline_exceeded polls other = elim (other refl) [ ]
read_event-IsOutcome string_of zero reader_failed polls other = (_, refl, refl)
read_event-IsOutcome string_of zero (sample raw) polls other = (_, refl, refl)
read_event-IsOutcome string_of (suc n) poll polls other =
    read_event-IsOutcome string_of n poll polls other

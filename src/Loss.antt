-- ===== src/Loss.antt =====
-- How complete the evidence is: the loss counters of the last event (internal/rpf/verify.go) and
-- `completeness` of a manifest (internal/rpf/evidence.go).
pub mod Completeness
use runtime_provenance_firew.Base.{
  ℕ, ◌+◌, ◌%◌, ◌^◌, String, ◌||◌, Bool, true, false, not, Option, none, some, ltb, ◌!=◌, string_eq,
  if◌then◌else◌,
}
use runtime_provenance_firew.Json.{
  ℤ, pos, negsuc, Value, number, float64, Fields, lookup_in, as_bool,
}
use runtime_provenance_firew.Model.{Event, Loss, Lifecycle, Manifest}
use runtime_provenance_firew.Platform.{Platform}

-- `err == nil && parsed >= 0`
abbrev pub non_negative : Option ℤ → ℕ
non_negative (some (pos n)) = n
non_negative (some (negsuc n)) = 1
non_negative none = 1

abbrev pub or_one : Option ℕ → ℕ
or_one (some n) = n
or_one none = 1

module _ (platform : Platform) where
  -- the type switch of `uintResource`
  abbrev pub uint_value : Option Value → ℕ
  uint_value (some (number text)) = non_negative (platform.number_int64 text)
  uint_value (some (float64 bits)) = or_one (platform.float_uint64 bits)
  uint_value _ = 1

  unfoldable pub uint_resource : Option Fields → String → ℕ
  uint_resource resource key = uint_value (lookup_in resource key)

  -- `!ok || value`
  abbrev pub true_or : Option Bool → Bool
  true_or none = true
  true_or (some b) = b

  unfoldable pub bool_resource : Option Fields → String → Bool
  bool_resource resource key = true_or (as_bool (lookup_in resource key))

  unfoldable pub loss_from_final_event : Event → Loss
  loss_from_final_event event =
      if event.operation != "sensor_finalized"
      then record {
        kernel_reserve = 0;
        kernel_correlation = 0;
        decode = 0;
        queue = 0;
        persistence = 0;
        counter_read_error = true;
      }
      else record {
        kernel_reserve = uint_resource event.resource "kernel_reserve";
        kernel_correlation = uint_resource event.resource "kernel_correlation";
        decode = uint_resource event.resource "decode";
        queue = uint_resource event.resource "queue";
        persistence = uint_resource event.resource "persistence";
        counter_read_error = bool_resource event.resource "counter_read_error";
      }

-- The sum of the counters, as uint64.
abbrev pub total_loss : Loss → ℕ
total_loss l =
    (l.kernel_reserve + l.kernel_correlation + l.decode + l.queue + l.persistence) % 2 ^ 64

-- The part of `completeness` that reads the manifest's loss and lifecycle.
unfoldable pub completeness : Manifest → String
completeness manifest =
    if not manifest.lifecycle.started
      || not manifest.lifecycle.finalized
      || manifest.loss.counter_read_error
    then "unknown"
    else if ltb 0 (total_loss manifest.loss)
    then "incomplete"
    else "complete"

-- ===== src/Agent/Losses.antt =====
-- The loss counters on their way: from the last event that cmd/rpf-sensor/main_linux.go writes to
-- `lossFromFinalEvent` of internal/rpf/verify.go.
use runtime_provenance_firew.Base.{
  ℕ, ◌<◌, ◌^◌, ◌≡◌, refl, some, arith, string_eq, string_dec, Result,
}
use runtime_provenance_firew.Json.{pos, decimal, decimal_int, lookup, generic}
use runtime_provenance_firew.Model.{Event}
use runtime_provenance_firew.Platform.{Platform}
use runtime_provenance_firew.Stream.Written.{settled}
use runtime_provenance_firew.Loss.{loss_from_final_event, uint_resource, bool_resource}
use runtime_provenance_firew.Kernel.Resources.{LossCounters}
use runtime_provenance_firew.Agent.Command.{loss_fields, counters_or_zero, is_err}

-- `json.Number.Int64` of the decimal text of an int64 that is not negative.
abbrev pub ReadsDecimals : Platform → Type 0
ReadsDecimals platform = (n : ℕ) → n < 2 ^ 63 → platform.number_int64 (decimal n) ≡ some (pos n)

-- If its counters are below 2 ^ 63, the last event of the sensor command, once it is parsed, yields
-- the manifest's loss: the ring buffer's and the correlation counter of the kernel, the decode
-- counter, none for queue and persistence, and whether the counters could be read. The other three
-- counters of the kernel do not enter. The platform reads the decimal text of an int64 as that number.
pub loss_from_final_event-settled :
    (platform : Platform) (event : Event) (read : Result LossCounters) (decode_loss : ℕ)
    → ReadsDecimals platform
    → event.operation ≡ "sensor_finalized"
    → event.resource ≡ some (loss_fields read decode_loss)
    → (counters_or_zero read).ring_buffer < 2 ^ 63
    → (counters_or_zero read).correlation < 2 ^ 63
    → decode_loss < 2 ^ 63
    → loss_from_final_event platform (settled platform event) ≡ record {
      kernel_reserve = (counters_or_zero read).ring_buffer;
      kernel_correlation = (counters_or_zero read).correlation;
      decode = decode_loss;
      queue = 0;
      persistence = 0;
      counter_read_error = is_err read;
    }
unfolding loss_from_final_event settled loss_fields uint_resource bool_resource lookup generic
    decimal_int string_eq string_dec
loss_from_final_event-settled platform event read decode_loss reads finalized reported ring
      correlation decode =
    let nothing = reads 0 (omega arith) in
    rw (finalized, reported, reads _ ring, reads _ correlation, reads _ decode, nothing) refl

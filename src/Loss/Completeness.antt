-- ===== src/Loss/Completeness.antt =====
-- When a manifest counts as complete.
use runtime_provenance_firew.Base.{
  ◌+◌, ◌^◌, ◌<◌, String, ◌≡◌, ◌≢◌, ◌↔◌, refl, true, false, arith, texts_differ,
}
use runtime_provenance_firew.Model.{Loss, Manifest}
use runtime_provenance_firew.Loss.{total_loss, completeness}

-- The lifecycle is closed and the counters were read.
pub record IsKnown (m : Manifest) : Type 0 where
  pub started : m.lifecycle.started ≡ true
  pub finalized : m.lifecycle.finalized ≡ true
  pub counters_read : m.loss.counter_read_error ≡ false

pub record NoLoss (l : Loss) : Type 0 where
  pub kernel_reserve : l.kernel_reserve ≡ 0
  pub kernel_correlation : l.kernel_correlation ≡ 0
  pub decode : l.decode ≡ 0
  pub queue : l.queue ≡ 0
  pub persistence : l.persistence ≡ 0

unknown-ne-complete : ◌≢◌ {A = String} "unknown" "complete"
unknown-ne-complete = texts_differ "unknown" "complete" refl

incomplete-ne-complete : ◌≢◌ {A = String} "incomplete" "complete"
incomplete-ne-complete = texts_differ "incomplete" "complete" refl

completeness_complete :
    (m : Manifest) → (completeness m ≡ "complete") ↔ (IsKnown m × (total_loss m.loss ≡ 0))
unfolding completeness
completeness_complete m =
    (λ h. ground (arith, unknown-ne-complete, incomplete-ne-complete), λ h. ground arith)

-- A manifest is complete exactly when its lifecycle is closed, the counters were read and all five
-- are zero, if their sum does not pass uint64.
pub completeness_iff :
    (m : Manifest)
    → m.loss.kernel_reserve + m.loss.kernel_correlation + m.loss.decode + m.loss.queue
        + m.loss.persistence
      < 2 ^ 64
    → (completeness m ≡ "complete") ↔ (IsKnown m × NoLoss m.loss)
completeness_iff m bound = (
  λ h. let k = (completeness_complete m).0 h in (k.0, omega arith),
  λ (k, none_lost). (completeness_complete m).1 (k, omega arith),
)

-- Past uint64 the sum wraps: for every manifest with a closed lifecycle there are five counters, each
-- below 2 ^ 63, that are not all zero and still count as complete.
pub wrapped_loss_is_complete :
    (m : Manifest)
    → IsKnown m
    → (loss : Loss) × (loss.kernel_reserve < 2 ^ 63)
      × (loss.kernel_correlation < 2 ^ 63)
      × (loss.decode < 2 ^ 63)
      × (loss.queue < 2 ^ 63)
      × (loss.persistence < 2 ^ 63)
      × (¬ NoLoss loss)
      × (completeness (record m { loss = loss }) ≡ "complete")
wrapped_loss_is_complete m k =
    let loss : Loss = record {
      kernel_reserve = 9223372036854775807;
      kernel_correlation = 9223372036854775807;
      decode = 2;
      queue = 0;
      persistence = 0;
      counter_read_error = false;
    } in
    (
      loss,
      omega arith,
      omega arith,
      omega arith,
      omega arith,
      omega arith,
      λ n. omega (arith, n.decode),
      (completeness_complete (record m { loss = loss })).1
          (record { started = k.started; finalized = k.finalized; counters_read = refl }, refl),
    )

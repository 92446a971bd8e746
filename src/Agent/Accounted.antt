-- ===== src/Agent/Accounted.antt =====
-- cmd/rpf-sensor/main_linux.go: what becomes of each event of the kernel.
use runtime_provenance_firew.Base.{
  ℕ, ◌+◌, ◌≤◌, ◌<◌, ◌^◌, ◌≡◌, refl, String, Option, none, some, arith, ltb, nat_eq, string_eq,
  Bool-cases, inl, inr,
}
use native.Mathlib.Decide.{ℕ_discrete}
use runtime_provenance_firew.Model.{Process, Event}
use runtime_provenance_firew.Platform.{Platform}
use runtime_provenance_firew.Kernel.{KernelEvent}
use runtime_provenance_firew.Kernel.Samples.{IsKind}
use runtime_provenance_firew.Agent.{
  Tracking, Target, process_at, lose, key_of, handle, handle_exec, handle_open, handle_sensitive,
  handle_connect,
}
use runtime_provenance_firew.Agent.Tracked.{
  IsTracking, IsAttributed, handle_exec-IsTracking, process_at-IsKeyed,
}

-- The events that a case of the switch writes.
abbrev pub count : Option Event → ℕ
count none = 0
count (some e) = 1

module _ (platform : Platform) (target : Target) where
  -- The tracking stays sound, an event that is written names the process that the kernel event names,
  -- and a supported event is written or counted as lost.
  pub record IsHandled (t : Tracking) (event : KernelEvent) (r : Tracking × Option Event)
      : Type 0 where
    pub tracking : IsTracking r.0
    pub attributed : IsAttributed (key_of platform target event) r.1
    pub counted : r.0.decode_loss ≤ t.decode_loss + 1
    pub accounted : t.decode_loss + 1 < 2 ^ 64 → t.decode_loss + 1 ≤ r.0.decode_loss + count r.1

  lost : (t : Tracking) (event : KernelEvent) → IsTracking t → IsHandled t event (lose t, none)
  lost t event good = record {
    tracking = record { bounded = good.bounded; keyed = good.keyed; counter = omega arith };
    attributed = tt;
    counted = omega arith;
    accounted = λ h. omega arith;
  }

  exec-IsHandled :
      (t : Tracking) (now : String) (event : KernelEvent)
      → IsTracking t
      → IsHandled t event (handle_exec platform target t now event)
  unfolding handle_exec
  exec-IsHandled t now event good = record {
    tracking = handle_exec-IsTracking platform target t now event good;
    attributed = (_, refl, refl);
    counted = ground arith;
    accounted = λ h. ground arith;
  }

  module _ (t : Tracking) (now : String) (event : KernelEvent) (good : IsTracking t) where
    found :
        (p : Process)
        → process_at (key_of platform target event) t.processes ≡ some p
        → p.process_key ≡ key_of platform target event
    found p = process_at-IsKeyed (key_of platform target event) t.processes p good.keyed

    open-IsHandled :
        (known : Option Process)
        → process_at (key_of platform target event) t.processes ≡ known
        → IsHandled t event (handle_open platform target t now event known)
    unfolding handle_open
    open-IsHandled none e = lost t event good
    open-IsHandled (some p) e = record {
      tracking = record {
        bounded = let b = good.bounded in ground arith;
        keyed = let k = good.keyed in ground arith;
        counter = let c = good.counter in ground arith;
      };
      attributed = (p, refl, found p e);
      counted = ground arith;
      accounted = λ h. ground arith;
    }

    sensitive-IsHandled :
        (known : Option Process)
        → process_at (key_of platform target event) t.processes ≡ known
        → IsHandled t event (handle_sensitive platform target t now event known)
    unfolding handle_sensitive
    sensitive-IsHandled none e = lost t event good
    sensitive-IsHandled (some p) e = record {
      tracking = good;
      attributed = (p, refl, found p e);
      counted = omega arith;
      accounted = λ h. omega arith;
    }

    connect-IsHandled :
        (known : Option Process)
        → process_at (key_of platform target event) t.processes ≡ known
        → IsHandled t event (handle_connect platform target t now event known)
    unfolding handle_connect
    connect-IsHandled none e = lost t event good
    connect-IsHandled (some p) e = elim (Bool-cases (ltb 65535 event.destination_port)) [
      | inl high ↦ rw high (lost t event good)
      | inr low ↦ rw low (record {
        tracking = good;
        attributed = (p, refl, found p e);
        counted = omega arith;
        accounted = λ h. omega arith;
      })
    ]

    -- What the switch does with an event of a supported kind.
    pub handle-IsHandled :
        IsKind event.kind → IsHandled t event (handle platform target t now event)
    unfolding handle nat_eq ℕ_discrete
    handle-IsHandled kind =
        let executed = exec-IsHandled t now event good in
        let opened = open-IsHandled _ refl in
        let read = sensitive-IsHandled _ refl in
        let connected = connect-IsHandled _ refl in
        elim kind [
          | inl e ↦ simp e executed
          | inr (inl e) ↦ simp e opened
          | inr (inr (inl e)) ↦ simp e read
          | inr (inr (inr e)) ↦ simp e connected
        ]

-- ===== src/Agent/Tracked.antt =====
-- cmd/rpf-sensor/main_linux.go: what holds of the processes that the main loop tracks.
use runtime_provenance_firew.Base.{
  suc, ◌≤◌, ◌<◌, ◌^◌, ◌≡◌, refl, String, true, false, Option, none, some, List, [], ◌∷◌, arith,
  length, ltb, nat_eq, string_eq, Bool-cases, inl, inr,
}
use runtime_provenance_firew.Model.{Process, Event}
use runtime_provenance_firew.Platform.{Platform}
use runtime_provenance_firew.Kernel.{KernelEvent}
use runtime_provenance_firew.Agent.{
  Tracking, Target, max_tracked_processes, process_at, put_process, is_some, process_from_kernel,
  handle_exec,
}

-- Every process stands under its own key.
abbrev pub IsKeyed : List (String × Process) → Type 0
IsKeyed [] = Unit
IsKeyed ((key, process) ∷ processes) = (key ≡ process.process_key) × IsKeyed processes

process_at-put_process-none :
    (key : String) (p : Process) (ps : List (String × Process))
    → is_some (process_at key ps) ≡ false
    → length (put_process key p ps) ≡ suc (length ps)
unfolding process_at put_process
process_at-put_process-none key p [] h = refl
process_at-put_process-none key p ((other, q) ∷ ps) h =
    ground (arith, process_at-put_process-none key p ps)

length-put_process :
    (key : String) (p : Process) (ps : List (String × Process))
    → is_some (process_at key ps) ≡ true
    → length (put_process key p ps) ≡ length ps
unfolding process_at put_process
length-put_process key p [] h = cc
length-put_process key p ((other, q) ∷ ps) h = ground (arith, length-put_process key p ps)

put_process-IsKeyed :
    (p : Process) (ps : List (String × Process))
    → IsKeyed ps
    → IsKeyed (put_process p.process_key p ps)
unfolding put_process
put_process-IsKeyed p [] h = (refl, tt)
put_process-IsKeyed p ((other, q) ∷ ps) (h, hs) = ground (arith, put_process-IsKeyed p ps hs)

-- A lookup finds the process of the key.
pub process_at-IsKeyed :
    (key : String) (ps : List (String × Process)) (p : Process)
    → IsKeyed ps
    → process_at key ps ≡ some p
    → p.process_key ≡ key
unfolding process_at
process_at-IsKeyed key [] p h found = cc
process_at-IsKeyed key ((other, q) ∷ ps) p (h, hs) found =
    ground (arith, process_at-IsKeyed key ps p hs)

-- At most 65,536 processes, each under its own key, and a counter within uint64.
pub record IsTracking (t : Tracking) : Type 0 where
  pub bounded : length t.processes ≤ max_tracked_processes
  pub keyed : IsKeyed t.processes
  pub counter : t.decode_loss < 2 ^ 64

-- The event that a case of the switch writes names the process with that key.
abbrev pub IsAttributed : String → Option Event → Type 0
IsAttributed key none = Unit
IsAttributed key (some e) = (p : Process) × (e.process ≡ some p) × (p.process_key ≡ key)

module _ (platform : Platform) (target : Target) where
  pub handle_exec-IsTracking :
      (t : Tracking) (now : String) (event : KernelEvent)
      → IsTracking t
      → IsTracking (handle_exec platform target t now event).0
  unfolding handle_exec
  handle_exec-IsTracking t now event good =
      let process = process_from_kernel platform event target.boot_id in
      let bounded = good.bounded in
      let counter = good.counter in
      let keyed = put_process-IsKeyed process t.processes good.keyed in
      let old = length-put_process process.process_key process t.processes in
      let new = process_at-put_process-none process.process_key process t.processes in
      elim (Bool-cases (is_some (process_at process.process_key t.processes))) [
        | inl known ↦
            rw known
              (record { bounded = omega (arith, old known); keyed = keyed; counter = counter })
        | inr unknown ↦ elim (Bool-cases (ltb (length t.processes) max_tracked_processes)) [
          | inl room ↦
              rw (unknown, room)
                (record { bounded = ground (arith, new unknown); keyed = keyed; counter = counter })
          | inr full ↦
              rw (unknown, full)
                (record { bounded = bounded; keyed = good.keyed; counter = omega arith })
        ]
      ]

-- ===== src/Agent/Watched.antt =====
-- cmd/rpf-sensor/main_linux.go: the main loop as a whole.
use runtime_provenance_firew.Base.{
  ◌+◌, ◌≤◌, ◌<◌, ◌^◌, ◌≡◌, refl, sym, subst, ◌∙◌, String, Option, none, some, List, [], ◌∷◌, ◌++◌,
  arith, length, length-append, Result, ok, err, >>=-eq-ok,
}
use runtime_provenance_firew.Model.{Process, Event}
use runtime_provenance_firew.Platform.{Platform, Bytes}
use runtime_provenance_firew.Chain.{EventChain}
use runtime_provenance_firew.Kernel.{KernelEvent}
use runtime_provenance_firew.Kernel.Samples.{IsKind}
use runtime_provenance_firew.Agent.{Tracking, Target, Output, key_of, handle, write_if_any, watch}
use runtime_provenance_firew.Agent.Lines.{Extends, Extends-append, write_event-IsWritten}
use runtime_provenance_firew.Agent.Tracked.{IsTracking, IsAttributed}
use runtime_provenance_firew.Agent.Told.{Run, ended, lost, told}
use runtime_provenance_firew.Agent.Handled.{Steps, handle-Steps}
use runtime_provenance_firew.Agent.Accounted.{IsHandled, handle-IsHandled, count}

-- Every reading that is an event is one of a supported kind.
abbrev pub AreKinds : List (String × Result KernelEvent) → Type 0
AreKinds [] = Unit
AreKinds ((now, ok event) ∷ readings) = IsKind event.kind × AreKinds readings
AreKinds ((now, err e) ∷ readings) = AreKinds readings

-- Every event names a process.
abbrev pub AllAttributed : List Event → Type 0
AllAttributed [] = Unit
AllAttributed (e ∷ es) = ((p : Process) × (e.process ≡ some p)) × AllAttributed es

module _ (platform : Platform) (target : Target) (file : Output) where
  -- The events between the state before and the state after the loop, which are those of the lines.
  pub record IsWatched (chain : EventChain) (t : Tracking)
      (readings : List (String × Result KernelEvent)) (r : EventChain × Tracking × Bytes)
      : Type 0 where
    pub events : List Event
    pub writes : Extends platform chain events r.0 r.2
    pub tracking : IsTracking r.1
    pub attributed : AllAttributed events
    pub run : Run platform target t readings events r.1
    pub accounted :
        t.decode_loss + length readings < 2 ^ 64
        → t.decode_loss + length readings ≤ r.1.decode_loss + length events

  -- The events of one round.
  record IsRound (chain : EventChain) (event : Option Event) (r : EventChain × Bytes) : Type 0 where
    events : List Event
    writes : Extends platform chain events r.0 r.1
    counted : length events ≡ count event
    runs :
        (t next last : Tracking) (now : String) (sample : KernelEvent)
        (readings : List (String × Result KernelEvent)) (es : List Event)
        → Steps platform target t now sample (next, event)
        → Run platform target next readings es last
        → Run platform target t ((now, ok sample) ∷ readings) (events ++ es) last
    attributed : (key : String) → IsAttributed key event → AllAttributed events

  write_if_any-IsRound :
      (chain : EventChain) (event : Option Event) (r : EventChain × Bytes)
      → write_if_any platform file chain event ≡ ok r
      → IsRound chain event r
  unfolding write_if_any
  write_if_any-IsRound chain none r h =
      let same : (chain, []) ≡ r = cc in
      rw (sym same) (record {
        events = [];
        writes = λ fs w. (w, refl);
        counted = refl;
        runs = λ t next last now sample readings es step rest.
            lost t next last now sample readings es step rest;
        attributed = λ key a. tt;
      })
  write_if_any-IsRound chain (some event) r h =
      let (f, w) = write_event-IsWritten platform file chain event r h in
      record {
        events = f ∷ [];
        writes = w.extends;
        counted = refl;
        runs = λ t next last now sample readings es step rest.
            told t next last now sample f readings es (step chain f w.stamped) rest;
        attributed = λ key (p, named, keyed). ((p, w.stamped.process ∙ named), tt);
      }

  AllAttributed-append :
      (es fs : List Event) → AllAttributed es → AllAttributed fs → AllAttributed (es ++ fs)
  AllAttributed-append [] fs a b = b
  AllAttributed-append (e ∷ es) fs (a, a') b = (a, AllAttributed-append es fs a' b)

  -- What one round and the rounds after it come to.
  after :
      (chain : EventChain) (t : Tracking) (now : String) (event : KernelEvent)
      (handled : Tracking × Option Event) (first : EventChain × Bytes)
      (readings : List (String × Result KernelEvent)) (rest : EventChain × Tracking × Bytes)
      → IsHandled platform target t event handled
      → Steps platform target t now event handled
      → IsRound chain handled.1 first
      → IsWatched first.0 handled.0 readings rest
      → IsWatched chain t ((now, ok event) ∷ readings) (rest.0, rest.1, first.1 ++ rest.2)
  after chain t now event handled first readings rest h step round watched = record {
    events = round.events ++ watched.events;
    writes =
        Extends-append platform chain first.0 rest.0 round.events watched.events first.1 rest.2
          round.writes watched.writes;
    tracking = watched.tracking;
    attributed =
        AllAttributed-append round.events watched.events
          (round.attributed (key_of platform target event) h.attributed) watched.attributed;
    run = round.runs t handled.0 rest.1 now event readings watched.events step watched.run;
    accounted = λ small.
        let first = h.accounted (omega arith) in
        let later = watched.accounted (omega (arith, h.counted)) in
        omega (arith, first, later, round.counted, length-append round.events watched.events);
  }

  -- From a sound state on, a run of the main loop over samples of supported kinds that returns leaves a
  -- sound state: at most 65,536 processes tracked, each under its own key, and a counter within
  -- uint64. Its lines are those of `Append` for a list of events, each of which names a process, and
  -- readings, events and states are those of `Run`: in the order of the samples, each has its event,
  -- with the operation, the resource, the times and the process that are due to it, or it is counted
  -- as lost because its process is unknown or its port is past 65,535; an execution beyond 65,536 processes
  -- has its event and is counted. If the counter cannot pass uint64, it grows by at least the number
  -- of samples without an event.
  pub watch-IsWatched :
      (chain : EventChain) (t : Tracking) (readings : List (String × Result KernelEvent))
      (r : EventChain × Tracking × Bytes)
      → IsTracking t
      → AreKinds readings
      → watch platform target file chain t readings ≡ ok r
      → IsWatched chain t readings r
  unfolding watch
  watch-IsWatched chain t [] r good kinds h =
      let same : (chain, t, []) ≡ r = cc in
      rw (sym same) (record {
        events = [];
        writes = λ fs w. (w, refl);
        tracking = good;
        attributed = tt;
        run = ended t;
        accounted = λ small. omega arith;
      })
  watch-IsWatched chain t ((now, err e) ∷ readings) r good kinds h = cc
  watch-IsWatched chain t ((now, ok event) ∷ readings) r good (kind, kinds) h =
      let handled = handle-IsHandled platform target t now event good kind in
      let (first, wrote, h1) =
        >>=-eq-ok (write_if_any platform file chain (handle platform target t now event).1) _ h in
      let (rest, watched, h2) =
        >>=-eq-ok
          (watch platform target file first.0 (handle platform target t now event).0 readings) _
          h1 in
      let same : (rest.0, rest.1, first.1 ++ rest.2) ≡ r = cc in
      subst (IsWatched chain t ((now, ok event) ∷ readings)) same (
        after chain t now event (handle platform target t now event) first readings rest handled
          (handle-Steps platform target t now event kind)
          (write_if_any-IsRound chain (handle platform target t now event).1 first wrote)
          (watch-IsWatched first.0 (handle platform target t now event).0 readings rest
            handled.tracking kinds watched))

-- ===== src/Agent/Producer.antt =====
-- cmd/rpf-sensor/main_linux.go: the producer that the main loop leaves.
use runtime_provenance_firew.Base.{
  ◌≡◌, ◌≢◌, ◌⊎◌, inl, inr, refl, sym, ap, ◌∙◌, String, none, some, List, [], ◌∷◌, texts_differ,
  Result,
}
use runtime_provenance_firew.Json.{Value, str, uint, Fields, fields}
use runtime_provenance_firew.Model.{Process, Event}
use runtime_provenance_firew.Platform.{Platform}
use runtime_provenance_firew.Kernel.{KernelEvent}
use runtime_provenance_firew.Agent.{Tracking, Target}
use runtime_provenance_firew.Agent.Told.{
  Reports, Tells, executed, executed_beyond, opened_artifact, opened, opened_sensitive, connected,
  Loses, unattributed, port_out_of_range, Run, ended, lost, told,
}

-- The event reports an open of the path for writing.
abbrev pub Opens : String → Event → Type 0
Opens path e =
    (e.operation ≡ "file_open_output")
    × ((flags : Value) × (e.resource ≡ some (fields (("flags", flags) ∷ ("path", str path) ∷ []))))

abbrev pub NoneOpens : String → List Event → Type 0
NoneOpens path [] = Unit
NoneOpens path (e ∷ es) = (Opens path e → ⊥) × NoneOpens path es

-- The last event that reports an open of the path names the process.
pub data LastOpens (path : String) (p : Process) : List Event → Type 0 where
  here :
      (e : Event) (es : List Event)
      → Opens path e
      → e.process ≡ some p
      → NoneOpens path es
      → LastOpens path p (e ∷ es)
  later : (e : Event) (es : List Event) → LastOpens path p es → LastOpens path p (e ∷ es)

-- An event of another operation, or of another path.
Reports-verb :
    (now path verb : String) (sample : KernelEvent) (p : Process) (about : Fields) (status : String)
    (e : Event)
    → Reports now sample p verb about status e
    → verb ≢ "file_open_output"
    → Opens path e
    → ⊥
Reports-verb now path verb sample p about status e r differ (operation, _) =
    differ (sym r.operation ∙ operation)

Reports-path :
    (now path : String) (sample : KernelEvent) (p : Process) (flags : Value) (other : String)
    (status : String) (e : Event)
    → Reports now sample p "file_open_output"
        (fields (("flags", flags) ∷ ("path", str other) ∷ []))
        status
        e
    → other ≢ path
    → Opens path e
    → ⊥
Reports-path now path sample p flags other status e r differ (_, (seen, resource)) =
    let same = sym r.resource ∙ resource in differ (cc same)

module _ (platform : Platform) (target : Target) where
  -- Either the step opens the artifact, and its process is the producer from now on, or the producer
  -- stays.
  Tells-producer :
      (t next : Tracking) (now : String) (sample : KernelEvent) (e : Event)
      → Tells platform target t now sample e next
      → (Opens target.artifact_path e × (next.artifact_producer ≡ e.process))
        ⊎ ((Opens target.artifact_path e → ⊥) × (next.artifact_producer ≡ t.artifact_producer))
  Tells-producer t next now sample e (executed p kind of r room m) = inr (
    Reports-verb now _ "process_exec" sample _ _ _ e r
        (texts_differ "process_exec" "file_open_output" refl),
    m.producer,
  )
  Tells-producer t next now sample e (executed_beyond p kind of r unknown full same) = inr (
    Reports-verb now _ "process_exec" sample _ _ _ e r
        (texts_differ "process_exec" "file_open_output" refl),
    ap (λ s. s.artifact_producer) same,
  )
  Tells-producer t next now sample e (opened_artifact p kind known r path same) = inl (
    (
      r.operation,
      (
        uint sample.flags,
        r.resource
            ∙ ap (λ s. some (fields (("flags", uint sample.flags) ∷ ("path", str s) ∷ []))) path,
      ),
    ),
    ap (λ s. s.artifact_producer) same ∙ sym r.process,
  )
  Tells-producer t next now sample e (opened p kind known r path same) =
      inr (Reports-path now _ sample p _ _ _ e r path, ap (λ s. s.artifact_producer) same)
  Tells-producer t next now sample e (opened_sensitive p kind known r same) = inr (
    Reports-verb now _ "file_open_sensitive" sample _ _ _ e r
        (texts_differ "file_open_sensitive" "file_open_output" refl),
    ap (λ s. s.artifact_producer) same,
  )
  Tells-producer t next now sample e (connected p kind known port r same) = inr (
    Reports-verb now _ "network_connect" sample _ _ _ e r
        (texts_differ "network_connect" "file_open_output" refl),
    ap (λ s. s.artifact_producer) same,
  )

  Loses-producer :
      (t next : Tracking) (sample : KernelEvent)
      → Loses platform target t sample next
      → next.artifact_producer ≡ t.artifact_producer
  Loses-producer t next sample (unattributed kind unknown same) = ap (λ s. s.artifact_producer) same
  Loses-producer t next sample (port_out_of_range kind port same) =
      ap (λ s. s.artifact_producer) same

  -- The producer is that of the last open of the artifact, or the one before the run.
  Run-producer :
      (readings : List (String × Result KernelEvent)) (t last : Tracking) (es : List Event)
      (p : Process)
      → Run platform target t readings es last
      → last.artifact_producer ≡ some p
      → LastOpens target.artifact_path p es
        ⊎ (NoneOpens target.artifact_path es × (t.artifact_producer ≡ some p))
  Run-producer readings t last es p (ended _) h = inr (tt, h)
  Run-producer readings t last es p (lost _ next _ now sample rest _ step run) h =
      elim (Run-producer rest next last es p run h) [
        | inl opens ↦ inl opens
        | inr (none_opens, before) ↦
            inr (none_opens, sym (Loses-producer t next sample step) ∙ before)
      ]
  Run-producer readings t last es p (told _ next _ now sample e rest more step run) h =
      elim (Run-producer rest next last more p run h) [
        | inl opens ↦ inl (later e more opens)
        | inr (none_opens, before) ↦ elim (Tells-producer t next now sample e step) [
          | inl (opens, named) ↦ inl (here e more opens (sym named ∙ before) none_opens)
          | inr (not_opens, kept) ↦ inr ((not_opens, none_opens), sym kept ∙ before)
        ]
      ]

  pub Run-LastOpens :
      (readings : List (String × Result KernelEvent)) (t last : Tracking) (es : List Event)
      (p : Process)
      → Run platform target t readings es last
      → t.artifact_producer ≡ none
      → last.artifact_producer ≡ some p
      → LastOpens target.artifact_path p es
  Run-LastOpens readings t last es p run start h = elim (Run-producer readings t last es p run h) [
    | inl opens ↦ opens
    | inr (_, before) ↦ absurd (cc (start, before))
  ]

-- ===== src/Behavior/Permitted.antt =====
-- The events that give `behaviorReasons` of internal/rpf/verify.go no reason against an ALLOW.
use runtime_provenance_firew.Base.{
  String, ◌≡◌, ◌≢◌, refl, sym, ◌↔◌, ◌⊎◌, inl, inr, ◌||◌, Bool, true, false, not, List, [], ◌∷◌,
  ◌++◌, arith, ◌==◌, bytes_eq, string_eq, string_dec, ◌∙◌, contains, texts_differ, Option, none,
  some, ℕ,
}
use runtime_provenance_firew.Json.{lookup_in, text_of}
use runtime_provenance_firew.Model.{Process, Event, Policy, Reason, run_eq, source_eq}
use runtime_provenance_firew.Behavior.{
  reason_if, event_reasons, behavior_reasons, runs_undeclared, lacks_producer,
}
use runtime_provenance_firew.Behavior.Precedence.{HasEffect}

-- No reason stops an ALLOW.
abbrev pub IsClear : List Reason → Type 0
IsClear rs = (HasEffect "REJECT" rs → ⊥) × (HasEffect "REVIEW" rs → ⊥)

append-IsClear : (rs ss : List Reason) → IsClear (rs ++ ss) ↔ (IsClear rs × IsClear ss)
append-IsClear [] ss = (λ h. ((λ n. n, λ n. n), h), λ h. h.1)
append-IsClear (r ∷ rs) ss =
    let ih = append-IsClear rs ss in (λ h. ground (arith, ih.0), λ h. ground (arith, ih.1))

-- The effects that a policy gives to incomplete evidence.
abbrev pub IsStop : String → Type 0
IsStop effect = (effect ≡ "REJECT") ⊎ (effect ≡ "REVIEW")

reason_if-IsClear :
    (found : Bool) (code effect message : String) (sequence : ℕ)
    → IsStop effect
    → IsClear (reason_if found code effect message sequence) ↔ (found ≡ false)
reason_if-IsClear true code effect message sequence stop =
    (λ h. elim stop [ inl e ↦ absurd (h.0 (inl e)) | inr e ↦ absurd (h.1 (inl e)) ], λ h. cc)
reason_if-IsClear false code effect message sequence stop = (λ h. refl, λ h. (λ n. n, λ n. n))

-- One reason in front of others.
pub guard-IsClear :
    {Q : Type 0} (found : Bool) (code effect message : String) (sequence : ℕ) (rest : List Reason)
    → IsStop effect
    → IsClear rest ↔ Q
    → IsClear (reason_if found code effect message sequence ++ rest) ↔ ((found ≡ false) × Q)
guard-IsClear found code effect message sequence rest stop later =
    let (split, join) = append-IsClear (reason_if found code effect message sequence) rest in
    let (to, from) = reason_if-IsClear found code effect message sequence stop in
    (λ h. let parts = split h in (to parts.0, later.0 parts.1), λ h. join (from h.0, later.1 h.1))

-- The policy declares what the event did.
pub record IsPermitted (policy : Policy) (e : Event) : Type 0 where
  pub executable :
      e.operation ≡ "process_exec"
      → (p : Process) → e.process ≡ some p
      → contains policy.allowed_executables p.executable.path ≡ true
  pub destination :
      e.operation ≡ "network_connect"
      → (text_of (lookup_in e.resource "destination") ≢ "")
        × (contains policy.allowed_network_destinations
              (text_of (lookup_in e.resource "destination"))
            ≡ true)
  pub category :
      e.operation ≡ "file_open_sensitive"
      → (text_of (lookup_in e.resource "category") ≢ "")
        × (contains policy.forbidden_sensitive_categories
              (text_of (lookup_in e.resource "category"))
            ≡ false)
  pub producer :
      e.operation ≡ "artifact_finalized"
      → (p : Process) × (e.process ≡ some p)
        × (contains policy.allowed_artifact_producers p.executable.path ≡ true)

runs_undeclared_iff :
    (p : Option Process) (allowed : List String)
    → (runs_undeclared p allowed ≡ false)
      ↔ ((q : Process) → p ≡ some q → contains allowed q.executable.path ≡ true)
runs_undeclared_iff none allowed = (λ h q e. cc, λ h. refl)
runs_undeclared_iff (some p) allowed = (λ h q e. ground arith, λ h. ground (arith, h p refl))

lacks_producer_iff :
    (p : Option Process) (allowed : List String)
    → (lacks_producer p allowed ≡ false)
      ↔ ((q : Process) × (p ≡ some q) × (contains allowed q.executable.path ≡ true))
lacks_producer_iff none allowed = (λ h. cc, λ h. cc (h.1))
lacks_producer_iff (some p) allowed = (λ h. (p, refl, ground arith), λ h. ground (arith, h))

abbrev no_destination : Event → Policy → Bool
no_destination e policy =
    text_of (lookup_in e.resource "destination") == ""
    || not (
        contains policy.allowed_network_destinations (text_of (lookup_in e.resource "destination")))

abbrev forbidden_category : Event → Policy → Bool
forbidden_category e policy =
    text_of (lookup_in e.resource "category") == ""
    || contains policy.forbidden_sensitive_categories (text_of (lookup_in e.resource "category"))

-- The tests of `behaviorReasons` on one event, without their order.
abbrev Passes : Event → Policy → Type 0
Passes e policy =
    (e.operation ≡ "process_exec" → runs_undeclared e.process policy.allowed_executables ≡ false)
    × (e.operation ≡ "network_connect" → no_destination e policy ≡ false)
    × (e.operation ≡ "file_open_sensitive" → forbidden_category e policy ≡ false)
    × (e.operation ≡ "artifact_finalized"
        → lacks_producer e.process policy.allowed_artifact_producers ≡ false)

exec-ne-connect : ◌≢◌ {A = String} "process_exec" "network_connect"
exec-ne-connect = texts_differ "process_exec" "network_connect" refl

exec-ne-sensitive : ◌≢◌ {A = String} "process_exec" "file_open_sensitive"
exec-ne-sensitive = texts_differ "process_exec" "file_open_sensitive" refl

exec-ne-artifact : ◌≢◌ {A = String} "process_exec" "artifact_finalized"
exec-ne-artifact = texts_differ "process_exec" "artifact_finalized" refl

connect-ne-sensitive : ◌≢◌ {A = String} "network_connect" "file_open_sensitive"
connect-ne-sensitive = texts_differ "network_connect" "file_open_sensitive" refl

connect-ne-artifact : ◌≢◌ {A = String} "network_connect" "artifact_finalized"
connect-ne-artifact = texts_differ "network_connect" "artifact_finalized" refl

sensitive-ne-artifact : ◌≢◌ {A = String} "file_open_sensitive" "artifact_finalized"
sensitive-ne-artifact = texts_differ "file_open_sensitive" "artifact_finalized" refl

event_reasons-Passes :
    (e : Event) (policy : Policy) → IsClear (event_reasons e policy) ↔ Passes e policy
unfolding event_reasons
event_reasons-Passes e policy = elim (string_dec e.operation "process_exec") [
  | yes op ↦ (
    λ h. (
      λ _. ground arith,
      λ o. absurd (exec-ne-connect (sym op ∙ o)),
      λ o. absurd (exec-ne-sensitive (sym op ∙ o)),
      λ o. absurd (exec-ne-artifact (sym op ∙ o)),
    ),
    λ h. ground (arith, h.0),
  )
  | no exec ↦ elim (string_dec e.operation "network_connect") [
    | yes op ↦ (
      λ h. (
        λ o. absurd (exec o),
        λ _. ground arith,
        λ o. absurd (connect-ne-sensitive (sym op ∙ o)),
        λ o. absurd (connect-ne-artifact (sym op ∙ o)),
      ),
      λ h. ground (arith, h.1),
    )
    | no connect ↦ elim (string_dec e.operation "file_open_sensitive") [
      | yes op ↦ (
        λ h. (
          λ o. absurd (exec o),
          λ o. absurd (connect o),
          λ _. ground arith,
          λ o. absurd (sensitive-ne-artifact (sym op ∙ o)),
        ),
        λ h. ground (arith, h.2),
      )
      | no sensitive ↦ (
        λ h. (
          λ o. absurd (exec o),
          λ o. absurd (connect o),
          λ o. absurd (sensitive o),
          λ o. ground arith,
        ),
        λ h. ground (arith, h.3),
      )
    ]
  ]
]

event_reasons_iff :
    (e : Event) (policy : Policy) → IsClear (event_reasons e policy) ↔ IsPermitted policy e
event_reasons_iff e policy =
    let (from, to) = event_reasons-Passes e policy in
    let run = runs_undeclared_iff e.process policy.allowed_executables in
    let made = lacks_producer_iff e.process policy.allowed_artifact_producers in
    (
      λ h.
          let p = from h in
          record {
            executable = λ o. run.0 (p.0 o);
            destination = λ o. ground (arith, p.1 o);
            category = λ o. ground (arith, p.2 o);
            producer = λ o. made.0 (p.3 o);
          },
      λ h. to (
        λ o. run.1 (h.executable o),
        λ o. ground (arith, h.destination o),
        λ o. ground (arith, h.category o),
        λ o. made.1 (h.producer o),
      ),
    )

abbrev pub AllPermitted : Policy → List Event → Type 0
AllPermitted policy [] = Unit
AllPermitted policy (e ∷ es) = IsPermitted policy e × AllPermitted policy es

-- The events give no reason against an ALLOW exactly when each of them is one that the policy
-- permits.
pub behavior_reasons_iff :
    (policy : Policy) (es : List Event)
    → IsClear (behavior_reasons es policy) ↔ AllPermitted policy es
unfolding behavior_reasons
behavior_reasons_iff policy [] = (λ h. tt, λ h. (λ n. n, λ n. n))
behavior_reasons_iff policy (e ∷ es) =
    let (split, join) = append-IsClear (event_reasons e policy) (behavior_reasons es policy) in
    let here = event_reasons_iff e policy in
    let there = behavior_reasons_iff policy es in
    (
      λ h. let parts = split h in (here.0 parts.0, there.0 parts.1),
      λ h. join (here.1 h.0, there.1 h.1),
    )

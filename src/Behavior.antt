-- ===== src/Behavior.antt =====
-- `behaviorReasons` of internal/rpf/verify.go and the precedence of the reasons' effects.
pub mod Precedence
pub mod Permitted
use runtime_provenance_firew.Base.{
  ℕ, String, ◌||◌, ◌&&◌, not, List, [], ◌∷◌, ◌++◌, Option, none, some, ◌==◌, ◌!=◌, string_eq,
  contains, if◌then◌else◌, Bool, true, false,
}
use runtime_provenance_firew.Json.{lookup_in, text_of}
use runtime_provenance_firew.Model.{Process, Event, Policy, Reason}

-- `event.Process != nil && !slices.Contains(allowed, event.Process.Executable.Path)`
abbrev pub runs_undeclared : Option Process → List String → Bool
runs_undeclared none allowed = false
runs_undeclared (some process) allowed = not (contains allowed process.executable.path)

-- `event.Process == nil || !slices.Contains(allowed, event.Process.Executable.Path)`
abbrev pub lacks_producer : Option Process → List String → Bool
lacks_producer none allowed = true
lacks_producer (some process) allowed = not (contains allowed process.executable.path)

abbrev pub reason_if : Bool → String → String → String → ℕ → List Reason
reason_if found code effect message sequence =
    if found
    then record { code = code; effect = effect; message = message; sequence = sequence } ∷ []
    else []

-- The reasons that one event gives: at most one.
unfoldable pub event_reasons : Event → Policy → List Reason
event_reasons event policy =
    if event.operation == "process_exec"
    then reason_if (runs_undeclared event.process policy.allowed_executables) "RPF-PROCESS-001"
        "REVIEW" "executable is not declared by policy" event.sequence
    else if event.operation == "network_connect"
    then reason_if
        (text_of (lookup_in event.resource "destination") == ""
          || not (
              contains policy.allowed_network_destinations
                (text_of (lookup_in event.resource "destination"))))
        "RPF-EGRESS-001" "REJECT" "network destination is not declared by policy" event.sequence
    else if event.operation == "file_open_sensitive"
    then reason_if
        (text_of (lookup_in event.resource "category") == ""
          || contains policy.forbidden_sensitive_categories
              (text_of (lookup_in event.resource "category")))
        "RPF-SENSITIVE-001" "REJECT" "forbidden sensitive-path category was accessed" event.sequence
    else if event.operation == "artifact_finalized"
    then reason_if (lacks_producer event.process policy.allowed_artifact_producers)
        "RPF-ARTIFACT-PRODUCER-001" "REJECT"
        "artifact-producing executable is not authorized by policy" event.sequence
    else []

unfoldable pub behavior_reasons : List Event → Policy → List Reason
unfolding event_reasons
behavior_reasons [] policy = []
behavior_reasons (event ∷ events) policy =
    event_reasons event policy ++ behavior_reasons events policy

-- The loop of `Verify` over the reasons, with the decision so far.
unfoldable pub decide_from : String → List Reason → String
decide_from decision [] = decision
decide_from decision (reason ∷ reasons) =
    if reason.effect == "REJECT"
    then "REJECT"
    else decide_from (if reason.effect == "REVIEW" then "REVIEW" else decision) reasons

unfoldable pub decide : List Reason → String
unfolding decide_from
decide = decide_from "ALLOW"

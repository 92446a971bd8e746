-- ===== src/Base/Results.antt =====
-- Errors as values: the `error` results of the program, one constructor for each place that makes
-- one. The arguments that only the text of a message shows are left out.
use Prim.Native.Nat.{ℕ}
use Prim.Native.String.{String}
use mathlib.Core.Path.{◌≡◌, refl}
use mathlib.Core.Bool.{Bool, true, false}
use mathlib.Core.Option.{Option, none, some}

pub data Error : Type 0 where
  -- internal/rpf/parse.go
  document_size nesting_limit value_limit invalid_json string_limit key_invalid : Error
  key_not_string key_limit unterminated_object unterminated_array : Error
  unexpected_delimiter decode_failed trailing_data marshal_failed : Error
  duplicate_key : String → Error
  -- no error of the program: the model's bound on the walk of a document was too small
  out_of_fuel : Error
  statement_type no_subjects policy_version incomplete_decision allowlists : Error
  -- internal/rpf/evidence.go
  stream_size blank_line not_canonical event_count scan_failed stream_empty : Error
  event_schema event_identity kernel_scope source_identity event_time : Error
  event_operation event_sensor exec_process process_identity : Error
  integrity_missing : Error
  wrong_sequence crosses_build changes_sensor reverses_time previous_mismatch : ℕ → Error
  hash_mismatch graph_identity : ℕ → Error
  graph_empty : Error
  conflicting_identity : String → Error
  -- internal/rpf/chain.go
  scope_incomplete sensor_incomplete chain_owned : Error
  -- internal/rpf/verify.go and local_provenance.go
  provenance_predicate build_mismatch source_mismatch subject_mismatch : Error
  artifact_differs producer_missing artifact_unobserved : Error
  definition_missing internal_missing identity_missing identity_incomplete : Error
  structure_incomplete external_conflict dependencies_omit details_conflict : Error
  local_inputs local_source : Error
  -- internal/sensor/sensor_linux.go
  cgroup_id_zero cgroup_path_empty cgroup_unreadable cgroup_differs sensitive_path_long : Error
  object_unreadable variable_missing variable_refused collection_refused program_missing : Error
  attach_refused map_missing reader_refused read_failed cancelled : Error
  sample_size unsupported_kind counter_missing counter_unreadable : Error
  -- the files of internal/rpf/verify.go and cmd/rpf/main.go
  file_unreadable file_exists write_failed directory_failed rename_failed options_missing : Error
  -- cmd/rpf-authz-target, cmd/rpf-authz-proof and cmd/rpf-cgroup-enter
  target_arguments target_mode listen_failed ready_refused deadline_refused accept_failed : Error
  request_undecodable response_refused proof_arguments dial_failed request_refused : Error
  response_undecodable marker_missing proof_granted : Error
  enter_usage not_root cgroup_unresolved cgroup_foreign target_relative enter_refused : Error
  privileges_kept groups_kept gid_kept uid_kept exec_failed : Error
  -- cmd/rpf-build-fixture, rpf-package-fixture, rpf-local-connect and rpf-mock-server
  lab_arguments outside_lab artifact_refused not_regular truncate_failed artifact_unwritten : Error
  artifact_unsynced manifest_unreadable manifest_invalid loopback_only mock_refused : Error
  marker_unread marker_unexpected : Error
  -- cmd/rpf-sensor/main_linux.go
  flags_missing artifact_relative sensitive_unpaired sensitive_relative path_hash_differs : Error
  configuration_unencodable output_exists persist_failed sync_failed producer_unknown : Error
  artifact_unreadable clock_unreadable : Error
  -- `fmt.Errorf("event line %d: %w")`, `fmt.Errorf("policy: %w")` and the like
  at_line : ℕ → Error → Error
  in_policy in_provenance in_identity : Error → Error

-- A value or the error in its place, the two results of a Go function.
pub data Result {ℓ} (A : Type ℓ) : Type ℓ where
  err : Error → Result A
  ok : A → Result A

module _ {ℓ κ} {A : Type ℓ} {B : Type κ} where
  infixl 5 ◌>>=◌ ◌>>◌
  -- `if err != nil { return err }` behind a call
  abbrev pub ◌>>=◌ : Result A → (A → Result B) → Result B
  err failure >>= next = err failure
  ok value >>= next = next value

  abbrev pub ◌>>◌ : Result A → Result B → Result B
  first >> second = first >>= λ value. second

  -- What an error-free bind went through.
  pub >>=-eq-ok :
      (first : Result A) (next : A → Result B) {result : B}
      → (first >>= next) ≡ ok result
      → (value : A) × (first ≡ ok value) × (next value ≡ ok result)
  >>=-eq-ok (err failure) next h = cc
  >>=-eq-ok (ok value) next h = (value, refl, h)

-- `if condition { return err }`
abbrev pub fail_if : Bool → Error → Result (Unit {0})
fail_if true e = err e
fail_if false e = ok tt

-- `value, ok := …; if !ok { return err }`
abbrev pub require {ℓ} : {A : Type ℓ} → Option A → Error → Result A
require none e = err e
require (some a) e = ok a

-- `fmt.Errorf("…: %w", err)`
abbrev pub wrap {ℓ} : {A : Type ℓ} → (Error → Error) → Result A → Result A
wrap w (ok a) = ok a
wrap w (err e) = err (w e)

pub fail_if-eq-ok {ℓ} :
    {B : Type ℓ} (c : Bool) (e : Error) (k : Result B) {b : B}
    → (fail_if c e >> k) ≡ ok b
    → (c ≡ false) × (k ≡ ok b)
fail_if-eq-ok true e k h = cc
fail_if-eq-ok false e k h = (refl, h)

pub require-eq-ok {ℓ κ} :
    {A : Type ℓ} {B : Type κ} (o : Option A) (e : Error) (f : A → Result B) {b : B}
    → (require o e >>= f) ≡ ok b
    → (a : A) × (o ≡ some a) × (f a ≡ ok b)
require-eq-ok none e f h = cc
require-eq-ok (some a) e f h = (a, refl, h)

pub wrap-eq-ok {ℓ κ} :
    {A : Type ℓ} {B : Type κ} (w : Error → Error) (m : Result A) (f : A → Result B) {b : B}
    → (wrap w m >>= f) ≡ ok b
    → (a : A) × (m ≡ ok a) × (f a ≡ ok b)
wrap-eq-ok w (ok a) f h = (a, refl, h)
wrap-eq-ok w (err e) f h = cc

pub require-some {ℓ} :
    {A : Type ℓ} (o : Option A) (e : Error) {a : A} → require o e ≡ ok a → o ≡ some a
require-some none e h = cc
require-some (some b) e h = cc

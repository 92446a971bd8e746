-- ===== src/Lab.antt =====
-- The small programs of the laboratory: cmd/rpf-build-fixture/main.go and
-- cmd/rpf-package-fixture/main.go on files, cmd/rpf-local-connect/main.go and
-- cmd/rpf-mock-server/main.go on a connection. What the system answers each call are records.
pub mod Confined
use runtime_provenance_firew.Base.{
  ℕ, String, Bool, true, false, not, ◌||◌, ◌&&◌, Option, none, some, List, [], ◌∷◌, ◌++◌, ◌==◌,
  ◌!=◌, nat_eq, string_eq, if◌then◌else◌, Result, ok, err, ◌>>=◌, ◌>>◌, fail_if, require,
  lab_arguments, outside_lab, artifact_refused, not_regular, truncate_failed, artifact_unwritten,
  artifact_unsynced, manifest_unreadable, manifest_invalid, loopback_only, mock_refused,
  marker_unread, marker_unexpected, dial_failed, listen_failed, ready_refused, deadline_refused,
  accept_failed,
}
use runtime_provenance_firew.Platform.{Bytes}
use runtime_provenance_firew.Files.{Files, file_at, put_file, is_taken}
use runtime_provenance_firew.Agent.Settings.{is_absolute}
use runtime_provenance_firew.Authz.{is_remote}

abbrev pub lab_output_root : String
lab_output_root = "/src/build/out"

abbrev pub lab_manifest : String
lab_manifest = "/src/lab/fixtures/synthetic-package-lock.json"

-- "rpf-artifact-v1"
abbrev pub artifact_text : Bytes
artifact_text =
    b'r' ∷ b'p' ∷ b'f' ∷ b'-' ∷ b'a' ∷ b'r' ∷ b't' ∷ b'i' ∷ b'f' ∷ b'a' ∷ b'c' ∷ b't' ∷ b'-' ∷ b'v'
    ∷ b'1' ∷ []

-- What the system of the laboratory answers.
pub record Laboratory : Type 0 where
  -- filepath.Clean, Dir and Base, strings.HasPrefix and HasSuffix
  pub clean : String → String
  pub dir : String → String
  pub base : String → String
  pub has_prefix : String → String → Bool
  pub has_suffix : String → String → Bool
  -- the environment's RPF_DISPOSABLE_LAB
  pub disposable : String
  pub opens : String → Bool
  pub stats : String → Bool
  pub is_regular : String → Bool
  pub truncates : String → Bool
  pub writes : String → Bool
  pub syncs : String → Bool
  -- what a failed write leaves in the truncated file
  pub left : String → Bytes
  pub reads : String → Bool
  -- json.Valid
  pub is_json : Bytes → Bool

module _ (lab : Laboratory) where
  unfoldable pub is_lab_output : String → Bool
  is_lab_output path =
      is_absolute path
      && lab.dir (lab.clean path) == lab_output_root
      && lab.has_prefix (lab.base (lab.clean path)) "sensor-"
      && lab.has_suffix (lab.base (lab.clean path)) "-artifact.txt"

  -- `writeArtifact`: the file must be there, as it is opened without O_CREATE
  unfoldable pub write_artifact : String → Files → Files × Result (Unit {0})
  write_artifact path files =
      if not (lab.opens path) || not (is_taken (file_at path files))
      then (files, err artifact_refused)
      else if not (lab.stats path)
      then (files, err artifact_refused)
      else if not (lab.is_regular path)
      then (files, err not_regular)
      else if not (lab.truncates path)
      then (files, err truncate_failed)
      else if not (lab.writes path)
      then (put_file path (lab.left path) files, err artifact_unwritten)
      else if not (lab.syncs path)
      then (put_file path artifact_text files, err artifact_unsynced)
      else (put_file path artifact_text files, ok tt)

  -- `run` of rpf-build-fixture, on its option and whether arguments are left over
  unfoldable pub run_build_fixture : String → Bool → Files → Files × Result (Unit {0})
  run_build_fixture artifact has_arguments files =
      if has_arguments || not (is_lab_output artifact)
      then (files, err lab_arguments)
      else if lab.disposable != "1"
      then (files, err outside_lab)
      else write_artifact artifact files

  -- `run` of rpf-package-fixture
  unfoldable pub run_package_fixture : String → Bool → Files → Result (Unit {0})
  run_package_fixture manifest has_arguments files = do
    fail_if (has_arguments || manifest != lab_manifest) lab_arguments
    fail_if (lab.disposable != "1") outside_lab
    fail_if (not (lab.reads manifest)) manifest_unreadable
    content ← require (file_at manifest files) manifest_unreadable
    fail_if (not (lab.is_json content)) manifest_invalid

-- The two ends of a connection.
pub record Callback : Type 0 where
  pub is_loopback : String → Option Bool
  pub dials : Bool
  pub writes : Bool
  pub listens : Bool
  pub creates_ready : Bool
  pub closes_ready : Bool
  pub sets_deadline : Bool
  pub accepts : Bool
  pub sets_read_deadline : Bool

-- `run` of rpf-local-connect: the bytes that it writes
unfoldable pub run_connect : Callback → String → Result Bytes
run_connect end address = do
  fail_if (is_remote (end.is_loopback address)) loopback_only
  fail_if (not end.dials) dial_failed
  fail_if (not end.writes) mock_refused
  ok (82 ∷ [])

-- A `Read` of one byte from what the peer has written.
abbrev pub first_byte : Bytes → Option ℕ
first_byte [] = none
first_byte (b ∷ bs) = some b

-- `serve` of rpf-mock-server
unfoldable pub serve_mock : Callback → String → String → Bytes → Result (Unit {0})
serve_mock end address ready_path received = do
  fail_if (is_remote (end.is_loopback address) || ready_path == "") loopback_only
  fail_if (not end.listens) listen_failed
  fail_if (not end.creates_ready) ready_refused
  fail_if (not end.closes_ready) ready_refused
  fail_if (not end.sets_deadline) deadline_refused
  fail_if (not end.accepts) accept_failed
  fail_if (not end.sets_read_deadline) deadline_refused
  marker ← require (first_byte received) marker_unread
  fail_if (marker != 82) marker_unexpected

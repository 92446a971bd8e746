-- ===== src/Cli.antt =====
-- cmd/rpf/main.go: the commands on files, with the status that each exits with. Parsing of the
-- options is left to package flag; an option that is not given is the empty text.
pub mod Status
use runtime_provenance_firew.Base.{
  ℕ, String, Option, none, some, Bool, true, false, not, ◌||◌, List, [], ◌∷◌, length, ◌==◌,
  string_eq, if◌then◌else◌, Result, ok, err, ◌>>=◌, ◌>>◌, fail_if, options_missing,
}
use runtime_provenance_firew.Model.{Decision}
use runtime_provenance_firew.Model.Encoding.{graph_value, statement_value}
use runtime_provenance_firew.Platform.{Platform, Bytes}
use runtime_provenance_firew.Stream.{parse_event_stream}
use runtime_provenance_firew.Graph.{Runtime, build_graph_from_stream}
use runtime_provenance_firew.Assemble.{assemble}
use runtime_provenance_firew.LocalProvenance.{create_local_fixture_provenance}
use runtime_provenance_firew.Verify.{verify}
use runtime_provenance_firew.Files.{
  Files, Disk, Decoders, read_file, read_inputs, write_canonical_exclusive, write_bundle,
  load_bundle,
}

-- The options of the five commands.
pub record Options : Type 0 where
  pub artifact : String
  pub events : String
  pub provenance : String
  pub policy : String
  pub bundle : String
  pub repository : String
  pub revision : String
  pub output : String

-- `fail`
abbrev pub fail_status : ℕ
fail_status = 4

-- `printJSON`, by whether the output takes the text, and the status behind it.
abbrev pub print_json : Bool → ℕ → ℕ
print_json prints status = if prints then status else fail_status

-- A command that prints nothing of its result but that there is one.
abbrev pub status_of {ℓ} : {A : Type ℓ} → Bool → Result A → ℕ
status_of prints (ok a) = print_json prints 0
status_of prints (err e) = fail_status

-- The status for a decision.
unfoldable pub decision_status : Bool → Result Decision → ℕ
decision_status prints (err e) = fail_status
decision_status prints (ok decision) =
    print_json prints
      (if decision.decision == "REVIEW" then 2 else if decision.decision == "REJECT" then 3 else 0)

-- A command's files before its write, and the write behind the steps that lead to it.
abbrev pub write_with {ℓ} :
    {A : Type ℓ} → Files → Result A → (A → Files × Result (Unit {0})) → Files × Result (Unit {0})
write_with files (err e) write = (files, err e)
write_with files (ok a) write = write a

module _ (platform : Platform) (runtime : Runtime) (disk : Disk) (decoders : Decoders)
    (prints : Bool) (options : Options) (files : Files) where
  -- `createLocalProvenance`
  unfoldable pub create_local_provenance_command : Files × ℕ
  create_local_provenance_command =
      let statement = do
        fail_if
            (options.artifact == ""
              || options.events == ""
              || options.repository == ""
              || options.revision == ""
              || options.output == "")
            options_missing
        artifact ← read_file platform disk options.artifact files
        raw ← read_file platform disk options.events files
        events ← parse_event_stream platform raw
        create_local_fixture_provenance platform (disk.base options.artifact) artifact events
            options.repository options.revision
      in let written =
          write_with files statement (λ s.
            write_canonical_exclusive platform disk options.output (statement_value s) files) in
        (written.0, status_of prints written.1)

  -- `graphEvents`
  unfoldable pub graph_events_command : Files × ℕ
  graph_events_command =
      let graph = do
        fail_if (options.events == "" || options.output == "") options_missing
        raw ← read_file platform disk options.events files
        build_graph_from_stream platform runtime raw
      in let written =
          write_with files graph
            (λ g. write_canonical_exclusive platform disk options.output (graph_value g) files) in
        (written.0, status_of prints written.1)

  -- `validateEvents`
  unfoldable pub validate_events_command : ℕ
  validate_events_command = status_of prints (do
    fail_if (options.events == "") options_missing
    raw ← read_file platform disk options.events files
    parse_event_stream platform raw)

  -- `assemble`
  unfoldable pub assemble_command : Files × ℕ
  assemble_command =
      let bundle = do
        fail_if
            (options.artifact == ""
              || options.events == ""
              || options.provenance == ""
              || options.policy == ""
              || options.output == "")
            options_missing
        inputs ←
            read_inputs platform disk options.artifact options.events options.provenance
              options.policy files
        assemble platform runtime inputs
      in let written =
          write_with files bundle (λ b. write_bundle platform disk options.output b files) in
        (written.0, status_of prints written.1)

  -- `verify`, up to its decision
  unfoldable pub decide_files : Result Decision
  decide_files = do
    fail_if
        (options.artifact == ""
          || options.events == ""
          || options.provenance == ""
          || options.policy == ""
          || options.bundle == "")
        options_missing
    inputs ←
        read_inputs platform disk options.artifact options.events options.provenance options.policy
          files
    bundle ← load_bundle platform disk decoders options.bundle files
    verify platform runtime inputs bundle

  unfoldable pub verify_command : ℕ
  unfolding decide_files
  verify_command = decision_status prints decide_files

  -- `main`, by its first argument if there is one
  unfoldable pub run_command : Option String → Files × ℕ
  unfolding create_local_provenance_command graph_events_command validate_events_command
      assemble_command verify_command
  run_command none = (files, fail_status)
  run_command (some command) =
      if command == "assemble"
      then assemble_command
      else if command == "verify-fixture"
      then (files, verify_command)
      else if command == "validate-events"
      then (files, validate_events_command)
      else if command == "graph-events"
      then graph_events_command
      else if command == "create-local-provenance"
      then create_local_provenance_command
      else (files, fail_status)

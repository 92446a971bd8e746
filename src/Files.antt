-- ===== src/Files.antt =====
-- The files of internal/rpf/verify.go: `ReadInputs`, `WriteBundle`, `WriteCanonicalExclusive` and
-- `LoadBundle`, on a list of paths with their contents.
pub mod Exclusive
pub mod Bundles
pub mod Settled
pub mod Loaded
use runtime_provenance_firew.Base.{
  String, ◌<>◌, Bool, true, false, not, ◌||◌, Option, none, some, List, [], ◌∷◌, ◌++◌, ◌==◌,
  string_eq, if◌then◌else◌, Result, ok, err, ◌>>=◌, require, file_unreadable, file_exists,
  write_failed, directory_failed, rename_failed,
}
use runtime_provenance_firew.Json.{Value}
use runtime_provenance_firew.Model.{ExecutionGraph, Manifest}
use runtime_provenance_firew.Model.Encoding.{graph_value, manifest_value, statement_value}
use runtime_provenance_firew.Platform.{Platform, Bytes, Tokens}
use runtime_provenance_firew.Parse.{canonical, decode_strict, max_document_bytes}
use runtime_provenance_firew.Assemble.{Inputs, Bundle}

abbrev pub Files : Type 0
Files = List (String × Bytes)

unfoldable pub file_at : String → Files → Option Bytes
file_at path [] = none
file_at path ((other, content) ∷ files) =
    let rest = file_at path files in if other == path then some content else rest

unfoldable pub remove_file : String → Files → Files
remove_file path [] = []
remove_file path ((other, content) ∷ files) =
    let rest = remove_file path files in if other == path then rest else (other, content) ∷ rest

unfoldable pub put_file : String → Bytes → Files → Files
unfolding remove_file
put_file path content files = (path, content) ∷ remove_file path files

-- What the disk does besides keeping the contents: whether each call succeeds, and what a write that
-- fails has put into the file.
pub record Disk : Type 0 where
  -- filepath.Base and filepath.Join
  pub base : String → String
  pub join : String → String → String
  pub reads : String → Bool
  pub makes_directory : String → Bool
  pub creates : String → Bool
  pub writes : String → Bool
  pub syncs : String → Bool
  pub closes : String → Bool
  pub renames : String → Bool
  pub removes : String → Bool
  pub partial : String → Bytes
  -- the content after an os.WriteFile that failed, if it got as far as the file
  pub left : String → Option Bytes
  -- the order in which Go ranges over the map of `WriteBundle`
  pub range_values : List (String × Value) → List (String × Value)

-- NewDecoder, DisallowUnknownFields, Decode into the types that only `LoadBundle` reads.
pub record Decoders : Type 0 where
  pub decode_graph : Bytes → Option (ExecutionGraph × Tokens)
  pub decode_manifest : Bytes → Option (Manifest × Tokens)

abbrev pub is_taken : Option Bytes → Bool
is_taken none = false
is_taken (some content) = true

-- What a failed os.WriteFile leaves.
unfoldable pub leave : String → Option Bytes → Files → Files
leave path none files = files
leave path (some content) files = put_file path content files

module _ (platform : Platform) (disk : Disk) where
  -- `os.ReadFile`
  unfoldable pub read_file : String → Files → Result Bytes
  read_file path files =
      if disk.reads path then require (file_at path files) file_unreadable else err file_unreadable

  unfoldable pub read_inputs : String → String → String → String → Files → Result Inputs
  read_inputs artifact_path event_path provenance_path policy_path files = do
    artifact ← read_file artifact_path files
    events ← read_file event_path files
    provenance ← read_file provenance_path files
    policy ← read_file policy_path files
    ok (record {
      artifact_bytes = artifact;
      artifact_name = disk.base artifact_path;
      event_bytes = events;
      provenance_bytes = provenance;
      policy_bytes = policy;
    })

  -- The os.Remove after a failed call, whose own error is ignored.
  unfoldable pub clean_up : String → Files → Files
  clean_up path files = if disk.removes path then remove_file path files else files

  -- The calls of `WriteCanonicalExclusive` on the file, which is there from the first on.
  unfoldable pub write_exclusive : String → Bytes → Files → Files × Result (Unit {0})
  unfolding clean_up
  write_exclusive path content files =
      if is_taken (file_at path files) || not (disk.creates path)
      then (files, err file_exists)
      else let created = put_file path [] files in
        if not (disk.writes path)
        then (clean_up path (put_file path (disk.partial path) created), err write_failed)
        else let written = put_file path content created in
          if not (disk.syncs path)
          then (clean_up path written, err write_failed)
          else if not (disk.closes path)
          then (clean_up path written, err write_failed)
          else (written, ok tt)

  unfoldable pub write_canonical_exclusive : String → Value → Files → Files × Result (Unit {0})
  write_canonical_exclusive path value files = elim (canonical platform value) [
    | err e ↦ (files, err e)
    | ok raw ↦ write_exclusive path (raw ++ b'\n' ∷ []) files
  ]

  -- One round of the loop of `WriteBundle`.
  unfoldable pub write_through : String → Bytes → Files → Files × Result (Unit {0})
  write_through path content files =
      let temporary = path <> ".tmp" in
      if not (disk.writes temporary)
      then (leave temporary (disk.left temporary) files, err write_failed)
      else let written = put_file temporary content files in
        if not (disk.renames path)
        then (written, err rename_failed)
        else (put_file path content (remove_file temporary written), ok tt)

  unfoldable pub write_values : String → List (String × Value) → Files → Files × Result (Unit {0})
  write_values directory [] files = (files, ok tt)
  write_values directory ((name, value) ∷ values) files = elim (canonical platform value) [
    | err e ↦ (files, err e)
    | ok raw ↦
        let round = write_through (disk.join directory name) (raw ++ b'\n' ∷ []) files in
        elim round.1 [ err e ↦ (round.0, err e) | ok _ ↦ write_values directory values round.0 ]
  ]

  unfoldable pub bundle_values : Bundle → List (String × Value)
  bundle_values bundle =
      ("execution-graph.json", graph_value bundle.graph)
      ∷ ("evidence-manifest.json", manifest_value bundle.manifest)
      ∷ ("runtime-trace.json", statement_value bundle.runtime_trace)
      ∷ []

  unfoldable pub write_bundle : String → Bundle → Files → Files × Result (Unit {0})
  unfolding bundle_values
  write_bundle directory bundle files =
      if not (disk.makes_directory directory)
      then (files, err directory_failed)
      else write_values directory (disk.range_values (bundle_values bundle)) files

  unfoldable pub load_bundle : Decoders → String → Files → Result Bundle
  load_bundle decoders directory files = do
    graph_bytes ← read_file (disk.join directory "execution-graph.json") files
    graph ← decode_strict platform decoders.decode_graph graph_bytes max_document_bytes
    manifest_bytes ← read_file (disk.join directory "evidence-manifest.json") files
    manifest ← decode_strict platform decoders.decode_manifest manifest_bytes max_document_bytes
    trace_bytes ← read_file (disk.join directory "runtime-trace.json") files
    trace ← decode_strict platform platform.decode_statement trace_bytes max_document_bytes
    ok (record { graph = graph; manifest = manifest; runtime_trace = trace })

-- ===== src/Files/Loaded.antt =====
-- `LoadBundle` of internal/rpf/verify.go on what its `WriteBundle` wrote.
use runtime_provenance_firew.Base.{
  String, ◌≡◌, refl, sym, ap, ◌∙◌, inl, inr, true, some, [], ◌∷◌, ◌++◌, arith, Bool-cases, ok,
}
use runtime_provenance_firew.Json.{Value}
use runtime_provenance_firew.Model.{ExecutionGraph, Statement}
use runtime_provenance_firew.Model.Encoding.{graph_value, manifest_value, statement_value}
use runtime_provenance_firew.Platform.Laws.{IsJson}
use runtime_provenance_firew.Stream.Written.{IsLineJson, canonical-generic}
use runtime_provenance_firew.Graph.{Runtime}
use runtime_provenance_firew.Verify.{verify, conclude, decision_of, reasons_of, canonical_equal}
use runtime_provenance_firew.Platform.{Platform, Bytes}
use runtime_provenance_firew.Parse.{canonical, decode_strict, max_document_bytes}
use runtime_provenance_firew.Assemble.{Inputs, Bundle}
use runtime_provenance_firew.Files.{
  Files, Disk, Decoders, file_at, read_file, write_values, bundle_values, write_bundle, load_bundle,
}
use runtime_provenance_firew.Files.Settled.{
  settled_graph, settled_statement, settled_bundle, form-settled_graph, form-settled_statement,
}
use runtime_provenance_firew.Files.Bundles.{Has, AreApart, write_values-Has}

-- What the disk and the decoders do with this bundle: ranging over its files visits each, their paths
-- and the temporary ones are apart, every file can be read, and each document's canonical text with a
-- line end decodes strictly: the manifest to itself, and graph and statement to their settled forms, as
-- what they hold in maps is read as JSON's generic form.
pub record IsLoadable (platform : Platform) (disk : Disk) (decoders : Decoders) (directory : String)
    (bundle : Bundle) : Type 0 where
  pub ranged :
      (name : String) (value : Value)
      → Has (bundle_values platform disk bundle) name value
      → Has (disk.range_values (bundle_values platform disk bundle)) name value
  pub apart : AreApart disk directory (disk.range_values (bundle_values platform disk bundle))
  pub readable : (path : String) → disk.reads path ≡ true
  pub graph :
      (raw : Bytes)
      → canonical platform (graph_value bundle.graph) ≡ ok raw
      → decode_strict platform decoders.decode_graph (raw ++ b'\n' ∷ []) max_document_bytes
        ≡ ok (settled_graph platform bundle.graph)
  pub manifest :
      (raw : Bytes)
      → canonical platform (manifest_value bundle.manifest) ≡ ok raw
      → decode_strict platform decoders.decode_manifest (raw ++ b'\n' ∷ []) max_document_bytes
        ≡ ok bundle.manifest
  pub trace :
      (raw : Bytes)
      → canonical platform (statement_value bundle.runtime_trace) ≡ ok raw
      → decode_strict platform platform.decode_statement (raw ++ b'\n' ∷ []) max_document_bytes
        ≡ ok (settled_statement platform bundle.runtime_trace)

write_bundle-values :
    (platform : Platform) (disk : Disk) (directory : String) (bundle : Bundle) (files : Files)
    → (write_bundle platform disk directory bundle files).1 ≡ ok tt
    → write_bundle platform disk directory bundle files
      ≡ write_values platform disk directory
          (disk.range_values (bundle_values platform disk bundle))
          files
unfolding write_bundle
write_bundle-values platform disk directory bundle files h =
    elim (Bool-cases (disk.makes_directory directory)) [
      | inl made ↦ rw made refl
      | inr broken ↦ absurd (ground arith)
    ]

read_file-written :
    (platform : Platform) (disk : Disk) (path : String) (content : Bytes) (files : Files)
    → disk.reads path ≡ true
    → file_at path files ≡ some content
    → read_file platform disk path files ≡ ok content
unfolding read_file
read_file-written platform disk path content files reads stands = rw (reads, stands) refl

-- Two bundles that differ in graph and trace only, whose canonical texts are the same, are decided
-- alike.
verify-canonical :
    (platform : Platform) (runtime : Runtime) (inputs : Inputs) (bundle : Bundle)
    (graph : ExecutionGraph) (trace : Statement)
    → canonical platform (graph_value graph) ≡ canonical platform (graph_value bundle.graph)
    → canonical platform (statement_value trace)
      ≡ canonical platform (statement_value bundle.runtime_trace)
    → verify platform runtime inputs (record bundle { graph = graph; runtime_trace = trace })
      ≡ verify platform runtime inputs bundle
unfolding verify conclude decision_of reasons_of canonical_equal
verify-canonical platform runtime inputs bundle graph trace same_graph same_trace =
    rw (same_graph, same_trace) refl

-- What `WriteBundle` wrote without an error, `LoadBundle` reads back, whatever order the files were
-- written in: the same bundle, but for the maps in the graph's evidence and the trace's predicate, which
-- have JSON's generic form; and `Verify` decides on the loaded bundle as on the one that was written. This
-- holds if ranging over the files visits each, their paths and the temporary ones are apart, every file
-- can be read, each document's canonical text decodes strictly to this form of it, and the platform
-- keeps the promises of encoding/json.
pub written_bundle_loads :
    (platform : Platform) (disk : Disk) (decoders : Decoders) (directory : String) (bundle : Bundle)
    (files : Files) (runtime : Runtime) (inputs : Inputs)
    → IsJson platform
    → IsLineJson platform
    → IsLoadable platform disk decoders directory bundle
    → (write_bundle platform disk directory bundle files).1 ≡ ok tt
    → (load_bundle platform disk decoders directory
          (write_bundle platform disk directory bundle files).0
        ≡ ok (settled_bundle platform bundle))
      × (verify platform runtime inputs (settled_bundle platform bundle)
          ≡ verify platform runtime inputs bundle)
unfolding load_bundle bundle_values
written_bundle_loads platform disk decoders directory bundle files runtime inputs json line l h =
    let same = write_bundle-values platform disk directory bundle files h in
    let done = ap (λ r. r.1) (sym same) ∙ h in
    let values = disk.range_values (bundle_values platform disk bundle) in
    let (g, graph, at_graph) =
      write_values-Has platform disk directory "execution-graph.json" (graph_value bundle.graph)
        values files l.apart done (l.ranged _ _ (inl (refl, refl))) in
    let (m, manifest, at_manifest) =
      write_values-Has platform disk directory "evidence-manifest.json"
        (manifest_value bundle.manifest) values files l.apart done
        (l.ranged _ _ (inr (inl (refl, refl)))) in
    let (t, trace, at_trace) =
      write_values-Has platform disk directory "runtime-trace.json"
        (statement_value bundle.runtime_trace) values files l.apart done
        (l.ranged _ _ (inr (inr (inl (refl, refl))))) in
    let settled_g =
      canonical-generic platform json line (graph_value bundle.graph)
        (graph_value (settled_graph platform bundle.graph)) g
        (sym (form-settled_graph platform bundle.graph)) graph in
    let settled_t =
      canonical-generic platform json line (statement_value bundle.runtime_trace)
        (statement_value (settled_statement platform bundle.runtime_trace)) t
        (sym (form-settled_statement platform bundle.runtime_trace)) trace in
    (
      rw
          (
            same,
            read_file-written platform disk _ _ _ (l.readable _) at_graph,
            l.graph g graph,
            read_file-written platform disk _ _ _ (l.readable _) at_manifest,
            l.manifest m manifest,
            read_file-written platform disk _ _ _ (l.readable _) at_trace,
            l.trace t trace,
          )
          refl,
      verify-canonical platform runtime inputs bundle (settled_graph platform bundle.graph)
          (settled_statement platform bundle.runtime_trace) (settled_g ∙ sym graph)
          (settled_t ∙ sym trace),
    )

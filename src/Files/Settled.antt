-- ===== src/Files/Settled.antt =====
-- What `LoadBundle` of internal/rpf/verify.go makes of the maps in a bundle: the documents whose JSON is
-- the one that was written.
use runtime_provenance_firew.Base.{◌≡◌, refl, ap, Option, none, some, List, [], ◌∷◌, map}
use runtime_provenance_firew.Json.{
  Value, str, number, array, object, cons, Fields, end, field, decimal, generic, generic_items,
  generic_fields, sort_fields, items,
}
use runtime_provenance_firew.Json.Laws.{generic_idem}
use runtime_provenance_firew.Model.{GraphEdge, ExecutionGraph, Statement}
use runtime_provenance_firew.Model.Encoding.{
  graph_value, edge_value, node_value, statement_value, slice_value, subject_value,
}
use runtime_provenance_firew.Platform.{Platform}
use runtime_provenance_firew.Stream.Written.{settled_map, form-settled_map}
use runtime_provenance_firew.Assemble.{Bundle}

module _ (platform : Platform) where
  open platform use {float_text}

  -- An edge's evidence, which is left out where it is empty.
  abbrev pub settled_evidence : Option Fields → Option Fields
  settled_evidence none = none
  settled_evidence (some end) = none
  settled_evidence (some (field k v fs)) = some (generic_fields float_text (field k v fs))

  abbrev pub settled_edge : GraphEdge → GraphEdge
  settled_edge e = record e { evidence = settled_evidence e.evidence }

  abbrev pub settled_edges : Option (List GraphEdge) → Option (List GraphEdge)
  settled_edges none = none
  settled_edges (some es) = some (map settled_edge es)

  abbrev pub settled_graph : ExecutionGraph → ExecutionGraph
  settled_graph g = record g { edges = settled_edges g.edges }

  -- The statement as it is read back: its predicate is what a decoder with UseNumber makes of it.
  abbrev pub settled_statement : Statement → Statement
  settled_statement s = record s { predicate = settled_map platform s.predicate }

  abbrev pub settled_bundle : Bundle → Bundle
  settled_bundle bundle = record bundle {
    graph = settled_graph bundle.graph;
    runtime_trace = settled_statement bundle.runtime_trace;
  }

  -- What is written of a statement has the same generic form as what is read.
  pub form-settled_statement :
      (s : Statement)
      → generic float_text (statement_value (settled_statement s))
        ≡ generic float_text (statement_value s)
  unfolding statement_value generic
  form-settled_statement s =
      ap
        (λ p. object (
          sort_fields (
            field "_type" (str s.type) (
              field "subject" (generic float_text (slice_value subject_value s.subject))
                (field "predicateType" (str s.predicate_type) (field "predicate" p end))))))
        (form-settled_map platform s.predicate)

  form-settled_edge :
      (e : GraphEdge) (evidence : Option Fields)
      → generic float_text (edge_value (record e { evidence = settled_evidence evidence }))
        ≡ generic float_text (edge_value (record e { evidence = evidence }))
  unfolding generic
  form-settled_edge e none = refl
  form-settled_edge e (some end) = refl
  form-settled_edge e (some (field k v fs)) =
      ap
        (λ (w : Value). object (
          sort_fields (
            field "sequence" (number (decimal e.sequence)) (
              field "from" (str e.from)
                (field "to" (str e.to) (field "kind" (str e.kind) (field "evidence" w end)))))))
        (generic_idem float_text (object (field k v fs)))

  form-settled_edges :
      (es : List GraphEdge)
      → generic_items float_text (items (map edge_value (map settled_edge es)))
        ≡ generic_items float_text (items (map edge_value es))
  unfolding generic
  form-settled_edges [] = refl
  form-settled_edges (e ∷ es) =
      λ i. cons (form-settled_edge e e.evidence i) (form-settled_edges es i)

  form-edges :
      (es : Option (List GraphEdge))
      → generic float_text (slice_value edge_value (settled_edges es))
        ≡ generic float_text (slice_value edge_value es)
  unfolding generic
  form-edges none = refl
  form-edges (some es) = ap array (form-settled_edges es)

  pub form-settled_graph :
      (g : ExecutionGraph)
      → generic float_text (graph_value (settled_graph g)) ≡ generic float_text (graph_value g)
  unfolding graph_value generic
  form-settled_graph g =
      ap
        (λ es. object (
          sort_fields (
            field "schema_version" (str g.schema_version) (
              field "build_id" (str g.build_id) (
                field "nodes" (generic float_text (slice_value node_value g.nodes))
                  (field "edges" es end))))))
        (form-edges g.edges)

-- ===== src/Graph.antt =====
-- `BuildGraph` of internal/rpf/evidence.go. What Go leaves open is a parameter: the order in which
-- a `range` over a map yields its entries, and how sort.Slice arranges a slice.
pub mod Nodes
pub mod Identity
pub mod Determinism
use runtime_provenance_firew.Base.{
  ℕ, zero, suc, ◌<◌, String, ◌<>◌, ◌≡◌, ◌||◌, ◌&&◌, Bool, true, false, Option, none, some, List, [],
  ◌∷◌, ◌++◌, map, ltb, ◌==◌, ◌!=◌, string_eq, string_lt, contains, if◌then◌else◌, Result, ok, err,
  ◌>>=◌, ◌>>◌, fail_if, graph_empty, graph_identity, conflicting_identity,
}
use runtime_provenance_firew.Json.{Fields, object, lookup, as_string, map_value}
use runtime_provenance_firew.Model.{Process, Event, GraphNode, GraphEdge, ExecutionGraph, node_eq}
use runtime_provenance_firew.Platform.{Platform, Bytes}
use runtime_provenance_firew.Parse.{canonical_digest}
use runtime_provenance_firew.Stream.{parse_event_stream}
use runtime_provenance_firew.Evidence.{Events, all}

-- `nodeMap`, by the key of the process.
abbrev pub NodeMap : Type 0
NodeMap = List (String × GraphNode)

-- `old, exists := nodeMap[key]`
unfoldable pub find_node : String → NodeMap → Option GraphNode
find_node key [] = none
find_node key ((k, node) ∷ nodes) = if k == key then some node else find_node key nodes

-- `nodeMap[key] = node`
unfoldable pub put_node : String → GraphNode → NodeMap → NodeMap
put_node key node [] = (key, node) ∷ []
put_node key node ((k, old) ∷ nodes) =
    if k == key then (k, node) ∷ nodes else (k, old) ∷ put_node key node nodes

-- The order of `range nodeMap`, and sort.Slice by `ProcessKey` and by `Sequence`.
pub record Runtime : Type 0 where
  pub range_nodes : NodeMap → List GraphNode
  pub sort_nodes : List GraphNode → List GraphNode
  pub sort_edges : List GraphEdge → List GraphEdge

-- `exists && old != node`
abbrev pub conflicts : Option GraphNode → GraphNode → Bool
conflicts none node = false
conflicts (some old) node = old != node

abbrev pub node_of : Process → GraphNode
node_of p = record {
  process_key = p.process_key;
  parent_key = p.parent_key;
  parent_observation = "";
  executable = p.executable.path;
}

abbrev pub resource_operations : List String
resource_operations =
    "file_open_sensitive" ∷ "file_open_output" ∷ "file_rename_output" ∷ "network_connect"
    ∷ "artifact_finalized" ∷ []

abbrev pub text_or : Option String → String → String
text_or none default = default
text_or (some text) default = text

-- What a lookup in a map that may be nil gives.
abbrev pub resource_field : String → Event → Option String
resource_field key event = elim event.resource [ none ↦ none | some fs ↦ as_string (lookup key fs) ]

-- `digest, _ := …`
abbrev pub or_zero : Result String → String
or_zero (ok text) = text
or_zero (err e) = ""

abbrev pub add_edge : List GraphEdge → Option GraphEdge → List GraphEdge
add_edge edges none = edges
add_edge edges (some edge) = edges ++ edge ∷ []

module _ (platform : Platform) where
  unfoldable pub resource_identity : Event → String
  resource_identity event = elim (resource_field "category" event) [
    | some category ↦ "category:" <> category
    | none ↦ elim (resource_field "destination" event) [
      | some destination ↦ "network:" <> destination
      | none ↦ "resource:sha256:" <> or_zero (canonical_digest platform (map_value event.resource))
    ]
  ]

  -- The edge that an event of a process adds, if any.
  unfoldable pub edge_of : Event → Process → Option GraphEdge
  edge_of event process =
      if event.operation == "process_exec"
      then if process.parent_key != ""
        then some (record {
          sequence = event.sequence;
          from = process.parent_key;
          to = process.process_key;
          kind = "observed_exec_parent";
          evidence = none;
        })
        else none
      else if contains resource_operations event.operation
      then some (record {
        sequence = event.sequence;
        from = process.process_key;
        to = resource_identity event;
        kind = event.operation;
        evidence = event.resource;
      })
      else none

  -- One round of the loop over the events.
  abbrev pub add_process :
      NodeMap → List GraphEdge → Event → Process → Result (NodeMap × List GraphEdge)
  add_process nodes edges event process = do
    fail_if (process.process_key == "" || process.executable.path == "")
        (graph_identity event.sequence)
    fail_if (conflicts (find_node process.process_key nodes) (node_of process))
        (conflicting_identity process.process_key)
    ok (
      put_node process.process_key (node_of process) nodes,
      add_edge edges (edge_of event process),
    )

  -- `if event.Process == nil { continue }`
  abbrev pub add_if_any :
      NodeMap → List GraphEdge → Event → Option Process → Result (NodeMap × List GraphEdge)
  add_if_any nodes edges event none = ok (nodes, edges)
  add_if_any nodes edges event (some process) = add_process nodes edges event process

  unfoldable pub collect : NodeMap → List GraphEdge → List Event → Result (NodeMap × List GraphEdge)
  collect nodes edges [] = ok (nodes, edges)
  collect nodes edges (event ∷ events) = do
    (nodes', edges') ← add_if_any nodes edges event event.process
    collect nodes' edges' events

-- `nodeMap[key].ProcessKey`
abbrev pub key_or_empty : Option GraphNode → String
key_or_empty none = ""
key_or_empty (some node) = node.process_key

-- The loop over the map labels each node. It writes the labelled node back, which changes nothing
-- that the loops read.
unfoldable pub observe : NodeMap → GraphNode → GraphNode
observe nodes node = record node {
  parent_observation =
      if node.parent_key == ""
      then "none"
      else if key_or_empty (find_node node.parent_key nodes) != ""
      then "observed"
      else "unobserved";
}

abbrev pub is_found : Option GraphNode → Bool
is_found none = false
is_found (some node) = true

unfoldable pub relabel : NodeMap → GraphEdge → GraphEdge
relabel nodes edge =
    if edge.kind == "observed_exec_parent"
    then if is_found (find_node edge.from nodes)
      then edge
      else record edge { kind = "unobserved_exec_parent" }
    else edge

module _ (platform : Platform) (runtime : Runtime) where
  -- The part behind the first loop.
  unfoldable pub arrange : String → NodeMap → List GraphEdge → ExecutionGraph
  arrange build_id nodes edges = record {
    schema_version = "0.2";
    build_id = build_id;
    nodes = some (runtime.sort_nodes (map (observe nodes) (runtime.range_nodes nodes)));
    edges = some (runtime.sort_edges (map (relabel nodes) edges));
  }

  unfoldable pub build_graph : List Event → Result ExecutionGraph
  build_graph [] = err graph_empty
  build_graph (first ∷ rest) = do
    (nodes, edges) ← collect platform [] [] (first ∷ rest)
    ok (arrange first.build.build_id nodes edges)

  unfoldable pub build_graph_from_stream : Bytes → Result ExecutionGraph
  build_graph_from_stream raw = do
    events ← parse_event_stream platform raw
    build_graph (all events)

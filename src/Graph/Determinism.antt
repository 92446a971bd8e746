-- ===== src/Graph/Determinism.antt =====
-- The graph of a verified stream is the same however Go orders a map and arranges equal items.
use mathlib.Core.List.{Mem, Perm, exists_of_mem-map}
use mathlib.Core.List.Perm
use mathlib.Core.Logic.{∥∥₁_elim}
use runtime_provenance_firew.Base.{
  ℕ, ◌+◌, String, ◌≡◌, refl, sym, ap, ◌∙◌, Bool, some, List, [], ◌∷◌, map, arith, ltb, string_lt,
  ok, err, ◌>>=◌, Result,
}
use runtime_provenance_firew.Base.Sorting.{IsSorted, Decides, sorted_unique, string_lt_antisymm}
use runtime_provenance_firew.Model.{BuildScope, Sensor, Event, GraphNode, GraphEdge}
use runtime_provenance_firew.Platform.{Platform}
use runtime_provenance_firew.Evidence.{Events, all, verify_chain}
use runtime_provenance_firew.Evidence.Linkage.{Follows, verify_chain-Follows}
use runtime_provenance_firew.Graph.{
  NodeMap, Runtime, observe, relabel, arrange, collect, build_graph,
}
use runtime_provenance_firew.Graph.Nodes.{
  values, IsKeyed, find-value, GraphNode-set, GraphEdge-set, IsSpread, IsCollected, Numbered,
  collect-IsCollected, IsCollected-empty,
}

-- The functions that the program hands to sort.Slice.
abbrev pub node_less : GraphNode → GraphNode → Bool
node_less a b = string_lt a.process_key b.process_key

abbrev pub edge_less : GraphEdge → GraphEdge → Bool
edge_less a b = ltb a.sequence b.sequence

-- What Go promises: a range yields each entry once, and sort.Slice arranges the same items so that
-- none is less than one before it.
pub record IsGo (runtime : Runtime) : Type 0 where
  pub range_all : (nodes : NodeMap) → Perm (runtime.range_nodes nodes) (values nodes)
  pub nodes_same : (ns : List GraphNode) → Perm (runtime.sort_nodes ns) ns
  pub nodes_sorted : (ns : List GraphNode) → IsSorted node_less (runtime.sort_nodes ns)
  pub edges_same : (es : List GraphEdge) → Perm (runtime.sort_edges es) es
  pub edges_sorted : (es : List GraphEdge) → IsSorted edge_less (runtime.sort_edges es)

observe-key : (nodes : NodeMap) (n : GraphNode) → (observe nodes n).process_key ≡ n.process_key
unfolding observe
observe-key nodes n = refl

relabel-sequence : (nodes : NodeMap) (e : GraphEdge) → (relabel nodes e).sequence ≡ e.sequence
unfolding relabel
relabel-sequence nodes e = ground arith

-- Two nodes of the map under one key are the same.
node_of_key :
    (nodes : NodeMap) (a b : GraphNode)
    → IsKeyed nodes
    → Mem a (values nodes)
    → Mem b (values nodes)
    → a.process_key ≡ b.process_key
    → a ≡ b
node_of_key nodes a b keyed m n same =
    let found = find-value nodes a keyed m in
    let found' = find-value nodes b keyed n in cc (same, found, found')

nodes-Decides :
    (all nodes : NodeMap) → IsKeyed nodes → Decides node_less (map (observe all) (values nodes))
nodes-Decides all nodes keyed x y m n h k =
    ∥∥₁_elim (exists_of_mem-map m) (GraphNode-set x y) λ (a, in_a, ax).
      ∥∥₁_elim (exists_of_mem-map n) (GraphNode-set x y) λ (b, in_b, by).
        let keys : x.process_key ≡ y.process_key =
          string_lt_antisymm x.process_key y.process_key h k in
        let same : a.process_key ≡ b.process_key =
          sym (observe-key all a)
          ∙ ap (λ n. n.process_key) ax
          ∙ keys
          ∙ sym (ap (λ n. n.process_key) by)
          ∙ observe-key all b in
        sym ax ∙ ap (observe all) (node_of_key nodes a b keyed in_a in_b same) ∙ by

edges-Decides :
    (nodes : NodeMap) (next : ℕ) (edges : List GraphEdge)
    → IsSpread next edges
    → Decides edge_less (map (relabel nodes) edges)
edges-Decides nodes next edges s x y m n h k =
    ∥∥₁_elim (exists_of_mem-map m) (GraphEdge-set x y) λ (a, in_a, ax).
      ∥∥₁_elim (exists_of_mem-map n) (GraphEdge-set x y) λ (b, in_b, by).
        let sequences : x.sequence ≡ y.sequence = ground arith in
        let same : a.sequence ≡ b.sequence =
          sym (relabel-sequence nodes a)
          ∙ ap (λ e. e.sequence) ax
          ∙ sequences
          ∙ sym (ap (λ e. e.sequence) by)
          ∙ relabel-sequence nodes b in
        sym ax ∙ ap (relabel nodes) (s.apart a b in_a in_b same) ∙ by

module _ (platform : Platform) (r s : Runtime) (go : IsGo r) (go' : IsGo s) where
  sort_nodes_agree :
      (xs ys : List GraphNode)
      → Perm xs ys
      → Decides node_less xs
      → r.sort_nodes xs ≡ s.sort_nodes ys
  sort_nodes_agree xs ys p d =
      let same = Perm.trans (go.nodes_same xs) (Perm.trans p (Perm.symm (go'.nodes_same ys))) in
      sorted_unique node_less GraphNode-set (r.sort_nodes xs) (s.sort_nodes ys) same
        (go.nodes_sorted xs) (go'.nodes_sorted ys)
        (λ x y m n.
          d x y ((Perm.mem_iff (go.nodes_same xs)).0 m) ((Perm.mem_iff (go.nodes_same xs)).0 n))

  sort_edges_agree :
      (xs : List GraphEdge) → Decides edge_less xs → r.sort_edges xs ≡ s.sort_edges xs
  sort_edges_agree xs d =
      let same = Perm.trans (go.edges_same xs) (Perm.symm (go'.edges_same xs)) in
      sorted_unique edge_less GraphEdge-set (r.sort_edges xs) (s.sort_edges xs) same
        (go.edges_sorted xs) (go'.edges_sorted xs)
        (λ x y m n.
          d x y ((Perm.mem_iff (go.edges_same xs)).0 m) ((Perm.mem_iff (go.edges_same xs)).0 n))

  arrange_agree :
      (build_id : String) (next : ℕ) (nodes : NodeMap) (edges : List GraphEdge)
      → IsCollected platform next nodes edges
      → arrange platform r build_id nodes edges ≡ arrange platform s build_id nodes edges
  unfolding arrange
  arrange_agree build_id next nodes edges c =
      let ranged = Perm.trans (go.range_all nodes) (Perm.symm (go'.range_all nodes)) in
      let decides : Decides node_less (map (observe nodes) (r.range_nodes nodes)) = λ x y m n.
        nodes-Decides nodes nodes c.keyed x y
          ((Perm.mem_iff (Perm.map (observe nodes) (go.range_all nodes))).0 m)
          ((Perm.mem_iff (Perm.map (observe nodes) (go.range_all nodes))).0 n) in
      let same_nodes = sort_nodes_agree _ _ (Perm.map (observe nodes) ranged) decides in
      let same_edges =
        sort_edges_agree (map (relabel nodes) edges) (edges-Decides nodes next edges c.spread) in
      λ i. record {
        schema_version = "0.2";
        build_id = build_id;
        nodes = some (same_nodes i);
        edges = some (same_edges i);
      }

Follows-Numbered :
    (platform : Platform) (scope : BuildScope) (sensor : Sensor) (index : ℕ) (previous : String)
    (monotonic : ℕ) (es : List Event)
    → Follows platform scope sensor index previous monotonic es
    → Numbered platform (index + 1) es
Follows-Numbered platform scope sensor index previous monotonic [] f = tt
Follows-Numbered platform scope sensor index previous monotonic (e ∷ es) (l, f) =
    (l.sequence, Follows-Numbered platform scope sensor (index + 1) _ _ es f)

-- For a stream that passes `verifyChain`, `BuildGraph` gives one result, graph or error, whatever
-- the order of the map's entries and the arrangement that sort.Slice makes.
pub build_graph_deterministic :
    (platform : Platform) (r s : Runtime)
    → IsGo r
    → IsGo s
    → (events : Events) → verify_chain platform events ≡ ok tt
    → build_graph platform r (all events) ≡ build_graph platform s (all events)
unfolding build_graph
build_graph_deterministic platform r s go go' events verified =
    split (collect platform [] [] (all events)) (λ result h.
      let numbered =
        Follows-Numbered platform _ _ 0 _ 0 (all events)
          (verify_chain-Follows platform events verified) in
      let (next, c) =
        collect-IsCollected platform 1 [] [] (all events) numbered (IsCollected-empty platform) h in
      arrange_agree platform r s go go' events.first.build.build_id next result.0 result.1 c)
  where
    split :
        (m : Result (NodeMap × List GraphEdge))
        → ((result : NodeMap × List GraphEdge)
            → m ≡ ok result
            → arrange platform r events.first.build.build_id result.0 result.1
              ≡ arrange platform s events.first.build.build_id result.0 result.1)
        → (m >>= λ (nodes, edges). ok (arrange platform r events.first.build.build_id nodes edges))
          ≡ (m >>= λ (nodes, edges).
              ok (arrange platform s events.first.build.build_id nodes edges))
    split (ok result) h = ap ok (h result refl)
    split (err e) h = refl

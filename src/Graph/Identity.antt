-- ===== src/Graph/Identity.antt =====
-- Which processes `BuildGraph` of internal/rpf/evidence.go takes for one, and what becomes of a process
-- that executes a second program.
use runtime_provenance_firew.Base.{
  String, ◌≡◌, ◌≢◌, ◌⊎◌, inl, inr, sym, ap, ◌∙◌, Option, none, some, List, [], ◌∷◌, arith, ◌==◌,
  ◌||◌, string_eq, false, ok, subst, >>=-eq-ok, fail_if-eq-ok, graph_identity, conflicting_identity,
}
use runtime_provenance_firew.Model.{Process, Event, GraphNode, GraphEdge, ExecutionGraph, node_eq}
use runtime_provenance_firew.Platform.{Platform}
use runtime_provenance_firew.Graph.{
  NodeMap, Runtime, find_node, put_node, node_of, conflicts, add_process, add_if_any, collect,
  build_graph,
}
use runtime_provenance_firew.Graph.Nodes.{find-put}

-- An event of the list names the process.
abbrev pub Observes : List Event → Process → Type 0
Observes [] p = ⊥
Observes (e ∷ es) p = (e.process ≡ some p) ⊎ Observes es p

-- What is found in the one map is found in the other.
abbrev Keeps : NodeMap → NodeMap → Type 0
Keeps before after =
    (key : String) (node : GraphNode)
    → find_node key before ≡ some node
    → find_node key after ≡ some node

-- The process has a key and a path, and stands in the map under its key.
abbrev IsIn : NodeMap → Process → Type 0
IsIn nodes p =
    (p.process_key ≢ "")
    × (p.executable.path ≢ "")
    × (find_node p.process_key nodes ≡ some (node_of p))

agree :
    (old : Option GraphNode) (node kept : GraphNode)
    → conflicts old node ≡ false
    → old ≡ some kept
    → node ≡ kept
agree none node kept h e = cc
agree (some old) node kept h e = let same : old ≡ node = ground arith in cc

put-Keeps :
    (nodes : NodeMap) (p : Process)
    → conflicts (find_node p.process_key nodes) (node_of p) ≡ false
    → Keeps nodes (put_node p.process_key (node_of p) nodes)
put-Keeps nodes p free key node found = elim (string_eq.dec p.process_key key) [
  | yes same ↦
      let stays =
        agree (find_node p.process_key nodes) (node_of p) node free
          (ap (λ k. find_node k nodes) same ∙ found) in
      find-put p.process_key (node_of p) nodes key ∙ ground arith
  | no differ ↦ find-put p.process_key (node_of p) nodes key ∙ ground arith
]

put-IsIn :
    (nodes : NodeMap) (p : Process)
    → find_node p.process_key (put_node p.process_key (node_of p) nodes) ≡ some (node_of p)
put-IsIn nodes p = find-put p.process_key (node_of p) nodes p.process_key ∙ ground arith

module _ (platform : Platform) where
  add_process-eq-ok :
      (nodes : NodeMap) (edges : List GraphEdge) (e : Event) (p : Process)
      (r : NodeMap × List GraphEdge)
      → add_process platform nodes edges e p ≡ ok r
      → Keeps nodes r.0 × IsIn r.0 p
  add_process-eq-ok nodes edges e p r h =
      let (named, h1) =
        fail_if-eq-ok (p.process_key == "" || p.executable.path == "") (graph_identity e.sequence) _
          h in
      let (free, h2) =
        fail_if-eq-ok (conflicts (find_node p.process_key nodes) (node_of p))
          (conflicting_identity p.process_key) _ h1 in
      let next : put_node p.process_key (node_of p) nodes ≡ r.0 = cc in
      rw (sym next) (put-Keeps nodes p free, (ground arith, ground arith, put-IsIn nodes p))

  add_if_any-eq-ok :
      (nodes : NodeMap) (edges : List GraphEdge) (e : Event) (process : Option Process)
      (r : NodeMap × List GraphEdge)
      → add_if_any platform nodes edges e process ≡ ok r
      → Keeps nodes r.0 × ((p : Process) → process ≡ some p → IsIn r.0 p)
  add_if_any-eq-ok nodes edges e none r h =
      let same : nodes ≡ r.0 = cc in
      (λ key node found. ap (find_node key) (sym same) ∙ found, λ p o. cc)
  add_if_any-eq-ok nodes edges e (some q) r h =
      let (keeps, inside) = add_process-eq-ok nodes edges e q r h in
      (keeps, λ p o. let same : q ≡ p = cc in subst (IsIn r.0) same inside)

  collect-eq-ok :
      (nodes : NodeMap) (edges : List GraphEdge) (es : List Event) (r : NodeMap × List GraphEdge)
      → collect platform nodes edges es ≡ ok r
      → Keeps nodes r.0 × ((p : Process) → Observes es p → IsIn r.0 p)
  unfolding collect
  collect-eq-ok nodes edges [] r h =
      let same : nodes ≡ r.0 = cc in
      (λ key node found. ap (find_node key) (sym same) ∙ found, λ p o. absurd o)
  collect-eq-ok nodes edges (e ∷ es) r h =
      let (next, added, h1) = >>=-eq-ok (add_if_any platform nodes edges e e.process) _ h in
      let (keeps, inside) = add_if_any-eq-ok nodes edges e e.process next added in
      let (kept, seen) = collect-eq-ok next.0 next.1 es r h1 in
      (
        λ key node found. kept key node (keeps key node found),
        λ p o. elim o [
          | inl here ↦
              let (key, path, found) = inside p here in
              (key, path, kept p.process_key (node_of p) found)
          | inr later ↦ seen p later
        ],
      )

-- `BuildGraph` succeeds only on events whose processes each have a key and a path, and any two that
-- share a key also share the parent's key and the path.
pub build_graph_identifies :
    (platform : Platform) (runtime : Runtime) (es : List Event) (g : ExecutionGraph) (p q : Process)
    → build_graph platform runtime es ≡ ok g
    → Observes es p
    → Observes es q
    → (p.process_key ≢ "")
      × (p.executable.path ≢ "")
      × (p.process_key ≡ q.process_key
          → (p.parent_key ≡ q.parent_key) × (p.executable.path ≡ q.executable.path))
unfolding build_graph
build_graph_identifies platform runtime [] g p q h a b = cc
build_graph_identifies platform runtime (e ∷ es) g p q h a b =
    let (r, collected, h1) = >>=-eq-ok (collect platform [] [] (e ∷ es)) _ h in
    let (_, seen) = collect-eq-ok platform [] [] (e ∷ es) r collected in
    let (key, path, first) = seen p a in
    let (_, _, second) = seen q b in
    (
      key,
      path,
      λ same.
          let both : some (node_of p) ≡ some (node_of q) =
            sym first ∙ ap (λ k. find_node k r.0) same ∙ second in
          let nodes : node_of p ≡ node_of q = cc in
          (ap (λ n. n.parent_key) nodes, ap (λ n. n.executable) nodes),
    )

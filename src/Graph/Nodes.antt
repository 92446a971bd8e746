-- ===== src/Graph/Nodes.antt =====
-- The map of nodes that `BuildGraph` of internal/rpf/evidence.go collects.
use mathlib.Core.Logic.{◌∨₁◌, ∨₁_prop}
use mathlib.Core.Logic.Or
use mathlib.Core.List.{Mem, mem-cons, not-mem-nil, mem-append}
use native.Mathlib.Bridge.{le_prop}
use runtime_provenance_firew.Json.{Fields}
use runtime_provenance_firew.Base.{
  ℕ, ◌+◌, ◌<◌, ◌++◌, String, ◌≡◌, ◌≢◌, refl, sym, ap, ◌∙◌, false, Option, none, some, List, [], ◌∷◌,
  map, arith, ◌==◌, ◌||◌, subst, string_eq, string_set, if◌then◌else◌, ok, fail_if-eq-ok,
  graph_identity, conflicting_identity, >>=-eq-ok,
}
use runtime_provenance_firew.Model.{Process, Event, GraphNode, GraphEdge, node_eq}
use runtime_provenance_firew.Platform.{Platform}
use runtime_provenance_firew.Graph.{
  NodeMap, find_node, put_node, node_of, conflicts, add_edge, edge_of, add_process, add_if_any,
  collect,
}

abbrev pub values : NodeMap → List GraphNode
values = map (λ (key, node). node)

-- Each node stands under its own key, and a key stands there once.
abbrev pub IsKeyed : NodeMap → Type 0
IsKeyed [] = Unit
IsKeyed ((key, node) ∷ nodes) =
    (node.process_key ≡ key) × (find_node key nodes ≡ none) × IsKeyed nodes

pub find-put :
    (key : String) (node : GraphNode) (nodes : NodeMap) (other : String)
    → find_node other (put_node key node nodes)
      ≡ (if key == other then some node else find_node other nodes)
unfolding find_node put_node
find-put key node [] other = ground arith
find-put key node ((k, old) ∷ nodes) other = ground (arith, find-put key node nodes other)

pub put-IsKeyed :
    (key : String) (node : GraphNode) (nodes : NodeMap)
    → node.process_key ≡ key
    → IsKeyed nodes
    → IsKeyed (put_node key node nodes)
unfolding find_node put_node
put-IsKeyed key node [] own _ = (own, refl, tt)
put-IsKeyed key node ((k, old) ∷ nodes) own (self, fresh, keyed) =
    ground (arith, put-IsKeyed key node nodes own keyed, find-put key node nodes k)

Option-node-set : IsSet (Option GraphNode)
Option-node-set = hlevel string_set

pub GraphNode-set : IsSet GraphNode
GraphNode-set = hlevel string_set

-- A node of the map is what its key finds.
pub find-value :
    (nodes : NodeMap) (node : GraphNode)
    → IsKeyed nodes
    → Mem node (values nodes)
    → find_node node.process_key nodes ≡ some node
unfolding find_node
find-value [] node _ m = absurd (not-mem-nil m)
find-value ((key, first) ∷ nodes) node (self, fresh, keyed) m =
    Or.elim (Option-node-set _ _) (mem-cons.0 m) (λ e. rw e (ground arith))
      (λ later. ground (arith, find-value nodes node keyed later))

-- The edges of the events so far: their sequences are below the next one, and no two edges share
-- one.
pub record IsSpread (next : ℕ) (edges : List GraphEdge) : Type 0 where
  pub below : (e : GraphEdge) → Mem e edges → e.sequence < next
  pub apart : (e f : GraphEdge) → Mem e edges → Mem f edges → e.sequence ≡ f.sequence → e ≡ f

Fields-set : IsSet Fields
Fields-set = hlevel string_set

pub GraphEdge-set : IsSet GraphEdge
GraphEdge-set = hlevel (string_set, Fields-set)

IsSpread-more :
    (next : ℕ) (edges : List GraphEdge) → IsSpread next edges → IsSpread (next + 1) edges
IsSpread-more next edges s = record { below = λ e m. omega (arith, s.below e m); apart = s.apart }

module _ (next : ℕ) (edges : List GraphEdge) (edge : GraphEdge) where
  mem-snoc : (x : GraphEdge) → Mem x (edges ++ edge ∷ []) → Mem x edges ∨₁ (x ≡ edge)
  mem-snoc x m =
      Or.elim ∨₁_prop (mem-append.0 m) (λ old. Or.inl old)
        λ new. Or.elim ∨₁_prop (mem-cons.0 new) (λ e. Or.inr e) (λ none. absurd (not-mem-nil none))

  module _ (s : IsSpread next edges) (at : edge.sequence ≡ next) where
    old-ne-new : (e f : GraphEdge) → Mem e edges → f ≡ edge → e.sequence ≢ f.sequence
    old-ne-new e f old new =
        let below = s.below e old in let same = ap (λ x. x.sequence) new in omega arith

    snoc-apart :
        (e f : GraphEdge)
        → Mem e edges ∨₁ (e ≡ edge)
        → Mem f edges ∨₁ (f ≡ edge)
        → e.sequence ≡ f.sequence
        → e ≡ f
    snoc-apart e f m n same =
        Or.elim (GraphEdge-set e f) m
          (λ old.
            Or.elim (GraphEdge-set e f) n (λ old'. s.apart e f old old' same)
              (λ new. absurd (old-ne-new e f old new same)))
          (λ new.
            Or.elim (GraphEdge-set e f) n (λ old. absurd (old-ne-new f e old new (sym same)))
              (λ new'. new ∙ sym new'))

    IsSpread-snoc : IsSpread (next + 1) (edges ++ edge ∷ [])
    IsSpread-snoc = record {
      below = λ e m.
          Or.elim le_prop (mem-snoc e m) (λ (old : Mem e edges). omega (arith, s.below e old))
            (λ new. rw new (omega arith));
      apart = λ e f m n same. snoc-apart e f (mem-snoc e m) (mem-snoc f n) same;
    }

module _ (platform : Platform) where
  edge_of-sequence :
      (event : Event) (process : Process) (edge : GraphEdge)
      → edge_of platform event process ≡ some edge
      → edge.sequence ≡ event.sequence
  unfolding edge_of
  edge_of-sequence event process edge h = ground arith

  IsSpread-add_edge :
      (next : ℕ) (edges : List GraphEdge) (found : Option GraphEdge)
      → IsSpread next edges
      → ((edge : GraphEdge) → found ≡ some edge → edge.sequence ≡ next)
      → IsSpread (next + 1) (add_edge edges found)
  IsSpread-add_edge next edges none s at = IsSpread-more next edges s
  IsSpread-add_edge next edges (some edge) s at = IsSpread-snoc next edges edge s (at edge refl)

  -- What holds of the map and the edges before the event with the sequence `next`.
  pub record IsCollected (next : ℕ) (nodes : NodeMap) (edges : List GraphEdge) : Type 0 where
    pub keyed : IsKeyed nodes
    pub spread : IsSpread next edges

  add_process-eq-ok :
      (nodes : NodeMap) (edges : List GraphEdge) (event : Event) (p : Process)
      {result : NodeMap × List GraphEdge}
      → add_process platform nodes edges event p ≡ ok result
      → ((p.process_key == "" || p.executable.path == "") ≡ false)
        × (conflicts (find_node p.process_key nodes) (node_of p) ≡ false)
        × (result
            ≡ (put_node p.process_key (node_of p) nodes, add_edge edges (edge_of platform event p)))
  add_process-eq-ok nodes edges event p h =
      let (named, h1) = fail_if-eq-ok _ (graph_identity event.sequence) _ h in
      let (agrees, h2) = fail_if-eq-ok _ (conflicting_identity p.process_key) _ h1 in
      (named, agrees, cc)

  add_if_any-IsCollected :
      (next : ℕ) (nodes : NodeMap) (edges : List GraphEdge) (event : Event)
      (process : Option Process) {result : NodeMap × List GraphEdge}
      → event.sequence ≡ next
      → IsCollected next nodes edges
      → add_if_any platform nodes edges event process ≡ ok result
      → IsCollected (next + 1) result.0 result.1
  add_if_any-IsCollected next nodes edges event none {result} at c h =
      let same : (nodes, edges) ≡ result = cc in
      subst (λ r. IsCollected (next + 1) r.0 r.1) same
        (record { keyed = c.keyed; spread = IsSpread-more next edges c.spread })
  add_if_any-IsCollected next nodes edges event (some p) at c h =
      let (named, agrees, same) = add_process-eq-ok nodes edges event p h in
      subst (λ r. IsCollected (next + 1) r.0 r.1) (sym same)
        (record {
          keyed = put-IsKeyed p.process_key (node_of p) nodes refl c.keyed;
          spread =
              IsSpread-add_edge next edges (edge_of platform event p) c.spread
                (λ edge e. edge_of-sequence event p edge e ∙ at);
        })

  pub IsCollected-empty : {next : ℕ} → IsCollected next [] []
  IsCollected-empty = record {
    keyed = tt;
    spread = record {
      below = λ e m. absurd (not-mem-nil m);
      apart = λ e f m. absurd (not-mem-nil m);
    };
  }

  -- Events that are numbered from `next` on.
  abbrev pub Numbered : ℕ → List Event → Type 0
  Numbered next [] = Unit
  Numbered next (e ∷ es) = (e.sequence ≡ next) × Numbered (next + 1) es

  pub collect-IsCollected :
      (next : ℕ) (nodes : NodeMap) (edges : List GraphEdge) (events : List Event)
      {result : NodeMap × List GraphEdge}
      → Numbered next events
      → IsCollected next nodes edges
      → collect platform nodes edges events ≡ ok result
      → (last : ℕ) × IsCollected last result.0 result.1
  unfolding collect
  collect-IsCollected next nodes edges [] {result} numbered c h =
      let same : (nodes, edges) ≡ result = cc in
      (next, subst (λ r. IsCollected next r.0 r.1) same c)
  collect-IsCollected next nodes edges (e ∷ es) (at, numbered) c h =
      let (r, added, h1) = >>=-eq-ok (add_if_any platform nodes edges e e.process) _ h in
      collect-IsCollected (next + 1) r.0 r.1 es numbered
        (add_if_any-IsCollected next nodes edges e e.process at c added) h1

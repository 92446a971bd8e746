-- ===== src/Tests/Sorts.antt =====
-- A runtime that keeps Go's promises: ranges in the order of insertion, and insertion sorts.
use Prim.Native.Nat.{compare as compare_ℕ}
use Prim.Native.Char.{code}
use Prim.Native.String
use Prim.Native.String.{String, then}
use Prim.Native.String.compare.{nil-cons, cons-cons, cons-nil}
use mathlib.Core.List.{Perm, mem-cons, not-mem-nil}
use mathlib.Core.List.Perm
use mathlib.Core.Logic.Or
use mathlib.Core.Bool.{Bool-set}
use runtime_provenance_firew.Base.{
  ◌≡◌, refl, Bool, true, false, List, [], ◌∷◌, arith, string_lt, if◌then◌else◌, Bool-cases, inl,
  inr,
}
use runtime_provenance_firew.Base.Sorting.{IsSorted}
use runtime_provenance_firew.Graph.{Runtime}
use runtime_provenance_firew.Graph.Nodes.{values}
use runtime_provenance_firew.Graph.Determinism.{IsGo, node_less, edge_less}

module _ {A : Type 0} (less : A → A → Bool) where
  unfoldable pub insert : A → List A → List A
  insert x [] = x ∷ []
  insert x (y ∷ ys) = let rest = insert x ys in if less y x then y ∷ rest else x ∷ y ∷ ys

  unfoldable pub sort : List A → List A
  unfolding insert
  sort [] = []
  sort (x ∷ xs) = insert x (sort xs)

  insert-Perm : (x : A) (ys : List A) → Perm (insert x ys) (x ∷ ys)
  unfolding insert
  insert-Perm x [] = Perm.refl (x ∷ [])
  insert-Perm x (y ∷ ys) = elim (Bool-cases (less y x)) [
    | inl before ↦ rw before (Perm.trans (Perm.cons y (insert-Perm x ys)) (Perm.swap x y ys))
    | inr after ↦ rw after (Perm.refl (x ∷ y ∷ ys))
  ]

  sort-Perm : (xs : List A) → Perm (sort xs) xs
  unfolding sort
  sort-Perm [] = Perm.refl []
  sort-Perm (x ∷ xs) = Perm.trans (insert-Perm x (sort xs)) (Perm.cons x (sort-Perm xs))

  module _ (later : (x y z : A) → less z y ≡ false → less y x ≡ false → less z x ≡ false)
      (asym : (x y : A) → less x y ≡ true → less y x ≡ false) where
    insert-IsSorted : (x : A) (ys : List A) → IsSorted less ys → IsSorted less (insert x ys)
    unfolding insert
    insert-IsSorted x [] s = (λ z m. absurd (not-mem-nil m), tt)
    insert-IsSorted x (y ∷ ys) (least, s) = elim (Bool-cases (less y x)) [
      | inl before ↦ rw before (
        λ z m.
            Or.elim (Bool-set (less z y) false) (mem-cons.0 ((Perm.mem_iff (insert-Perm x ys)).0 m))
              (λ e. rw e (asym y x before)) (least z),
        insert-IsSorted x ys s,
      )
      | inr after ↦ rw after (
        λ z m.
            Or.elim (Bool-set (less z x) false) (mem-cons.0 m) (λ e. rw e after)
              (λ n. later x y z (least z n) after),
        (least, s),
      )
    ]

    sort-IsSorted : (xs : List A) → IsSorted less (sort xs)
    unfolding sort
    sort-IsSorted [] = tt
    sort-IsSorted (x ∷ xs) = insert-IsSorted x (sort xs) (sort-IsSorted xs)

string_lt_later :
    (s t u : String) → string_lt u t ≡ false → string_lt t s ≡ false → string_lt u s ≡ false
unfolding string_lt
string_lt_later String.[] t String.[] h k = refl
string_lt_later String.[] t (String.◌∷◌ e u) h k = ground (arith, cons-nil e u)
string_lt_later (String.◌∷◌ c s) String.[] u h k = absurd (ground (arith, nil-cons c s))
string_lt_later (String.◌∷◌ c s) (String.◌∷◌ d t) String.[] h k =
    absurd (ground (arith, nil-cons d t))
string_lt_later (String.◌∷◌ c s) (String.◌∷◌ d t) (String.◌∷◌ e u) h k =
    let upper : String.compare (String.◌∷◌ e u) (String.◌∷◌ d t)
        ≡ (then) (compare_ℕ (code e) (code d)) (String.compare u t) =
      cons-cons e d u t in
    let lower : String.compare (String.◌∷◌ d t) (String.◌∷◌ c s)
        ≡ (then) (compare_ℕ (code d) (code c)) (String.compare t s) =
      cons-cons d c t s in
    let both : String.compare (String.◌∷◌ e u) (String.◌∷◌ c s)
        ≡ (then) (compare_ℕ (code e) (code c)) (String.compare u s) =
      cons-cons e c u s in
    ground (arith, string_lt_later s t u)

string_lt_asym : (s t : String) → string_lt s t ≡ true → string_lt t s ≡ false
unfolding string_lt
string_lt_asym String.[] String.[] h = refl
string_lt_asym String.[] (String.◌∷◌ d t) h = ground (arith, cons-nil d t)
string_lt_asym (String.◌∷◌ c s) String.[] h = absurd (ground (arith, cons-nil c s))
string_lt_asym (String.◌∷◌ c s) (String.◌∷◌ d t) h =
    let here : String.compare (String.◌∷◌ c s) (String.◌∷◌ d t)
        ≡ (then) (compare_ℕ (code c) (code d)) (String.compare s t) =
      cons-cons c d s t in
    let there : String.compare (String.◌∷◌ d t) (String.◌∷◌ c s)
        ≡ (then) (compare_ℕ (code d) (code c)) (String.compare t s) =
      cons-cons d c t s in
    ground (arith, string_lt_asym s t)

unfoldable pub runtime : Runtime
unfolding sort
runtime = record { range_nodes = values; sort_nodes = sort node_less; sort_edges = sort edge_less }

pub runtime-IsGo : IsGo runtime
unfolding runtime
runtime-IsGo = record {
  range_all = λ nodes. Perm.refl (values nodes);
  nodes_same = sort-Perm node_less;
  nodes_sorted =
      sort-IsSorted node_less (λ a b c. string_lt_later a.process_key b.process_key c.process_key)
        (λ a b. string_lt_asym a.process_key b.process_key);
  edges_same = sort-Perm edge_less;
  edges_sorted = sort-IsSorted edge_less (λ a b c h k. ground arith) (λ a b h. ground arith);
}

-- One that ranges over a map in the order of the keys.
pub keyed_runtime : Runtime
unfolding sort
keyed_runtime = record {
  range_nodes = λ nodes. sort node_less (values nodes);
  sort_nodes = sort node_less;
  sort_edges = sort edge_less;
}

pub keyed_runtime-IsGo : IsGo keyed_runtime
unfolding keyed_runtime runtime
keyed_runtime-IsGo = record {
  range_all = λ nodes. sort-Perm node_less (values nodes);
  nodes_same = runtime-IsGo.nodes_same;
  nodes_sorted = runtime-IsGo.nodes_sorted;
  edges_same = runtime-IsGo.edges_same;
  edges_sorted = runtime-IsGo.edges_sorted;
}

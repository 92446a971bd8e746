-- ===== src/Base/Sorting.antt =====
-- What sort.Slice promises: the same items, in the order of the comparison. Where the comparison
-- tells any two items apart, that leaves one result.
use Prim.Native.Nat.{Ordering, compare as compare_ℕ}
use Prim.Native.Char.{code}
use Prim.Native.String
use Prim.Native.String.{String, then}
use Prim.Native.String.compare.{nil-cons, cons-cons}
use mathlib.Core.Path.{◌≡◌, sym, subst}
use mathlib.Core.Logic.Or
use mathlib.Core.Bool.{Bool, false}
use mathlib.Core.List.{List, [], ◌∷◌, Mem, Perm, mem-cons, mem-cons_self, mem-cons_of_mem}
use mathlib.Core.List.Perm
use native.Mathlib.Omega.{arith}
use text.Mathlib.TextEquality.{path_by_compare}
use runtime_provenance_firew.Base.Equality.{string_lt}

module _ {A : Type 0} (less : A → A → Bool) where
  -- No item is less than one before it.
  abbrev pub IsSorted : List A → Type 0
  IsSorted [] = Unit
  IsSorted (x ∷ xs) = ((y : A) → Mem y xs → less y x ≡ false) × IsSorted xs

  -- The comparison leaves no two items of the list undecided.
  abbrev pub Decides : List A → Type 0
  Decides xs = (x y : A) → Mem x xs → Mem y xs → less x y ≡ false → less y x ≡ false → x ≡ y

  module _ (set : IsSet A) where
    heads_agree :
        (x y : A) (xs ys : List A)
        → Perm (x ∷ xs) (y ∷ ys)
        → IsSorted (x ∷ xs)
        → IsSorted (y ∷ ys)
        → Decides (x ∷ xs)
        → x ≡ y
    heads_agree x y xs ys p (least, _) (least', _) decides =
        Or.elim (set x y) (mem-cons.0 ((Perm.mem_iff p).0 (mem-cons_self {l = xs}))) (λ e. e)
          λ in_ys.
            Or.elim (set x y) (mem-cons.0 ((Perm.mem_iff p).1 (mem-cons_self {l = ys})))
              (λ e. sym e)
              λ in_xs.
                decides x y mem-cons_self (mem-cons_of_mem x in_xs) (least' x in_ys) (least y in_xs)

    -- Two sorted arrangements of the same items are one.
    pub sorted_unique :
        (xs ys : List A) → Perm xs ys → IsSorted xs → IsSorted ys → Decides xs → xs ≡ ys
    sorted_unique [] ys p s t d = Perm.nil-eq p
    sorted_unique (x ∷ xs) [] p s t d = Perm.eq-nil p
    sorted_unique (x ∷ xs) (y ∷ ys) p s t d =
        let same = heads_agree x y xs ys p s t d in
        let p' : Perm (x ∷ xs) (x ∷ ys) = subst (λ z. Perm (x ∷ xs) (z ∷ ys)) (sym same) p in
        let tails =
          sorted_unique xs ys (Perm.cons_inv p') s.1 t.1
            (λ a b m n. d a b (mem-cons_of_mem x m) (mem-cons_of_mem x n)) in
        cc (same, tails)

compare-swap : (s t : String) → String.compare s t ≡ Ordering.gt → String.compare t s ≡ Ordering.lt
compare-swap String.[] String.[] h = cc
compare-swap String.[] (String.◌∷◌ d t) h =
    let less : String.compare String.[] (String.◌∷◌ d t) ≡ Ordering.lt = nil-cons d t in cc
compare-swap (String.◌∷◌ c s) String.[] h = nil-cons c s
compare-swap (String.◌∷◌ c s) (String.◌∷◌ d t) h =
    let here : String.compare (String.◌∷◌ c s) (String.◌∷◌ d t)
        ≡ then (compare_ℕ (code c) (code d)) (String.compare s t) =
      cons-cons c d s t in
    let there : String.compare (String.◌∷◌ d t) (String.◌∷◌ c s)
        ≡ then (compare_ℕ (code d) (code c)) (String.compare t s) =
      cons-cons d c t s in
    ground (arith, compare-swap s t)

-- Strings that are not less than each other are equal.
pub string_lt_antisymm : (s t : String) → string_lt s t ≡ false → string_lt t s ≡ false → s ≡ t
unfolding string_lt
string_lt_antisymm s t h k = path_by_compare s t (ground (arith, compare-swap s t))

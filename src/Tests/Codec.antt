-- ===== src/Tests/Codec.antt =====
-- A text form of JSON values for the sample platform: the tag of each constructor and then its
-- arguments, texts as the codes of their characters, fourteen greater, and then 0.
pub mod RoundTrip
pub mod Plain
use Prim.Native.Nat.{Ordering, compare}
use Prim.Native.Char.{Char, char, code, nul, IsLt, IsScalar}
use text.Mathlib.TextEquality.{IsScalar-prop}
use runtime_provenance_firew.Base.{
  ℕ, zero, suc, ◌+◌, ◌-◌, ◌*◌, ◌≤◌, String, ◌≡◌, refl, ap, true, false, Option, none, some, List,
  [], ◌∷◌, arith, length, get_elem?,
}
use runtime_provenance_firew.Json.{
  pos, negsuc, Value, null, bool, uint, int, float64, number, str, array, object, structure, Items,
  nil, cons, Fields, end, field,
}

-- `IsScalar` of a number, by its three comparisons.
abbrev pub BothLess : Ordering → Ordering → Type 0
BothLess Ordering.lt o = IsLt o
BothLess Ordering.eq _ = ⊥
BothLess Ordering.gt _ = ⊥

abbrev pub InRange : Ordering → Ordering → Ordering → Type 0
InRange Ordering.lt _ _ = Unit
InRange Ordering.eq o p = BothLess o p
InRange Ordering.gt o p = BothLess o p

unfoldable pub is_less : (o : Ordering) → Dec (IsLt o)
is_less Ordering.lt = yes tt
is_less Ordering.eq = no (λ n. n)
is_less Ordering.gt = no (λ n. n)

unfoldable pub are_less : (o p : Ordering) → Dec (BothLess o p)
are_less Ordering.lt p = is_less p
are_less Ordering.eq p = no (λ n. n)
are_less Ordering.gt p = no (λ n. n)

unfoldable pub in_range : (o p q : Ordering) → Dec (InRange o p q)
in_range Ordering.lt p q = yes tt
in_range Ordering.eq p q = are_less p q
in_range Ordering.gt p q = are_less p q

unfoldable pub char_from : (n : ℕ) → Dec (IsScalar n) → Char
char_from n (yes p) = char n p
char_from n (no _) = nul

unfoldable pub char_of : ℕ → Char
unfolding in_range are_less is_less char_from
char_of n = char_from n (in_range (compare n 55296) (compare 57343 n) (compare n 1114112))

unfoldable pub write_text : String → List ℕ → List ℕ
write_text String.[] k = 0 ∷ k
write_text (String.◌∷◌ c s) k = suc (code c + 13) ∷ write_text s k

unfoldable pub read_text : List ℕ → String × List ℕ
unfolding char_of
read_text [] = ("", [])
read_text (zero ∷ k) = ("", k)
read_text (suc n ∷ k) = let (s, rest) = read_text k in (String.◌∷◌ (char_of (n - 13)) s, rest)

unfoldable mutual
  pub write : Value → List ℕ → List ℕ
  write null k = 0 ∷ k
  write (bool false) k = 1 ∷ k
  write (bool true) k = 2 ∷ k
  write (number s) k = 3 ∷ write_text s k
  write (str s) k = 4 ∷ write_text s k
  write (array vs) k = 5 ∷ write_items vs k
  write (object fs) k = 6 ∷ write_fields fs k
  write (uint n) k = 7 ∷ n ∷ k
  write (int (pos n)) k = 8 ∷ n ∷ k
  write (int (negsuc n)) k = 9 ∷ n ∷ k
  write (float64 n) k = 11 ∷ n ∷ k
  write (structure fs) k = 12 ∷ write_fields fs k

  pub write_items : Items → List ℕ → List ℕ
  write_items nil k = 0 ∷ k
  write_items (cons v vs) k = 1 ∷ write v (write_items vs k)

  pub write_fields : Fields → List ℕ → List ℕ
  write_fields end k = 0 ∷ k
  write_fields (field s v fs) k = 1 ∷ write_text s (write v (write_fields fs k))

abbrev pub Read : Type 0 → Type 0
Read A = Option (A × List ℕ)

abbrev pub map_read : {A B : Type 0} → (A → B) → Read A → Read B
map_read f none = none
map_read f (some (a, k)) = some (f a, k)

abbrev pub and_read : {A B : Type 0} → Read A → (A → List ℕ → Read B) → Read B
and_read none f = none
and_read (some (a, k)) f = f a k

abbrev pub number_read : (ℕ → Value) → List ℕ → Read Value
number_read f [] = none
number_read f (n ∷ k) = some (f n, k)

pub data Tag : Type 0 where
  null_tag false_tag true_tag number_tag str_tag array_tag object_tag : Tag
  uint_tag pos_tag negsuc_tag float_tag structure_tag unknown_tag : Tag

abbrev tags : List Tag
tags =
    null_tag ∷ false_tag ∷ true_tag ∷ number_tag ∷ str_tag ∷ array_tag ∷ object_tag ∷ uint_tag
    ∷ pos_tag ∷ negsuc_tag ∷ unknown_tag ∷ float_tag ∷ structure_tag ∷ []

abbrev tag_or_unknown : Option Tag → Tag
tag_or_unknown none = unknown_tag
tag_or_unknown (some t) = t

unfoldable mutual
  pub read : ℕ → List ℕ → Read Value
  read zero k = none
  read (suc n) [] = none
  read (suc n) (t ∷ k) = read_as n (tag_or_unknown (get_elem? tags t)) k

  pub read_as : ℕ → Tag → List ℕ → Read Value
  read_as zero tag k = none
  read_as (suc n) null_tag k = some (null, k)
  read_as (suc n) false_tag k = some (bool false, k)
  read_as (suc n) true_tag k = some (bool true, k)
  read_as (suc n) number_tag k = map_read number (some (read_text k))
  read_as (suc n) str_tag k = map_read str (some (read_text k))
  read_as (suc n) array_tag k = map_read array (read_items n k)
  read_as (suc n) object_tag k = map_read object (read_fields n k)
  read_as (suc n) uint_tag k = number_read uint k
  read_as (suc n) pos_tag k = number_read (λ z. int (pos z)) k
  read_as (suc n) negsuc_tag k = number_read (λ z. int (negsuc z)) k
  read_as (suc n) float_tag k = number_read float64 k
  read_as (suc n) structure_tag k = map_read structure (read_fields n k)
  read_as (suc n) unknown_tag k = none

  pub read_items : ℕ → List ℕ → Read Items
  read_items zero k = none
  read_items (suc n) [] = none
  read_items (suc n) (zero ∷ k) = some (nil, k)
  read_items (suc n) (suc t ∷ k) =
      and_read (read n k) λ v rest. map_read (cons v) (read_items n rest)

  pub read_fields : ℕ → List ℕ → Read Fields
  read_fields zero k = none
  read_fields (suc n) [] = none
  read_fields (suc n) (zero ∷ k) = some (end, k)
  read_fields (suc n) (suc t ∷ k) =
      let (s, rest) = read_text k in
      and_read (read n rest) λ v more. map_read (field s v) (read_fields n more)

abbrev pub first_read : {A : Type 0} → Read A → Option A
first_read none = none
first_read (some (a, k)) = some a

-- The first value of a text.
unfoldable pub read_value : List ℕ → Option Value
unfolding read
read_value raw = first_read (read (2 * length raw) raw)

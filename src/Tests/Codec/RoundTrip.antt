-- ===== src/Tests/Codec/RoundTrip.antt =====
-- Reading a written value gives it back.
use Prim.Native.Char.{Char, char, code, IsScalar}
use text.Mathlib.TextEquality.{IsScalar-prop}
use runtime_provenance_firew.Base.{
  ℕ, zero, suc, ◌+◌, ◌-◌, ◌*◌, ◌≤◌, String, ◌≡◌, refl, ap, true, false, some, List, [], arith,
  length,
}
use runtime_provenance_firew.Json.{
  pos, negsuc, Value, null, bool, uint, int, float64, number, str, array, object, structure, Items,
  nil, cons, Fields, end, field,
}
use runtime_provenance_firew.Tests.Codec.{
  char_from, char_of, write_text, read_text, write, write_items, write_fields, read, read_items,
  read_fields, first_read, read_value,
}

char_from-code : (n : ℕ) (p : IsScalar n) (d : Dec (IsScalar n)) → char_from n d ≡ char n p
unfolding char_from
char_from-code n p (yes q) = ap (char n) (IsScalar-prop n q p)
char_from-code n p (no q) = absurd (q p)

char_of-code : (c : Char) → char_of (code c) ≡ c
unfolding char_of
char_of-code (char n p) = char_from-code n p _

read_text-write_text : (s : String) (k : List ℕ) → read_text (write_text s k) ≡ (s, k)
unfolding read_text write_text
read_text-write_text String.[] k = refl
read_text-write_text (String.◌∷◌ c s) k =
    let shifted : code c + 13 - 13 ≡ code c = omega arith in
    cc (read_text-write_text s k, char_of-code c, shifted)

-- How deep the calls of `read` go, less the first ones.
mutual
  depth : Value → ℕ
  depth (array vs) = suc (depth_items vs)
  depth (object fs) = suc (depth_fields fs)
  depth (structure fs) = suc (depth_fields fs)
  depth null = 0
  depth (bool b) = 0
  depth (uint n) = 0
  depth (int z) = 0
  depth (float64 n) = 0
  depth (number s) = 0
  depth (str s) = 0

  depth_items : Items → ℕ
  depth_items nil = 0
  depth_items (cons v vs) = suc (suc (depth v)) + suc (depth_items vs)

  depth_fields : Fields → ℕ
  depth_fields end = 0
  depth_fields (field s v fs) = suc (suc (depth v)) + suc (depth_fields fs)

length-write_text : (s : String) (k : List ℕ) → length k ≤ length (write_text s k)
unfolding write_text
length-write_text String.[] k = omega arith
length-write_text (String.◌∷◌ c s) k = omega (arith, length-write_text s k)

mutual
  unfolding depth write

  depth-write : (v : Value) (k : List ℕ) → 2 + depth v + 2 * length k ≤ 2 * length (write v k)
  depth-write null k = omega arith
  depth-write (bool false) k = omega arith
  depth-write (bool true) k = omega arith
  depth-write (number s) k = omega (arith, length-write_text s k)
  depth-write (str s) k = omega (arith, length-write_text s k)
  depth-write (array vs) k = omega (arith, depth-write_items vs k)
  depth-write (object fs) k = omega (arith, depth-write_fields fs k)
  depth-write (uint n) k = omega arith
  depth-write (int (pos n)) k = omega arith
  depth-write (int (negsuc n)) k = omega arith
  depth-write (float64 n) k = omega arith
  depth-write (structure fs) k = omega (arith, depth-write_fields fs k)

  depth-write_items :
      (vs : Items) (k : List ℕ) → 1 + depth_items vs + 2 * length k ≤ 2 * length (write_items vs k)
  depth-write_items nil k = omega arith
  depth-write_items (cons v vs) k =
      omega (arith, depth-write v (write_items vs k), depth-write_items vs k)

  depth-write_fields :
      (fs : Fields) (k : List ℕ)
      → 1 + depth_fields fs + 2 * length k ≤ 2 * length (write_fields fs k)
  depth-write_fields end k = omega arith
  depth-write_fields (field s v fs) k = omega (
    arith,
    length-write_text s (write v (write_fields fs k)),
    depth-write v (write_fields fs k),
    depth-write_fields fs k,
  )

mutual
  unfolding depth write read

  read-write : (n : ℕ) (v : Value) (k : List ℕ) → 2 + depth v ≤ n → read n (write v k) ≡ some (v, k)
  read-write zero v k h = absurd (omega arith)
  read-write (suc zero) v k h = absurd (omega arith)
  read-write (suc (suc n)) null k h = refl
  read-write (suc (suc n)) (bool false) k h = refl
  read-write (suc (suc n)) (bool true) k h = refl
  read-write (suc (suc n)) (number s) k h = let e = read_text-write_text s k in rw e refl
  read-write (suc (suc n)) (str s) k h = let e = read_text-write_text s k in rw e refl
  read-write (suc (suc n)) (array vs) k h =
      let e = read_items-write n vs k (omega arith) in rw e refl
  read-write (suc (suc n)) (object fs) k h =
      let e = read_fields-write n fs k (omega arith) in rw e refl
  read-write (suc (suc n)) (uint m) k h = refl
  read-write (suc (suc n)) (int (pos m)) k h = refl
  read-write (suc (suc n)) (int (negsuc m)) k h = refl
  read-write (suc (suc n)) (float64 m) k h = refl
  read-write (suc (suc n)) (structure fs) k h =
      let e = read_fields-write n fs k (omega arith) in rw e refl

  read_items-write :
      (n : ℕ) (vs : Items) (k : List ℕ)
      → 1 + depth_items vs ≤ n
      → read_items n (write_items vs k) ≡ some (vs, k)
  read_items-write zero vs k h = absurd (omega arith)
  read_items-write (suc n) nil k h = refl
  read_items-write (suc n) (cons v vs) k h =
      let e = read-write n v (write_items vs k) (omega arith) in
      let e' = read_items-write n vs k (omega arith) in rw (e, e') refl

  read_fields-write :
      (n : ℕ) (fs : Fields) (k : List ℕ)
      → 1 + depth_fields fs ≤ n
      → read_fields n (write_fields fs k) ≡ some (fs, k)
  read_fields-write zero fs k h = absurd (omega arith)
  read_fields-write (suc n) end k h = refl
  read_fields-write (suc n) (field s v fs) k h =
      let t = read_text-write_text s (write v (write_fields fs k)) in
      let e = read-write n v (write_fields fs k) (omega arith) in
      let e' = read_fields-write n fs k (omega arith) in rw (t, e, e') refl

pub read_value-write : (v : Value) → read_value (write v []) ≡ some v
unfolding read_value
read_value-write v =
    ap first_read (read-write (2 * length (write v [])) v [] (omega (arith, depth-write v [])))

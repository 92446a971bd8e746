-- ===== src/Tests/Codec/Plain.antt =====
-- A written value has no line end and no carriage return, if it is generic.
use runtime_provenance_firew.Base.{
  ℕ, String, List, [], arith, true, false, Bool-cases, inl, inr, string_lt,
}
use runtime_provenance_firew.Json.{
  Value, null, bool, uint, int, float64, number, str, array, object, structure, Items, nil, cons,
  Fields, end, field, generic, generic_items, generic_fields, sort_fields, insert_sorted,
}
use runtime_provenance_firew.Stream.Written.{IsPlain}
use runtime_provenance_firew.Tests.Codec.{write_text, write, write_items, write_fields}

write_text-IsPlain : (s : String) (k : List ℕ) → IsPlain k → IsPlain (write_text s k)
unfolding write_text
write_text-IsPlain String.[] k h = (λ e. omega arith, λ e. omega arith, h)
write_text-IsPlain (String.◌∷◌ c s) k h =
    (λ e. omega arith, λ e. omega arith, write_text-IsPlain s k h)

-- A value that a decoder yields.
mutual
  IsGeneric : Value → Type 0
  IsGeneric null = Unit
  IsGeneric (bool b) = Unit
  IsGeneric (uint n) = ⊥
  IsGeneric (int z) = ⊥
  IsGeneric (float64 n) = ⊥
  IsGeneric (number s) = Unit
  IsGeneric (str s) = Unit
  IsGeneric (array vs) = AllItems vs
  IsGeneric (object fs) = AllFields fs
  IsGeneric (structure fs) = ⊥

  AllItems : Items → Type 0
  AllItems nil = Unit
  AllItems (cons v vs) = IsGeneric v × AllItems vs

  AllFields : Fields → Type 0
  AllFields end = Unit
  AllFields (field s v fs) = IsGeneric v × AllFields fs

mutual
  unfolding write IsGeneric

  write-IsPlain : (v : Value) (k : List ℕ) → IsGeneric v → IsPlain k → IsPlain (write v k)
  write-IsPlain null k g h = (λ e. omega arith, λ e. omega arith, h)
  write-IsPlain (bool false) k g h = (λ e. omega arith, λ e. omega arith, h)
  write-IsPlain (bool true) k g h = (λ e. omega arith, λ e. omega arith, h)
  write-IsPlain (uint n) k g h = absurd g
  write-IsPlain (int z) k g h = absurd g
  write-IsPlain (float64 n) k g h = absurd g
  write-IsPlain (number s) k g h = (λ e. omega arith, λ e. omega arith, write_text-IsPlain s k h)
  write-IsPlain (str s) k g h = (λ e. omega arith, λ e. omega arith, write_text-IsPlain s k h)
  write-IsPlain (array vs) k g h =
      (λ e. omega arith, λ e. omega arith, write_items-IsPlain vs k g h)
  write-IsPlain (object fs) k g h =
      (λ e. omega arith, λ e. omega arith, write_fields-IsPlain fs k g h)
  write-IsPlain (structure fs) k g h = absurd g

  write_items-IsPlain :
      (vs : Items) (k : List ℕ) → AllItems vs → IsPlain k → IsPlain (write_items vs k)
  write_items-IsPlain nil k g h = (λ e. omega arith, λ e. omega arith, h)
  write_items-IsPlain (cons v vs) k (g, gs) h = (
    λ e. omega arith,
    λ e. omega arith,
    write-IsPlain v (write_items vs k) g (write_items-IsPlain vs k gs h),
  )

  write_fields-IsPlain :
      (fs : Fields) (k : List ℕ) → AllFields fs → IsPlain k → IsPlain (write_fields fs k)
  write_fields-IsPlain end k g h = (λ e. omega arith, λ e. omega arith, h)
  write_fields-IsPlain (field s v fs) k (g, gs) h = (
    λ e. omega arith,
    λ e. omega arith,
    write_text-IsPlain s (write v (write_fields fs k))
        (write-IsPlain v (write_fields fs k) g (write_fields-IsPlain fs k gs h)),
  )

insert_sorted-AllFields :
    (s : String) (v : Value) (fs : Fields)
    → IsGeneric v
    → AllFields fs
    → AllFields (insert_sorted s v fs)
unfolding IsGeneric insert_sorted
insert_sorted-AllFields s v end g gs = (g, tt)
insert_sorted-AllFields s v (field t w fs) g (h, gs) = elim (Bool-cases (string_lt s t)) [
  | inl before ↦ rw before (g, (h, gs))
  | inr after ↦ rw after (h, insert_sorted-AllFields s v fs g gs)
]

sort_fields-AllFields : (fs : Fields) → AllFields fs → AllFields (sort_fields fs)
unfolding IsGeneric sort_fields
sort_fields-AllFields end g = tt
sort_fields-AllFields (field s v fs) (g, gs) =
    insert_sorted-AllFields s v (sort_fields fs) g (sort_fields-AllFields fs gs)

module _ (float_text : ℕ → String) where
  mutual
    unfolding generic IsGeneric

    generic-IsGeneric : (v : Value) → IsGeneric (generic float_text v)
    generic-IsGeneric null = tt
    generic-IsGeneric (bool b) = tt
    generic-IsGeneric (uint n) = tt
    generic-IsGeneric (int z) = tt
    generic-IsGeneric (float64 n) = tt
    generic-IsGeneric (number s) = tt
    generic-IsGeneric (str s) = tt
    generic-IsGeneric (array vs) = generic_items-AllItems vs
    generic-IsGeneric (object fs) = generic_fields-AllFields fs
    generic-IsGeneric (structure fs) =
        sort_fields-AllFields (generic_fields float_text fs) (generic_fields-AllFields fs)

    generic_items-AllItems : (vs : Items) → AllItems (generic_items float_text vs)
    generic_items-AllItems nil = tt
    generic_items-AllItems (cons v vs) = (generic-IsGeneric v, generic_items-AllItems vs)

    generic_fields-AllFields : (fs : Fields) → AllFields (generic_fields float_text fs)
    generic_fields-AllFields end = tt
    generic_fields-AllFields (field s v fs) = (generic-IsGeneric v, generic_fields-AllFields fs)

  pub write-generic-IsPlain : (v : Value) → IsPlain (write (generic float_text v) [])
  write-generic-IsPlain v = write-IsPlain (generic float_text v) [] (generic-IsGeneric v) tt

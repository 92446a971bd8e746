-- ===== src/Json/Laws.antt =====
-- Reading back what was read changes nothing.
use runtime_provenance_firew.Base.{ℕ, String, ◌≡◌, refl, ap, ◌∙◌, inl, inr, Bool-cases}
use runtime_provenance_firew.Json.{
  Value, null, bool, uint, int, float64, number, str, array, object, structure, Items, nil, cons,
  Fields, end, field, string_lt, insert_sorted, sort_fields, generic, generic_items, generic_fields,
}

module _ (float_text : ℕ → String) where
  generic_fields-insert_sorted :
      (k : String) (v : Value) (fs : Fields)
      → generic_fields float_text (insert_sorted k v fs)
        ≡ insert_sorted k (generic float_text v) (generic_fields float_text fs)
  unfolding insert_sorted generic
  generic_fields-insert_sorted k v end = refl
  generic_fields-insert_sorted k v (field j w fs) = elim (Bool-cases (string_lt k j)) [
    | inl before ↦ rw before refl
    | inr after ↦
        rw after (ap (field j (generic float_text w)) (generic_fields-insert_sorted k v fs))
  ]

  generic_fields-sort_fields :
      (fs : Fields)
      → generic_fields float_text (sort_fields fs) ≡ sort_fields (generic_fields float_text fs)
  unfolding sort_fields generic
  generic_fields-sort_fields end = refl
  generic_fields-sort_fields (field k v fs) =
      generic_fields-insert_sorted k v (sort_fields fs)
      ∙ ap (insert_sorted k (generic float_text v)) (generic_fields-sort_fields fs)

  mutual
    unfolding generic

    generic_twice : (v : Value) → generic float_text (generic float_text v) ≡ generic float_text v
    generic_twice null = refl
    generic_twice (bool b) = refl
    generic_twice (uint n) = refl
    generic_twice (int z) = refl
    generic_twice (float64 bits) = refl
    generic_twice (number s) = refl
    generic_twice (str s) = refl
    generic_twice (array vs) = ap array (generic_items_twice vs)
    generic_twice (object fs) = ap object (generic_fields_twice fs)
    generic_twice (structure fs) = ap object (
        generic_fields-sort_fields (generic_fields float_text fs)
        ∙ ap sort_fields (generic_fields_twice fs))

    generic_items_twice :
        (vs : Items)
        → generic_items float_text (generic_items float_text vs) ≡ generic_items float_text vs
    generic_items_twice nil = refl
    generic_items_twice (cons v vs) = cc (generic_twice v, generic_items_twice vs)

    generic_fields_twice :
        (fs : Fields)
        → generic_fields float_text (generic_fields float_text fs) ≡ generic_fields float_text fs
    generic_fields_twice end = refl
    generic_fields_twice (field k v fs) = cc (generic_twice v, generic_fields_twice fs)

  pub generic_idem : (v : Value) → generic float_text (generic float_text v) ≡ generic float_text v
  generic_idem v = generic_twice v

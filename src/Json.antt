-- ===== src/Json.antt =====
-- The values that encoding/json writes and reads for the program: Go's `any`, maps, slices and the
-- structs of internal/rpf/model.go once their tags are applied.
--   * a `map[string]any` is the list of its entries in key order, the order in which
--     encoding/json writes it; `structure` is a struct, whose fields are written as declared;
--   * `number` is a json.Number, the text of a number; `uint` and `int` are Go's integers;
--     `float64` holds the 64 bits of one.
pub mod Decimal
pub mod Laws
use runtime_provenance_firew.Base.{
  ℕ, zero, suc, ◌+◌, ◌/◌, ◌%◌, String, ◌<>◌, Bool, false, Option, none, some, List, [], ◌∷◌, ltb,
  ◌==◌, string_eq, string_lt, if◌then◌else◌,
}
use Prim.Native.Char.{Char}
use Prim.Native.String.{char_at}

-- An int32 or int64: `negsuc n` is -(n + 1).
pub data ℤ : Type 0 where
  pos : ℕ → ℤ
  negsuc : ℕ → ℤ

mutual
  pub data Value : Type 0 where
    null : Value
    bool : Bool → Value
    uint : ℕ → Value
    int : ℤ → Value
    float64 : ℕ → Value
    number : String → Value
    str : String → Value
    array : Items → Value
    object : Fields → Value
    structure : Fields → Value

  pub data Items : Type 0 where
    nil : Items
    cons : Value → Items → Items

  pub data Fields : Type 0 where
    end : Fields
    field : String → Value → Fields → Fields

abbrev pub fields : List (String × Value) → Fields
fields [] = end
fields ((k, v) ∷ rest) = field k v (fields rest)

abbrev pub items : List Value → Items
items [] = nil
items (v ∷ vs) = cons v (items vs)

-- A map that may be nil is written as null.
abbrev pub map_value : Option Fields → Value
map_value none = null
map_value (some fs) = object fs

-- `value, ok := m[key]`
unfoldable pub lookup : String → Fields → Option Value
lookup k end = none
lookup k (field j v fs) = if j == k then some v else lookup k fs

-- The same of a map that may be nil.
abbrev pub lookup_in : Option Fields → String → Option Value
lookup_in none key = none
lookup_in (some fs) key = lookup key fs

-- `text, _ := value.(string)`
abbrev pub text_of : Option Value → String
text_of (some (str s)) = s
text_of _ = ""

-- `value == text`, of an `any` and a string
abbrev pub is_text : Option Value → String → Bool
is_text (some (str s)) text = s == text
is_text _ text = false

-- `m[key] = value` of a key that is there
unfoldable pub replace : String → Value → Fields → Fields
replace k v end = end
replace k v (field j w fs) = if j == k then field j v fs else field j w (replace k v fs)

-- `delete(m, key)`
unfoldable pub delete : String → Fields → Fields
delete k end = end
delete k (field j w fs) = if j == k then fs else field j w (delete k fs)

-- `value.(string)`, `value.(bool)`, `value.(map[string]any)`, `value.([]any)`; none is `!ok`
abbrev pub as_string : Option Value → Option String
as_string (some (str s)) = some s
as_string _ = none

abbrev pub as_bool : Option Value → Option Bool
as_bool (some (bool b)) = some b
as_bool _ = none

abbrev pub as_object : Option Value → Option Fields
as_object (some (object fs)) = some fs
as_object _ = none

abbrev pub as_array : Option Value → Option Items
as_array (some (array vs)) = some vs
as_array _ = none

-- The decimal text of a number. Twenty digits hold every uint64.
abbrev digit : ℕ → Char
digit d = char_at "0123456789" d

decimal_onto : ℕ → ℕ → String → String
decimal_onto zero n acc = acc
decimal_onto (suc more) n acc =
    let rest = decimal_onto more (n / 10) (String.◌∷◌ (digit (n % 10)) acc) in
    if ltb n 10 then String.◌∷◌ (digit n) acc else rest

unfoldable pub decimal : ℕ → String
unfolding decimal_onto
decimal n = decimal_onto 20 n ""

unfoldable pub decimal_int : ℤ → String
unfolding decimal
decimal_int (pos n) = decimal n
decimal_int (negsuc n) = "-" <> decimal (n + 1)

-- Entries by key, as encoding/json writes a map.
unfoldable pub insert_sorted : String → Value → Fields → Fields
insert_sorted k v end = field k v end
insert_sorted k v (field j w fs) =
    if string_lt k j then field k v (field j w fs) else field j w (insert_sorted k v fs)

unfoldable pub sort_fields : Fields → Fields
unfolding insert_sorted
sort_fields end = end
sort_fields (field k v fs) = insert_sorted k v (sort_fields fs)

-- What a decoder with UseNumber reads from the text of a value: structs have become maps and
-- integers json.Numbers.
module _ (float_text : ℕ → String) where
  unfoldable mutual
    pub generic : Value → Value
    generic null = null
    generic (bool b) = bool b
    generic (uint n) = number (decimal n)
    generic (int z) = number (decimal_int z)
    generic (float64 bits) = number (float_text bits)
    generic (number text) = number text
    generic (str s) = str s
    generic (array vs) = array (generic_items vs)
    generic (object fs) = object (generic_fields fs)
    generic (structure fs) = object (sort_fields (generic_fields fs))

    pub generic_items : Items → Items
    generic_items nil = nil
    generic_items (cons v vs) = cons (generic v) (generic_items vs)

    pub generic_fields : Fields → Fields
    generic_fields end = end
    generic_fields (field k v fs) = field k (generic v) (generic_fields fs)

-- ===== src/Parse.antt =====
-- internal/rpf/parse.go: canonical JSON and strict decoding under the limits.
pub mod Strict
pub mod Fuel
use Prim.Native.String.{len}
use runtime_provenance_firew.Base.{
  ℕ, zero, suc, ◌+◌, ◌*◌, String, ◌||◌, Option, List, [], ◌∷◌, length, ltb, ◌==◌, nat_eq, string_eq,
  contains, Result, ok, err, ◌>>=◌, ◌>>◌, fail_if, require, document_size, nesting_limit,
  value_limit, invalid_json, string_limit, key_invalid, key_not_string, key_limit,
  unterminated_object, unterminated_array, unexpected_delimiter, decode_failed, trailing_data,
  marshal_failed, duplicate_key, out_of_fuel,
}
use runtime_provenance_firew.Json.{Value, Fields}
use runtime_provenance_firew.Platform.{
  Platform, Bytes, Tokens, eof, malformed, next, open_brace, close_brace, open_bracket,
  close_bracket, text, scalar,
}

abbrev pub max_document_bytes : ℕ
max_document_bytes = 67108864

abbrev pub max_event_bytes : ℕ
max_event_bytes = 262144

abbrev pub max_string_bytes : ℕ
max_string_bytes = 32768

abbrev pub max_depth : ℕ
max_depth = 16

abbrev pub max_values : ℕ
max_values = 2000

abbrev pub max_events : ℕ
max_events = 1000000

-- How many tokens the decoder has ahead.
pub token_count : Tokens → ℕ
token_count eof = 0
token_count malformed = 0
token_count (next t rest) = suc (token_count rest)

-- `walkJSON`, in four functions: the limits on entry, the first token of a value, and the loops
-- over the members of an object and the elements of an array. Each returns what the decoder has
-- ahead and the count of values. `decoder.More` is false at a closing delimiter and at the end.
unfoldable mutual
  pub walk_json : ℕ → ℕ → ℕ → Tokens → Result (Tokens × ℕ)
  walk_json zero depth count ts = err out_of_fuel
  walk_json (suc fuel) depth count ts = do
    fail_if (ltb max_depth depth) nesting_limit
    fail_if (ltb max_values (count + 1)) value_limit
    walk_token fuel depth (count + 1) ts

  walk_token : ℕ → ℕ → ℕ → Tokens → Result (Tokens × ℕ)
  walk_token zero depth count ts = err out_of_fuel
  walk_token (suc fuel) depth count eof = err invalid_json
  walk_token (suc fuel) depth count malformed = err invalid_json
  walk_token (suc fuel) depth count (next (text s) rest) = do
    fail_if (ltb max_string_bytes (len s)) string_limit
    ok (rest, count)
  walk_token (suc fuel) depth count (next scalar rest) = ok (rest, count)
  walk_token (suc fuel) depth count (next open_brace rest) = walk_members fuel depth count [] rest
  walk_token (suc fuel) depth count (next open_bracket rest) = walk_elements fuel depth count rest
  walk_token (suc fuel) depth count (next close_brace rest) = err unexpected_delimiter
  walk_token (suc fuel) depth count (next close_bracket rest) = err unexpected_delimiter

  walk_members : ℕ → ℕ → ℕ → List String → Tokens → Result (Tokens × ℕ)
  walk_members zero depth count seen ts = err out_of_fuel
  walk_members (suc fuel) depth count seen eof = err unterminated_object
  walk_members (suc fuel) depth count seen (next close_bracket rest) = err unterminated_object
  walk_members (suc fuel) depth count seen (next close_brace rest) = ok (rest, count)
  walk_members (suc fuel) depth count seen malformed = err key_invalid
  walk_members (suc fuel) depth count seen (next scalar rest) = err key_not_string
  walk_members (suc fuel) depth count seen (next open_brace rest) = err key_not_string
  walk_members (suc fuel) depth count seen (next open_bracket rest) = err key_not_string
  walk_members (suc fuel) depth count seen (next (text key) rest) = do
    fail_if (ltb max_string_bytes (len key)) key_limit
    fail_if (contains seen key) (duplicate_key key)
    (rest', count') ← walk_json fuel (depth + 1) count rest
    walk_members fuel depth count' (key ∷ seen) rest'

  walk_elements : ℕ → ℕ → ℕ → Tokens → Result (Tokens × ℕ)
  walk_elements zero depth count ts = err out_of_fuel
  walk_elements (suc fuel) depth count eof = err unterminated_array
  walk_elements (suc fuel) depth count (next close_brace rest) = err unterminated_array
  walk_elements (suc fuel) depth count (next close_bracket rest) = ok (rest, count)
  walk_elements (suc fuel) depth count ts = do
    (rest, count') ← walk_json fuel (depth + 1) count ts
    walk_elements fuel depth count' rest

-- `requireEOF`. The messages for a second value and for other trailing data are one error here.
unfoldable pub require_eof : Tokens → Result (Unit {0})
require_eof eof = ok tt
require_eof malformed = err trailing_data
require_eof (next t rest) = err trailing_data

module _ (platform : Platform) where
  open platform use {sha256_hex, marshal, tokens, decode_any, decode_map}

  -- `Digest`
  abbrev pub digest : Bytes → String
  digest = sha256_hex

  unfoldable pub canonical : Value → Result Bytes
  canonical value = do
    raw ← require (marshal value) marshal_failed
    generic ← require (decode_any raw) decode_failed
    require (marshal generic) marshal_failed

  unfoldable pub canonical_digest : Value → Result String
  unfolding canonical
  canonical_digest value = do raw ← canonical value; ok (digest raw)

  unfoldable pub validate_json_shape : Bytes → Result (Unit {0})
  unfolding walk_json require_eof token_count
  validate_json_shape raw = do
    let ahead = tokens raw
    (rest, count) ← walk_json (4 * token_count ahead + 4) 0 0 ahead
    require_eof rest

  -- The type to decode into is given by its decoder.
  unfoldable pub decode_strict : {A : Type 0} → (Bytes → Option (A × Tokens)) → Bytes → ℕ → Result A
  unfolding validate_json_shape require_eof
  decode_strict decode raw limit = do
    fail_if (length raw == 0 || ltb limit (length raw)) document_size
    validate_json_shape raw
    (value, rest) ← require (decode raw) decode_failed
    require_eof rest
    ok value

  -- `toMap` of verify.go
  unfoldable pub to_map : Value → Result Fields
  unfolding canonical decode_strict
  to_map value = do raw ← canonical value; decode_strict decode_map raw max_document_bytes

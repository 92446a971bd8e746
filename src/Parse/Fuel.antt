-- ===== src/Parse/Fuel.antt =====
-- The walk of internal/rpf/parse.go over a document ends: its fuel is enough.
use runtime_provenance_firew.Base.{
  ℕ, zero, suc, ◌+◌, ◌*◌, ◌≤◌, ◌<◌, ◌≢◌, Bool, true, false, List, ◌∷◌, [], String, arith, string_eq,
  Result, ok, err, Error, ◌>>=◌, ◌>>◌, fail_if, out_of_fuel, nesting_limit, value_limit,
  string_limit, key_limit, duplicate_key,
}
use runtime_provenance_firew.Platform.{
  Platform, Bytes, Tokens, eof, malformed, next, open_brace, close_brace, open_bracket,
  close_bracket, text, scalar,
}
use runtime_provenance_firew.Parse.{
  token_count, walk_json, walk_token, walk_members, walk_elements, require_eof, validate_json_shape,
}

-- The walk ends, and leaves fewer than n tokens where it succeeds.
Shrinks : ℕ → Result (Tokens × ℕ) → Type 0
Shrinks n (err e) = e ≢ out_of_fuel
Shrinks n (ok (rest, count)) = token_count rest < n

Shrinks-fail_if :
    (n : ℕ) (c : Bool) (e : Error) (k : Result (Tokens × ℕ))
    → e ≢ out_of_fuel
    → Shrinks n k
    → Shrinks n (fail_if c e >> k)
unfolding Shrinks
Shrinks-fail_if n true e k h s = h
Shrinks-fail_if n false e k h s = s

Shrinks-bind :
    (n m : ℕ) (r : Result (Tokens × ℕ)) (f : Tokens × ℕ → Result (Tokens × ℕ))
    → Shrinks m r
    → ((rest : Tokens) (count : ℕ) → token_count rest < m → Shrinks n (f (rest, count)))
    → Shrinks n (r >>= f)
unfolding Shrinks
Shrinks-bind n m (err e) f h k = h
Shrinks-bind n m (ok (rest, count)) f h k = k rest count h

weaken : (n m : ℕ) (r : Result (Tokens × ℕ)) → n ≤ m → Shrinks n r → Shrinks m r
unfolding Shrinks
weaken n m (err e) h s = s
weaken n m (ok (rest, count)) h s = omega arith

fails : (n : ℕ) (e : Error) → e ≢ out_of_fuel → Shrinks n (err e)
unfolding Shrinks
fails n e h = h

leaves : (n : ℕ) (rest : Tokens) (count : ℕ) → token_count rest < n → Shrinks n (ok (rest, count))
unfolding Shrinks
leaves n rest count h = h

mutual
  unfolding walk_json token_count

  walk_json-Shrinks :
      (fuel depth count : ℕ) (ts : Tokens)
      → 4 * token_count ts + 4 ≤ fuel
      → Shrinks (token_count ts) (walk_json fuel depth count ts)
  walk_json-Shrinks zero depth count ts h = absurd (omega arith)
  walk_json-Shrinks (suc fuel) depth count ts h =
      Shrinks-fail_if _ _ nesting_limit _ (λ e. cc)
        (Shrinks-fail_if _ _ value_limit _ (λ e. cc)
          (walk_token-Shrinks fuel depth (count + 1) ts (omega arith)))

  walk_token-Shrinks :
      (fuel depth count : ℕ) (ts : Tokens)
      → 4 * token_count ts + 3 ≤ fuel
      → Shrinks (token_count ts) (walk_token fuel depth count ts)
  walk_token-Shrinks zero depth count ts h = absurd (omega arith)
  walk_token-Shrinks (suc fuel) depth count eof h = fails _ _ (λ e. cc)
  walk_token-Shrinks (suc fuel) depth count malformed h = fails _ _ (λ e. cc)
  walk_token-Shrinks (suc fuel) depth count (next (text s) rest) h =
      Shrinks-fail_if (suc (token_count rest)) _ string_limit (ok (rest, count)) (λ e. cc)
        (leaves _ rest count (omega arith))
  walk_token-Shrinks (suc fuel) depth count (next scalar rest) h = leaves _ rest count (omega arith)
  walk_token-Shrinks (suc fuel) depth count (next open_brace rest) h =
      walk_members-Shrinks fuel depth count [] rest (omega arith)
  walk_token-Shrinks (suc fuel) depth count (next open_bracket rest) h =
      walk_elements-Shrinks fuel depth count rest (omega arith)
  walk_token-Shrinks (suc fuel) depth count (next close_brace rest) h = fails _ _ (λ e. cc)
  walk_token-Shrinks (suc fuel) depth count (next close_bracket rest) h = fails _ _ (λ e. cc)

  walk_members-Shrinks :
      (fuel depth count : ℕ) (seen : List String) (ts : Tokens)
      → 4 * token_count ts + 6 ≤ fuel
      → Shrinks (suc (token_count ts)) (walk_members fuel depth count seen ts)
  walk_members-Shrinks zero depth count seen ts h = absurd (omega arith)
  walk_members-Shrinks (suc fuel) depth count seen eof h = fails _ _ (λ e. cc)
  walk_members-Shrinks (suc fuel) depth count seen malformed h = fails _ _ (λ e. cc)
  walk_members-Shrinks (suc fuel) depth count seen (next close_bracket rest) h = fails _ _ (λ e. cc)
  walk_members-Shrinks (suc fuel) depth count seen (next close_brace rest) h =
      leaves _ rest count (omega arith)
  walk_members-Shrinks (suc fuel) depth count seen (next scalar rest) h = fails _ _ (λ e. cc)
  walk_members-Shrinks (suc fuel) depth count seen (next open_brace rest) h = fails _ _ (λ e. cc)
  walk_members-Shrinks (suc fuel) depth count seen (next open_bracket rest) h = fails _ _ (λ e. cc)
  walk_members-Shrinks (suc fuel) depth count seen (next (text key) rest) h =
      Shrinks-fail_if _ _ key_limit _ (λ e. cc)
        (Shrinks-fail_if _ _ (duplicate_key key) _ (λ e. cc)
          (Shrinks-bind _ (token_count rest) (walk_json fuel (depth + 1) count rest) _
            (walk_json-Shrinks fuel (depth + 1) count rest (omega arith))
            (λ rest' count' less.
              weaken (suc (token_count rest')) (suc (suc (token_count rest))) _ (omega arith)
                (walk_members-Shrinks fuel depth count' (key ∷ seen) rest' (omega arith)))))

  walk_elements-Shrinks :
      (fuel depth count : ℕ) (ts : Tokens)
      → 4 * token_count ts + 6 ≤ fuel
      → Shrinks (suc (token_count ts)) (walk_elements fuel depth count ts)
  walk_elements-Shrinks zero depth count ts h = absurd (omega arith)
  walk_elements-Shrinks (suc fuel) depth count eof h = fails _ _ (λ e. cc)
  walk_elements-Shrinks (suc fuel) depth count (next close_brace rest) h = fails _ _ (λ e. cc)
  walk_elements-Shrinks (suc fuel) depth count (next close_bracket rest) h =
      leaves _ rest count (omega arith)
  walk_elements-Shrinks (suc fuel) depth count malformed h =
      Shrinks-bind _ (token_count malformed) (walk_json fuel (depth + 1) count malformed) _
        (walk_json-Shrinks fuel (depth + 1) count malformed (omega arith))
        (λ rest' count' less.
          weaken (suc (token_count rest')) (suc (token_count malformed)) _ (omega arith)
            (walk_elements-Shrinks fuel depth count' rest' (omega arith)))
  walk_elements-Shrinks (suc fuel) depth count (next (text s) rest) h =
      Shrinks-bind _ (token_count (next (text s) rest))
        (walk_json fuel (depth + 1) count (next (text s) rest)) _
        (walk_json-Shrinks fuel (depth + 1) count (next (text s) rest) (omega arith))
        (λ rest' count' less.
          weaken (suc (token_count rest')) (suc (token_count (next (text s) rest))) _ (omega arith)
            (walk_elements-Shrinks fuel depth count' rest' (omega arith)))
  walk_elements-Shrinks (suc fuel) depth count (next scalar rest) h =
      Shrinks-bind _ (token_count (next scalar rest))
        (walk_json fuel (depth + 1) count (next scalar rest)) _
        (walk_json-Shrinks fuel (depth + 1) count (next scalar rest) (omega arith))
        (λ rest' count' less.
          weaken (suc (token_count rest')) (suc (token_count (next scalar rest))) _ (omega arith)
            (walk_elements-Shrinks fuel depth count' rest' (omega arith)))
  walk_elements-Shrinks (suc fuel) depth count (next open_brace rest) h =
      Shrinks-bind _ (token_count (next open_brace rest))
        (walk_json fuel (depth + 1) count (next open_brace rest)) _
        (walk_json-Shrinks fuel (depth + 1) count (next open_brace rest) (omega arith))
        (λ rest' count' less.
          weaken (suc (token_count rest')) (suc (token_count (next open_brace rest))) _
            (omega arith) (walk_elements-Shrinks fuel depth count' rest' (omega arith)))
  walk_elements-Shrinks (suc fuel) depth count (next open_bracket rest) h =
      Shrinks-bind _ (token_count (next open_bracket rest))
        (walk_json fuel (depth + 1) count (next open_bracket rest)) _
        (walk_json-Shrinks fuel (depth + 1) count (next open_bracket rest) (omega arith))
        (λ rest' count' less.
          weaken (suc (token_count rest')) (suc (token_count (next open_bracket rest))) _
            (omega arith) (walk_elements-Shrinks fuel depth count' rest' (omega arith)))

not_out_of_fuel :
    (n : ℕ) (r : Result (Tokens × ℕ))
    → Shrinks n r
    → (r >>= λ (rest, count). require_eof rest) ≢ err out_of_fuel
unfolding require_eof Shrinks
not_out_of_fuel n (err e) s h = s (cc h)
not_out_of_fuel n (ok (eof, count)) s h = cc
not_out_of_fuel n (ok (malformed, count)) s h = cc
not_out_of_fuel n (ok (next t rest, count)) s h = cc

-- The walk over the tokens of a document ends for every text: its answer is never that the model's
-- fuel, four calls for each token and four more, was too little.
pub validate_json_shape_terminates :
    (platform : Platform) (raw : Bytes) → validate_json_shape platform raw ≢ err out_of_fuel
unfolding validate_json_shape
validate_json_shape_terminates platform raw =
    not_out_of_fuel (token_count (platform.tokens raw)) _ (
      walk_json-Shrinks (4 * token_count (platform.tokens raw) + 4) 0 0 (platform.tokens raw)
        (omega arith))

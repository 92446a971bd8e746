-- ===== src/Parse/Strict.antt =====
-- What a strict decoding that succeeds went through.
use runtime_provenance_firew.Base.{
  ℕ, ◌≤◌, ◌<◌, ◌≡◌, ap, ◌∙◌, Option, some, arith, ok, fail_if-eq-ok, >>=-eq-ok, require-eq-ok,
  document_size, decode_failed, ltb, nat_eq, length, ◌==◌, ◌||◌,
}
use runtime_provenance_firew.Platform.{Platform, Bytes, Tokens, eof}
use runtime_provenance_firew.Parse.{decode_strict, validate_json_shape, require_eof}

require_eof-eq-ok : (ts : Tokens) → require_eof ts ≡ ok tt → ts ≡ eof
unfolding require_eof
require_eof-eq-ok ts h = ground arith

-- The size is within the limit, the shape is accepted, and the decoder has read all.
pub record Decoded (platform : Platform) {A : Type 0} (decode : Bytes → Option (A × Tokens))
    (raw : Bytes) (limit : ℕ) (value : A) : Type 0 where
  pub not_empty : 0 < length raw
  pub in_limit : length raw ≤ limit
  pub shape : validate_json_shape platform raw ≡ ok tt
  pub decoded : decode raw ≡ some (value, eof)

pub decode_strict-eq-ok :
    (platform : Platform) {A : Type 0} (decode : Bytes → Option (A × Tokens)) (raw : Bytes)
    (limit : ℕ) {value : A}
    → decode_strict platform decode raw limit ≡ ok value
    → Decoded platform decode raw limit value
unfolding decode_strict
decode_strict-eq-ok platform {A} decode raw limit {value} h =
    let (size, h1) = fail_if-eq-ok (length raw == 0 || ltb limit (length raw)) document_size _ h in
    let (unit, shape, h2) = >>=-eq-ok (validate_json_shape platform raw) _ h1 in
    let (pair, decoded, h3) = require-eq-ok (decode raw) decode_failed _ h2 in
    let (unit', ended, h4) = >>=-eq-ok (require_eof pair.1) _ h3 in
    let ahead : pair.1 ≡ eof = require_eof-eq-ok pair.1 ended in
    let kept : pair.0 ≡ value = cc in
    record {
      not_empty = ground (arith, size);
      in_limit = ground (arith, size);
      shape = shape;
      decoded = decoded ∙ ap some (λ i. (kept i, ahead i));
    }

-- And that is enough.
pub Decoded-decode_strict :
    (platform : Platform) {A : Type 0} (decode : Bytes → Option (A × Tokens)) (raw : Bytes)
    (limit : ℕ) (value : A)
    → Decoded platform decode raw limit value
    → decode_strict platform decode raw limit ≡ ok value
unfolding decode_strict require_eof
Decoded-decode_strict platform decode raw limit value d =
    ground (arith, d.not_empty, d.in_limit, d.shape, d.decoded)

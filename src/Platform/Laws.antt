-- ===== src/Platform/Laws.antt =====
-- What encoding/json documents, as hypotheses on a platform, and what follows for canonical bytes.
use runtime_provenance_firew.Base.{
  ◌≡◌, ap, ◌∙◌, some, ok, require-eq-ok, require-some, marshal_failed, decode_failed,
}
use runtime_provenance_firew.Json.{Value, object, Fields, generic}
use runtime_provenance_firew.Json.Laws.{generic_idem}
use runtime_provenance_firew.Platform.{Platform, Bytes, Tokens}
use runtime_provenance_firew.Parse.{canonical}

pub record IsJson (platform : Platform) : Type 0 where
  -- the text that Marshal writes for a value decodes to the value's generic form
  pub decode-marshal :
      (v : Value) (raw : Bytes)
      → platform.marshal v ≡ some raw
      → platform.decode_any raw ≡ some (generic platform.float_text v)
  -- decoding into a map gives the entries that decoding into `any` gives
  pub decode_map-object :
      (raw : Bytes) (entries fs : Fields) (ahead : Tokens)
      → platform.decode_any raw ≡ some (object entries)
      → platform.decode_map raw ≡ some (fs, ahead)
      → fs ≡ entries

module _ (platform : Platform) (json : IsJson platform) where
  open platform use {marshal, decode_any, float_text}

  -- Canonical bytes decode to the generic form of the value.
  pub decode-canonical :
      (v : Value) (raw : Bytes)
      → canonical platform v ≡ ok raw
      → decode_any raw ≡ some (generic float_text v)
  unfolding canonical
  decode-canonical v raw h =
      let (text, marshalled, h1) = require-eq-ok (marshal v) marshal_failed _ h in
      let (tree, decoded, h2) = require-eq-ok (decode_any text) decode_failed _ h1 in
      let again = json.decode-marshal tree raw (require-some (marshal tree) marshal_failed h2) in
      let read = json.decode-marshal v text marshalled in
      let same : tree ≡ generic float_text v = cc in
      again ∙ rw same (ap some (generic_idem float_text v))

  -- So canonical bytes determine the generic form.
  pub canonical-injective :
      (v w : Value) (raw : Bytes)
      → canonical platform v ≡ ok raw
      → canonical platform w ≡ ok raw
      → generic float_text v ≡ generic float_text w
  canonical-injective v w raw h k = cc (decode-canonical v raw h, decode-canonical w raw k)

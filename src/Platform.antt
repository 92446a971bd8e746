-- ===== src/Platform.antt =====
-- Go's standard library, as far as internal/rpf calls it: the SHA-256 of bytes, encoding/json and
-- bytes.TrimSpace. The rest of the development takes a `Platform` as its parameter.
pub mod Laws
use runtime_provenance_firew.Base.{ℕ, String, Option, List}
use runtime_provenance_firew.Json.{ℤ, Value, Fields}
use runtime_provenance_firew.Model.{Event, Statement, Correlation, Policy}

-- `[]byte`
abbrev pub Bytes : Type 0
Bytes = List ℕ

-- `json.Token`: a delimiter, a string with its length in bytes, or another scalar.
pub data Token : Type 0 where
  open_brace close_brace open_bracket close_bracket : Token
  text : String → Token
  scalar : Token

-- What a `json.Decoder` has ahead of it: tokens, and then the end of the input or a syntax error.
pub data Tokens : Type 0 where
  eof : Tokens
  malformed : Tokens
  next : Token → Tokens → Tokens

pub record Platform : Type 0 where
  -- hex.EncodeToString(sha256.Sum256(data))
  pub sha256_hex : Bytes → String
  -- []byte(s)
  pub bytes_of : String → Bytes
  pub trim_space : Bytes → Bytes
  -- json.Marshal; none is an error
  pub marshal : Value → Option Bytes
  -- NewDecoder, with what the decoder yields by Token
  pub tokens : Bytes → Tokens
  -- NewDecoder, UseNumber, Decode into `any`: the first value
  pub decode_any : Bytes → Option Value
  -- NewDecoder, UseNumber, DisallowUnknownFields, Decode into the type: the first value, and what
  -- the decoder has ahead after it
  pub decode_map : Bytes → Option (Fields × Tokens)
  pub decode_event : Bytes → Option (Event × Tokens)
  pub decode_statement : Bytes → Option (Statement × Tokens)
  pub decode_correlation : Bytes → Option (Correlation × Tokens)
  pub decode_policy : Bytes → Option (Policy × Tokens)
  -- the text of a float64, given by its bits
  pub float_text : ℕ → String
  -- json.Number.Int64; none is an error
  pub number_int64 : String → Option ℤ
  -- float64 >= 0, and uint64(f) where float64(uint64(f)) == f
  pub float_uint64 : ℕ → Option ℕ

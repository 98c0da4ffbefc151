-- ===== src/Json.antt =====
-- `json.Decoder` of Go's standard library, as far as the driver uses it: `Token`, `More`, `Decode`.
-- The stream is a list of lexemes; white space between them is not represented, and a string
-- carries its decoded text beside its source text.
pub mod Scan
pub mod Print
pub mod Read
pub mod Elements
pub mod Into
use couchdb.Common.{Bytes, Bool, true, false, List, [], none}
use couchdb.Errors.{Delim, Error, Err}

pub data Lexeme : Type 0 where
  delim : Delim → Lexeme
  colon comma : Lexeme
  -- the decoded text, and the text between the quotes
  string : (text raw : Bytes) → Lexeme
  -- a number, `true`, `false` or `null`
  literal : Bytes → Lexeme
  -- a byte that begins no lexeme
  invalid : Lexeme

abbrev pub Raw : Type 0
Raw = List Lexeme

pub data Token : Type 0 where
  delim_token : Delim → Token
  string_token : Bytes → Token
  literal_token : Bytes → Token

-- the states tokenTopValue to tokenObjectComma of the decoder
pub data TokenState : Type 0 where
  top_value array_start array_value array_comma : TokenState
  object_start object_key object_colon object_value object_comma : TokenState

-- `tail` is what a read returns once `input` is used up; `failed` is the error that `Decode` keeps.
pub record Decoder : Type 0 where
  pub input : List Lexeme
  pub tail : Error
  pub state : TokenState
  pub stack : List TokenState
  pub failed : Err

-- json.NewDecoder
abbrev pub new_decoder : List Lexeme → Error → Decoder
new_decoder input tail = record {
  input = input;
  tail = tail;
  state = top_value;
  stack = [];
  failed = none;
}

abbrev pub value_allowed : TokenState → Bool
value_allowed top_value = true
value_allowed array_start = true
value_allowed array_value = true
value_allowed object_value = true
value_allowed _ = false

-- tokenValueEnd
abbrev pub value_end : TokenState → TokenState
value_end array_start = array_comma
value_end array_value = array_comma
value_end object_value = object_comma
value_end s = s

-- ===== src/Json/Read.antt =====
-- `Decoder.Decode`, `Decoder.Token` and `Decoder.More`.
pub mod Values
pub mod Progress
pub mod Members
use couchdb.Common.{Bool, true, false, not, List, [], ◌∷◌, Option, none, some, if◌then◌else◌}
use couchdb.Errors.{
  open_obj, close_obj, open_arr, close_arr, Error, eof, unexpected_eof, syntax, Result, ok, err,
}
use couchdb.Json.{
  Lexeme, delim, colon, comma, string, literal, invalid, Raw, Token, delim_token, string_token,
  literal_token, TokenState, array_start, array_value, array_comma, object_start, object_key,
  object_colon, object_value, object_comma, Decoder, value_allowed, value_end,
}
use couchdb.Json.Scan.{complete, broken, short, value, scan}

abbrev pub is_eof : Error → Bool
is_eof eof = true
is_eof _ = false

-- Decoder.More
unfoldable pub more : List Lexeme → Bool
more [] = false
more (delim close_obj ∷ ls) = false
more (delim close_arr ∷ ls) = false
more (l ∷ ls) = true

-- A string, a number or a name ends where the next byte is read.
abbrev pub needs_lookahead : Raw → List Lexeme → Error → Bool
needs_lookahead (string t r ∷ []) [] e = not (is_eof e)
needs_lookahead (literal b ∷ []) [] e = not (is_eof e)
needs_lookahead raw rest e = false

abbrev pub sticky {ℓ} : {A : Type ℓ} → Error → Decoder → Result A × Decoder
sticky e d = (err e, record d { failed = some e })

-- what a value that the input cuts short is refused with
abbrev pub cut_short : List Lexeme → Error → Error
cut_short [] e = e
cut_short (l ∷ ls) e = if is_eof e then unexpected_eof else e

-- readValue, and the step of the token state behind it
unfoldable pub read_value : Decoder → Result Raw × Decoder
read_value d = elim (scan value [] d.input) [
  | short ↦ sticky (cut_short d.input d.tail) d
  | broken ↦ sticky syntax d
  | complete raw rest ↦
      (if needs_lookahead raw rest d.tail
        then sticky d.tail d
        else (ok raw, record d { input = rest; state = value_end d.state }))
]

-- tokenPrepareForDecode: the comma or the colon before a value
abbrev pub expect_comma : List Lexeme → Decoder → Result Decoder
expect_comma [] d = err d.tail
expect_comma (comma ∷ ls) d = ok (record d { input = ls; state = array_value })
expect_comma (l ∷ ls) d = err syntax

abbrev pub expect_colon : List Lexeme → Decoder → Result Decoder
expect_colon [] d = err d.tail
expect_colon (colon ∷ ls) d = ok (record d { input = ls; state = object_value })
expect_colon (l ∷ ls) d = err syntax

abbrev pub prepare : TokenState → Decoder → Result Decoder
prepare array_comma d = expect_comma d.input d
prepare object_colon d = expect_colon d.input d
prepare _ d = ok d

abbrev pub decode_at : Decoder → Result Raw × Decoder
decode_at d = if value_allowed d.state then read_value d else (err syntax, d)

-- Decoder.Decode, up to the lexemes of the value that is then unmarshalled
unfoldable pub decode : Decoder → Result Raw × Decoder
unfolding read_value
decode d = elim d.failed [
  | some e ↦ (err e, d)
  | none ↦ elim (prepare d.state d) [ err e ↦ (err e, d) | ok d' ↦ decode_at d' ]
]

-- the push of an opening bracket and the pop of a closing one
abbrev pub enter : TokenState → List Lexeme → Decoder → Decoder
enter s ls d = record d { input = ls; state = s; stack = d.state ∷ d.stack }

abbrev pub leave : List TokenState → List Lexeme → Decoder → Decoder
leave [] ls d = record d { input = ls }
leave (s ∷ ss) ls d = record d { input = ls; state = value_end s; stack = ss }

abbrev pub after_colon : TokenState → Option TokenState
after_colon object_colon = some object_value
after_colon _ = none

abbrev pub after_comma : TokenState → Option TokenState
after_comma array_comma = some array_value
after_comma object_comma = some object_key
after_comma _ = none

abbrev pub key_expected : TokenState → Bool
key_expected object_start = true
key_expected object_key = true
key_expected _ = false

abbrev pub closes_arr : TokenState → Bool
closes_arr array_start = true
closes_arr array_comma = true
closes_arr _ = false

abbrev pub closes_obj : TokenState → Bool
closes_obj object_start = true
closes_obj object_comma = true
closes_obj _ = false

-- a scalar read by `Token`: `Decode` with the checks that the token states have passed
abbrev pub scalar : Token → Raw → List Lexeme → TokenState → Decoder → Result Token × Decoder
scalar t raw ls s d = elim d.failed [
  | some e ↦ (err e, d)
  | none ↦
      (if needs_lookahead raw ls d.tail
        then sticky d.tail d
        else (ok t, record d { input = ls; state = s }))
]

abbrev pub refuse_invalid : Decoder → Result Token × Decoder
refuse_invalid d = elim d.failed [ some e ↦ (err e, d) | none ↦ sticky syntax d ]

-- The loop of `Decoder.Token` at the lexemes `ls` that are left; `d.input` is read on entry only.
unfoldable pub token_at : List Lexeme → Decoder → Result Token × Decoder
token_at [] d = (err d.tail, record d { input = [] })
token_at (delim open_arr ∷ ls) d =
    if value_allowed d.state
    then (ok (delim_token open_arr), enter array_start ls d)
    else (err syntax, d)
token_at (delim close_arr ∷ ls) d =
    if closes_arr d.state then (ok (delim_token close_arr), leave d.stack ls d) else (err syntax, d)
token_at (delim open_obj ∷ ls) d =
    if value_allowed d.state
    then (ok (delim_token open_obj), enter object_start ls d)
    else (err syntax, d)
token_at (delim close_obj ∷ ls) d =
    if closes_obj d.state then (ok (delim_token close_obj), leave d.stack ls d) else (err syntax, d)
token_at (colon ∷ ls) d = elim (after_colon d.state) [
  | none ↦ (err syntax, d)
  | some s ↦ token_at ls (record d { input = ls; state = s })
]
token_at (comma ∷ ls) d = elim (after_comma d.state) [
  | none ↦ (err syntax, d)
  | some s ↦ token_at ls (record d { input = ls; state = s })
]
token_at (string t r ∷ ls) d =
    if key_expected d.state
    then scalar (string_token t) (string t r ∷ []) ls object_colon d
    else if value_allowed d.state
    then scalar (string_token t) (string t r ∷ []) ls (value_end d.state) d
    else (err syntax, d)
token_at (literal b ∷ ls) d =
    if value_allowed d.state
    then scalar (literal_token b) (literal b ∷ []) ls (value_end d.state) d
    else (err syntax, d)
token_at (invalid ∷ ls) d = if value_allowed d.state then refuse_invalid d else (err syntax, d)

-- Decoder.Token
unfoldable pub token : Decoder → Result Token × Decoder
unfolding token_at
token d = token_at d.input d

-- ===== src/Json/Read/Values.antt =====
-- What the decoder does at the lexemes of a printed value.
use couchdb.Common.{true, false, List, ◌∷◌, ◌++◌, none, ◌≡◌, refl, arith}
use couchdb.Errors.{Error, ok}
use couchdb.Json.{
  Lexeme, comma, colon, Raw, TokenState, array_comma, array_value, object_colon, object_value,
  Decoder, value_allowed, value_end,
}
use couchdb.Json.Print.{Value, text, atom, arr, obj, print, scan-print}
use couchdb.Json.Read.{more, needs_lookahead, read_value, decode}

-- a decoder in the middle of its input, with no sticky error
abbrev pub reading : List Lexeme → Error → TokenState → List TokenState → Decoder
reading input tail s k = record { input = input; tail = tail; state = s; stack = k; failed = none }

-- A value begins no closing bracket.
pub more-print : (v : Value) (rest : List Lexeme) → more (print v ++ rest) ≡ true
unfolding more print
more-print (text t r) rest = refl
more-print (atom b) rest = refl
more-print (arr xs) rest = refl
more-print (obj fs) rest = refl

no_lookahead :
    (raw : Raw) (l : Lexeme) (rest : List Lexeme) (e : Error)
    → needs_lookahead raw (l ∷ rest) e ≡ false
no_lookahead raw l rest e = ground arith

module _ (v : Value) (l : Lexeme) (rest : List Lexeme) (e : Error) (k : List TokenState) where
  read_value-print :
      (s : TokenState)
      → read_value (reading (print v ++ l ∷ rest) e s k)
        ≡ (ok (print v), reading (l ∷ rest) e (value_end s) k)
  unfolding read_value
  read_value-print s = rw (scan-print v (l ∷ rest), no_lookahead (print v) l rest e, read_value)

  -- Where the token state allows a value, `Decode` takes exactly the lexemes of that value.
  pub decode-print :
      (s : TokenState)
      → value_allowed s ≡ true
      → decode (reading (print v ++ l ∷ rest) e s k)
        ≡ (ok (print v), reading (l ∷ rest) e (value_end s) k)
  unfolding decode
  decode-print TokenState.top_value h = read_value-print TokenState.top_value
  decode-print TokenState.array_start h = read_value-print TokenState.array_start
  decode-print array_value h = read_value-print array_value
  decode-print object_value h = read_value-print object_value
  decode-print _ h = cc

  -- behind an element of an array `Decode` takes the comma too
  pub decode-comma :
      decode (reading (comma ∷ (print v ++ l ∷ rest)) e array_comma k)
      ≡ (ok (print v), reading (l ∷ rest) e array_comma k)
  unfolding decode
  decode-comma = read_value-print array_value

  -- behind the key of an object it takes the colon
  pub decode-colon :
      decode (reading (colon ∷ (print v ++ l ∷ rest)) e object_colon k)
      ≡ (ok (print v), reading (l ∷ rest) e TokenState.object_comma k)
  unfolding decode
  decode-colon = read_value-print object_value

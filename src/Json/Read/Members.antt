-- ===== src/Json/Read/Members.antt =====
-- The key and the value of an object's member, as `Token` and `Decode` read them.
use couchdb.Common.{
  Bytes, Bool, true, false, List, [], ◌∷◌, none, some, if◌then◌else◌, ◌≡◌, refl, sym, subst, arith,
}
use couchdb.Errors.{
  open_obj, close_obj, open_arr, close_arr, Error, panic, syntax, Err, Result, ok, err,
}
use couchdb.Json.{
  Lexeme, delim, colon, comma, string, literal, invalid, Raw, Token, string_token, TokenState,
  Decoder,
}
use couchdb.Json.Scan.{value, complete, broken, short, scan}
use couchdb.Json.{value_end}
use couchdb.Json.Read.{
  more, token, token_at, scalar, needs_lookahead, sticky, cut_short, read_value, decode, decode_at,
  prepare, expect_colon,
}

abbrev is_panic : Error → Bool
is_panic panic = true
is_panic e = false

abbrev pub panics : Err → Bool
panics none = false
panics (some e) = is_panic e

-- no read of a body panics
abbrev pub Clean : Decoder → Type 0
Clean d = (panics (some d.tail) ≡ false) × (panics d.failed ≡ false)

-- a token where a key is expected
abbrev pub IsKey : Result Token × Decoder → Type 0
IsKey (ok (string_token key), d) = (d.state ≡ TokenState.object_colon) × Clean d
IsKey (ok t, d) = ⊥
IsKey (err e, d) = panics (some e) ≡ false

scalar-IsKey :
    (key raw : Bytes) (ls : List Lexeme) (d : Decoder)
    → Clean d
    → IsKey (scalar (string_token key) (string key raw ∷ []) ls TokenState.object_colon d)
scalar-IsKey key raw ls d (ht, hf) =
    elim d.failed
        as (λ f.
          panics f ≡ false
          → IsKey (elim f [
            | some e ↦ (err e, d)
            | none ↦
                (if needs_lookahead (string key raw ∷ []) ls d.tail then sticky d.tail d else (
                  ok (string_token key),
                  record d { input = ls; state = TokenState.object_colon },
                ))
          ])) [
            | some e ↦ λ h. h
            | none ↦ λ h.
                elim (needs_lookahead (string key raw ∷ []) ls d.tail)
                  as (λ b. IsKey (
                    if b then sticky d.tail d else (
                      ok (string_token key),
                      record d { input = ls; state = TokenState.object_colon },
                    ))) [ true ↦ ht | false ↦ (refl, (ht, hf)) ]
          ]
      hf

after_comma_token :
    (ls : List Lexeme) (d : Decoder)
    → Clean d
    → IsKey (token_at ls (record d { state = TokenState.object_key }))
unfolding token_at
after_comma_token [] d h = h.0
after_comma_token (string key raw ∷ ls) d h = scalar-IsKey key raw ls _ h
after_comma_token (delim open_obj ∷ ls) d h = refl
after_comma_token (delim close_obj ∷ ls) d h = refl
after_comma_token (delim open_arr ∷ ls) d h = refl
after_comma_token (delim close_arr ∷ ls) d h = refl
after_comma_token (colon ∷ ls) d h = refl
after_comma_token (comma ∷ ls) d h = refl
after_comma_token (literal b ∷ ls) d h = refl
after_comma_token (invalid ∷ ls) d h = refl

first_token :
    (ls : List Lexeme) (d : Decoder)
    → more ls ≡ true
    → Clean d
    → IsKey (token_at ls (record d { state = TokenState.object_start }))
unfolding token_at more
first_token [] d m h = h.0
first_token (string key raw ∷ ls) d m h = scalar-IsKey key raw ls _ h
first_token (delim open_obj ∷ ls) d m h = refl
first_token (delim close_obj ∷ ls) d m h = ground arith
first_token (delim open_arr ∷ ls) d m h = refl
first_token (delim close_arr ∷ ls) d m h = refl
first_token (colon ∷ ls) d m h = refl
first_token (comma ∷ ls) d m h = refl
first_token (literal b ∷ ls) d m h = refl
first_token (invalid ∷ ls) d m h = refl

later_token :
    (ls : List Lexeme) (d : Decoder)
    → more ls ≡ true
    → Clean d
    → IsKey (token_at ls (record d { state = TokenState.object_comma }))
unfolding token_at more
later_token [] d m h = h.0
later_token (comma ∷ ls) d m h = after_comma_token ls (record d { input = ls }) h
later_token (delim close_obj ∷ ls) d m h = ground arith
later_token (delim open_obj ∷ ls) d m h = refl
later_token (delim open_arr ∷ ls) d m h = refl
later_token (delim close_arr ∷ ls) d m h = refl
later_token (colon ∷ ls) d m h = refl
later_token (string t r ∷ ls) d m h = refl
later_token (literal b ∷ ls) d m h = refl
later_token (invalid ∷ ls) d m h = refl

-- where a member of the object, or its end, follows
abbrev pub in_object : TokenState → Bool
in_object TokenState.object_start = true
in_object TokenState.object_comma = true
in_object s = false

abbrev pub AtMember : Decoder → Type 0
AtMember d = (in_object d.state ≡ true) × Clean d

pub token-IsKey : (d : Decoder) → AtMember d → more d.input ≡ true → IsKey (token d)
unfolding token
token-IsKey d (s, h) m =
    elim d.state as (λ s. in_object s ≡ true → IsKey (token_at d.input (record d { state = s }))) [
      | TokenState.object_start ↦ λ _. first_token d.input d m h
      | TokenState.object_comma ↦ λ _. later_token d.input d m h
      | _ ↦ λ e. ground arith
    ]
      s

-- a value behind a key, and where the decoder stands behind it
abbrev pub IsValue : Result Raw × Decoder → Type 0
IsValue (ok raw, d) = AtMember d
IsValue (err e, d) = panics (some e) ≡ false

read_value-IsValue :
    (d : Decoder) → d.state ≡ TokenState.object_value → Clean d → IsValue (read_value d)
unfolding read_value
read_value-IsValue d s (ht, hf) =
    elim (scan value [] d.input)
      as (λ v. IsValue (elim v [
        | short ↦ sticky (cut_short d.input d.tail) d
        | broken ↦ sticky syntax d
        | complete raw rest ↦
            (if needs_lookahead raw rest d.tail
              then sticky d.tail d
              else (ok raw, record d { input = rest; state = value_end d.state }))
      ])) [
        | short ↦ cut_short-clean d.input d.tail ht
        | broken ↦ refl
        | complete raw rest ↦
            elim (needs_lookahead raw rest d.tail)
              as (λ b. IsValue (
                if b
                then sticky d.tail d
                else (ok raw, record d { input = rest; state = value_end d.state }))) [
                  | true ↦ ht
                  | false ↦ (rw s refl, (ht, hf))
                ]
      ]
  where
    cut_short-clean :
        (ls : List Lexeme) (e : Error)
        → panics (some e) ≡ false
        → panics (some (cut_short ls e)) ≡ false
    cut_short-clean [] e h = h
    cut_short-clean (l ∷ ls) e h = ground arith

colon-IsValue :
    (ls : List Lexeme) (d : Decoder)
    → Clean d
    → IsValue (elim (expect_colon ls d) [ err e ↦ (err e, d) | ok d' ↦ decode_at d' ])
colon-IsValue [] d h = h.0
colon-IsValue (colon ∷ ls) d h =
    read_value-IsValue (record d { input = ls; state = TokenState.object_value }) refl h
colon-IsValue (l ∷ ls) d h = ground arith

pub decode-IsValue :
    (d : Decoder) → d.state ≡ TokenState.object_colon → Clean d → IsValue (decode d)
unfolding decode
decode-IsValue d s (ht, hf) =
    elim d.failed
        as (λ f.
          panics f ≡ false
          → IsValue (elim f [
            | some e ↦ (err e, d)
            | none ↦ elim (prepare d.state d) [ err e ↦ (err e, d) | ok d' ↦ decode_at d' ]
          ])) [
            | some e ↦ λ h. h
            | none ↦ λ h.
                subst
                  (λ t. IsValue (elim (prepare t d) [ err e ↦ (err e, d) | ok d' ↦ decode_at d' ]))
                  (sym s) (colon-IsValue d.input d (ht, hf))
          ]
      hf

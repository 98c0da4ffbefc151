-- ===== src/Json/Read/Progress.antt =====
-- Every token takes a lexeme off the input, so that a loop over the tokens of a body ends.
use couchdb.Common.{
  ℕ, suc, if◌then◌else◌, ◌<◌, ◌≤◌, Bool, true, false, List, [], ◌∷◌, length, none, some, ◌≡◌, refl,
  arith,
}
use couchdb.Errors.{Error, stuck, panic, syntax, Err, Result, ok, err}
use couchdb.Json.{Lexeme, comma, colon, Raw, Token, TokenState, Decoder, value_allowed, value_end}
use couchdb.Json.Scan.{
  Place, Want, value, proceed, finish, fault, judge, Scanned, complete, broken, short, prepend,
  scan,
}
use couchdb.Json.Read.{
  token_at, token, decode, decode_at, prepare, expect_comma, expect_colon, read_value, sticky,
  cut_short, needs_lookahead,
}

-- no error of the source: what the model gives where its fuel is used up, or a panic
abbrev pub is_lost : Error → Bool
is_lost stuck = true
is_lost panic = true
is_lost e = false

abbrev pub is_lost_err : Err → Bool
is_lost_err none = false
is_lost_err (some e) = is_lost e

-- no read has failed with that error, and none will
abbrev pub Sane : Decoder → Type 0
Sane d = (is_lost d.tail ≡ false) × (is_lost_err d.failed ≡ false)

abbrev pub Progress : ℕ → Result Token × Decoder → Type 0
Progress n (ok t, d) = (length d.input < n) × Sane d
Progress n (err e, d) = is_lost e ≡ false

token_at-Progress :
    (ls : List Lexeme) (d : Decoder) (n : ℕ) → Sane d → length ls ≤ n → Progress n (token_at ls d)
unfolding token_at
token_at-Progress [] d n (ht, hf) le = ht
token_at-Progress (colon ∷ ls) d n (ht, hf) le =
    elim d.state as (λ s. Progress n (token_at (colon ∷ ls) (record d { state = s }))) [
      | TokenState.object_colon ↦
          token_at-Progress ls (record d { input = ls; state = TokenState.object_value }) n (ht, hf)
            (omega arith)
      | _ ↦ refl
    ]
token_at-Progress (comma ∷ ls) d n (ht, hf) le =
    elim d.state as (λ s. Progress n (token_at (comma ∷ ls) (record d { state = s }))) [
      | TokenState.array_comma ↦
          token_at-Progress ls (record d { input = ls; state = TokenState.array_value }) n (ht, hf)
            (omega arith)
      | TokenState.object_comma ↦
          token_at-Progress ls (record d { input = ls; state = TokenState.object_key }) n (ht, hf)
            (omega arith)
      | _ ↦ refl
    ]
token_at-Progress (l ∷ ls) d n (ht, hf) le = ground arith

pub token-Progress : (d : Decoder) → Sane d → Progress (length d.input) (token d)
unfolding token
token-Progress d h = token_at-Progress d.input d (length d.input) h (omega arith)

-- what `Decode` leaves: less input than before, or an error that the source has and no more input
abbrev pub Steady {ℓ} : {A : Type ℓ} → ℕ → Result A × Decoder → Type 0
Steady n (ok a, d) = Sane d × (length d.input < n)
Steady n (err e, d) = (is_lost e ≡ false) × Sane d × (length d.input ≤ n)

abbrev IsShorter : ℕ → Scanned → Type 0
IsShorter n (complete raw rest) = length rest < n
IsShorter n s = Unit

scan-IsShorter :
    (w : Want) (ps : List Place) (ls : List Lexeme) → IsShorter (length ls) (scan w ps ls)
unfolding scan
scan-IsShorter w ps [] = tt
scan-IsShorter w ps (l ∷ ls) =
    elim (judge w ps l)
      as (λ j. IsShorter (suc (length ls)) (elim j [
        | proceed w' qs ↦ prepend l (scan w' qs ls)
        | finish ↦ complete (l ∷ []) ls
        | fault ↦ broken
      ])) [
        | proceed w' qs ↦ prepend-IsShorter l (length ls) (scan w' qs ls) (scan-IsShorter w' qs ls)
        | finish ↦ omega arith
        | fault ↦ tt
      ]
  where
    prepend-IsShorter :
        (l : Lexeme) (n : ℕ) (s : Scanned) → IsShorter n s → IsShorter (suc n) (prepend l s)
    prepend-IsShorter l n (complete raw rest) h = omega arith
    prepend-IsShorter l n broken h = tt
    prepend-IsShorter l n short h = tt

cut_short-sane :
    (ls : List Lexeme) (e : Error) → is_lost e ≡ false → is_lost (cut_short ls e) ≡ false
cut_short-sane [] e h = h
cut_short-sane (l ∷ ls) e h = ground arith

read_value-Steady : (d : Decoder) (n : ℕ) → Sane d → length d.input ≤ n → Steady n (read_value d)
unfolding read_value
read_value-Steady d n (ht, hf) le =
    elim (scan value [] d.input)
        as (λ s.
          IsShorter (length d.input) s
          → Steady {A = Raw} n (elim s [
            | short ↦ sticky (cut_short d.input d.tail) d
            | broken ↦ sticky syntax d
            | complete raw rest ↦
                (if needs_lookahead raw rest d.tail
                  then sticky d.tail d
                  else (ok raw, record d { input = rest; state = value_end d.state }))
          ])) [
            | short ↦
                λ h. (cut_short-sane d.input d.tail ht, (ht, cut_short-sane d.input d.tail ht), le)
            | broken ↦ λ h. (refl, (ht, refl), le)
            | complete raw rest ↦ λ h.
                elim (needs_lookahead raw rest d.tail)
                  as (λ b. Steady {A = Raw} n (
                    if b
                    then sticky d.tail d
                    else (ok raw, record d { input = rest; state = value_end d.state }))) [
                      | true ↦ (ht, (ht, ht), le)
                      | false ↦ ((ht, hf), omega arith)
                    ]
          ]
      (scan-IsShorter value [] d.input)

decode_at-Steady : (d : Decoder) (n : ℕ) → Sane d → length d.input ≤ n → Steady n (decode_at d)
decode_at-Steady d n h le =
    elim (value_allowed d.state)
      as (λ b. Steady {A = Raw} n (if b then read_value d else (err syntax, d))) [
        | true ↦ read_value-Steady d n h le
        | false ↦ (refl, h, le)
      ]

-- what tokenPrepareForDecode leaves
abbrev Prepared : ℕ → Result Decoder → Type 0
Prepared n (ok d) = Sane d × (length d.input ≤ n)
Prepared n (err e) = is_lost e ≡ false

expect_comma-Prepared :
    (ls : List Lexeme) (d : Decoder) → Sane d → Prepared (length ls) (expect_comma ls d)
expect_comma-Prepared [] d (ht, hf) = ht
expect_comma-Prepared (comma ∷ ls) d h = (h, omega arith)
expect_comma-Prepared (l ∷ ls) d h = ground arith

expect_colon-Prepared :
    (ls : List Lexeme) (d : Decoder) → Sane d → Prepared (length ls) (expect_colon ls d)
expect_colon-Prepared [] d (ht, hf) = ht
expect_colon-Prepared (colon ∷ ls) d h = (h, omega arith)
expect_colon-Prepared (l ∷ ls) d h = ground arith

prepare-Prepared : (s : TokenState) (d : Decoder) → Sane d → Prepared (length d.input) (prepare s d)
prepare-Prepared TokenState.array_comma d h = expect_comma-Prepared d.input d h
prepare-Prepared TokenState.object_colon d h = expect_colon-Prepared d.input d h
prepare-Prepared s d h = ground arith

-- Decode never panics nor runs out of rounds, and takes a lexeme off the input where it gives a value.
pub decode-Steady : (d : Decoder) → Sane d → Steady (length d.input) (decode d)
unfolding decode
decode-Steady d h =
    elim d.failed
        as (λ f.
          is_lost_err f ≡ false
          → Steady {A = Raw} (length d.input) (elim f [
            | some e ↦ (err e, d)
            | none ↦ elim (prepare d.state d) [ err e ↦ (err e, d) | ok d' ↦ decode_at d' ]
          ])) [
            | some e ↦ λ hf. (hf, h, omega arith)
            | none ↦ λ hf.
                elim (prepare d.state d)
                    as (λ p.
                      Prepared (length d.input) p
                      → Steady {A = Raw} (length d.input)
                          (elim p [ err e ↦ (err e, d) | ok d' ↦ decode_at d' ])) [
                            | err e ↦ λ hp. (hp, h, omega arith)
                            | ok d' ↦ λ hp. decode_at-Steady d' (length d.input) hp.0 hp.1
                          ]
                  (prepare-Prepared d.state d h)
          ]
      h.1

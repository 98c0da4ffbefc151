-- ===== src/Iter/Ends.antt =====
-- What the parts of `begin` leave of the input: every round of its loop takes a key off it.
pub mod Finish
pub mod Next
pub mod Parsers
use couchdb.Common.{
  ℕ, zero, suc, ◌<◌, ◌≤◌, Bytes, str, equal, is_empty, Bool, true, false, ◌&&◌, not, List, [], ◌∷◌,
  Option, none, some, length, if◌then◌else◌, ◌≡◌, refl, arith,
}
use couchdb.Errors.{
  Delim, open_obj, close_obj, open_arr, close_arr, Error, eof, message, stuck, bad_gateway, Err,
  Result, ok, err, and_then,
}
use couchdb.Json.{Token, delim_token, string_token, literal_token, Decoder}
use couchdb.Json.Read.{more, token}
use couchdb.Json.Read.Progress.{is_lost, is_lost_err, Sane, Progress, token-Progress}
use couchdb.Iter.{
  Parser, Work, check_delim, check_token, consume_delim, as_key, next_key, run_meta, parse_meta,
  with_dec, begin_loop, begin, finish_loop, finish_body, unless_eof, token_error,
}

-- What a part of `begin` and `finish` leaves: no more input than `n`, or an error of the source.
abbrev pub EndsAt : {Meta : Type 0} → ℕ → Err × Work Meta → Type 0
EndsAt n (none, w) = Sane w.dec × (length w.dec.input ≤ n)
EndsAt n (some e, w) = is_lost e ≡ false

-- the same of a reader of one value
abbrev pub Keeps : {A : Type 0} → ℕ → Err × A × Decoder → Type 0
Keeps n (none, a, d) = Sane d × (length d.input ≤ n)
Keeps n (some e, a, d) = is_lost e ≡ false

-- where it takes a lexeme off the input
abbrev pub Takes : {A : Type 0} → ℕ → Err × A × Decoder → Type 0
Takes n (none, a, d) = Sane d × (length d.input < n)
Takes n (some e, a, d) = (is_lost e ≡ false) × Sane d

-- Neither method of a parser panics or runs out of rounds; decodeItem takes its item off the input, and
-- parseMeta does not lengthen it.
abbrev pub KeepsMeta :
    {Meta : Type 0} → Option (Bytes → Meta → Decoder → Err × Meta × Decoder) → Type 0
KeepsMeta none = Unit
KeepsMeta {Meta} (some parse) =
    (key : Bytes) (m : Meta) (d : Decoder) → Sane d → Keeps (length d.input) (parse key m d)

pub record IsSteady {Meta Row : Type 0} (p : Parser Meta Row) : Type 0 where
  pub item : (row : Row) (d : Decoder) → Sane d → Takes (length d.input) (p.decode_item row d)
  pub meta : KeepsMeta p.parse_meta

-- a delimiter: a lexeme is gone
abbrev pub Consumed : ℕ → Err × Decoder → Type 0
Consumed n (none, d) = Sane d × (length d.input < n)
Consumed n (some e, d) = is_lost e ≡ false

check_delim-sane : (a b : Delim) → is_lost_err (check_delim a b) ≡ false
check_delim-sane a b = ground arith

check-Consumed :
    (expected : Delim) (n : ℕ) (x : Result Token × Decoder)
    → Progress n x
    → Consumed n (check_token expected x.0, x.1)
check-Consumed expected n (err e, d) h = refl
check-Consumed expected n (ok (delim_token t), d) h =
    elim (check_delim expected t) as (λ c. is_lost_err c ≡ false → Consumed n (c, d)) [
      | none ↦ λ _. (h.1, h.0)
      | some e ↦ λ s. s
    ]
      (check_delim-sane expected t)
check-Consumed expected n (ok (string_token t), d) h = refl
check-Consumed expected n (ok (literal_token t), d) h = refl

pub consume_delim-Consumed :
    (expected : Delim) (d : Decoder) → Sane d → Consumed (length d.input) (consume_delim expected d)
unfolding consume_delim
consume_delim-Consumed expected d h =
    check-Consumed expected (length d.input) (token d) (token-Progress d h)

pub with_dec-EndsAt :
    {Meta : Type 0} (w : Work Meta) (n m : ℕ) (x : Err × Decoder)
    → Consumed n x
    → n ≤ m
    → EndsAt m (with_dec w x)
with_dec-EndsAt w n m (none, d) h le = (h.0, omega (arith, h.1))
with_dec-EndsAt w n m (some e, d) h le = h

kept :
    {Meta : Type 0} (n : ℕ) (x : Err × Meta × Decoder)
    → Keeps n x
    → EndsAt n (x.0, record { meta = some x.1; dec = x.2 })
kept n (none, m, d) h = h
kept n (some e, m, d) h = h

run_meta-EndsAt :
    {Meta : Type 0} (parse : Option (Bytes → Meta → Decoder → Err × Meta × Decoder))
    (meta : Option Meta) (key : Bytes) (d : Decoder)
    → KeepsMeta parse
    → Sane d
    → EndsAt (length d.input) (run_meta parse meta key d)
run_meta-EndsAt parse none key d h sane = (sane, omega arith)
run_meta-EndsAt none (some m) key d h sane = (sane, omega arith)
run_meta-EndsAt (some parse) (some m) key d h sane =
    kept (length d.input) (parse key m d) (h key m d sane)

pub and_then-EndsAt :
    {Meta : Type 0} (n m : ℕ) (x : Err × Work Meta) (k : Work Meta → Err × Work Meta)
    → EndsAt n x
    → ((w : Work Meta) → Sane w.dec → length w.dec.input ≤ n → EndsAt m (k w))
    → EndsAt m (and_then x k)
and_then-EndsAt n m (none, w) k h next = next w h.0 h.1
and_then-EndsAt n m (some e, w) k h next = h

module _ {Meta Row : Type 0} (p : Parser Meta Row) (steady : IsSteady p) where
  pub parse_meta-EndsAt :
      (key : Bytes) (w : Work Meta) → Sane w.dec → EndsAt (length w.dec.input) (parse_meta p key w)
  unfolding parse_meta
  parse_meta-EndsAt key w h = run_meta-EndsAt p.parse_meta w.meta key w.dec steady.meta h

  -- a round of the loop of `begin`, whose key is the token `x`
  begin_round :
      (k : Work Meta → Err × Work Meta) (expected : Bytes) (w : Work Meta) (n : ℕ)
      (x : Result Token × Decoder)
      → Progress n x
      → ((w' : Work Meta) → Sane w'.dec → length w'.dec.input < n → EndsAt n (k w'))
      → EndsAt {Meta = Meta} n (elim (as_key x.0) [
        | err e ↦ (some e, record w { dec = x.1 })
        | ok key ↦ elim (equal key expected) [
          | true ↦ with_dec w (consume_delim open_arr x.1)
          | false ↦ and_then (parse_meta p key (record w { dec = x.1 })) k
        ]
      ])
  begin_round k expected w n (err e, d) h ih = h
  begin_round k expected w n (ok (delim_token t), d) h ih = refl
  begin_round k expected w n (ok (literal_token t), d) h ih = refl
  begin_round k expected w n (ok (string_token key), d) (lt, sane) ih =
      elim (equal key expected)
        as (λ b. EndsAt {Meta = Meta} n (elim b [
          | true ↦ with_dec w (consume_delim open_arr d)
          | false ↦ and_then (parse_meta p key (record w { dec = d })) k
        ])) [
          | true ↦
              with_dec-EndsAt w (length d.input) n _ (consume_delim-Consumed open_arr d sane)
                (omega arith)
          | false ↦
              and_then-EndsAt (length d.input) n (parse_meta p key (record w { dec = d })) k
                (parse_meta-EndsAt key (record w { dec = d }) sane)
                (λ w' s le. ih w' s (omega arith))
        ]

  pub weaken : (n m : ℕ) (x : Err × Work Meta) → EndsAt n x → n ≤ m → EndsAt m x
  weaken n m (none, w) h le = (h.0, omega (arith, h.1))
  weaken n m (some e, w) h le = h

  begin_loop-EndsAt :
      (f : ℕ) (expected : Bytes) (w : Work Meta)
      → Sane w.dec
      → length w.dec.input < f
      → EndsAt (length w.dec.input) (begin_loop p f expected w)
  unfolding begin_loop next_key
  begin_loop-EndsAt zero expected w h lt = elim lt [ ]
  begin_loop-EndsAt (suc f) expected w h lt =
      begin_round (begin_loop p f expected) expected w (length w.dec.input) (token w.dec)
        (token-Progress w.dec h)
        (λ w' s lt'.
          weaken (length w'.dec.input) (length w.dec.input) _
            (begin_loop-EndsAt f expected w' s (omega arith)) (omega arith))

  pub begin-EndsAt :
      (expected : Bytes) (obj_mode : Bool) (w : Work Meta)
      → Sane w.dec
      → EndsAt (length w.dec.input) (begin p expected obj_mode w)
  unfolding begin
  begin-EndsAt expected obj_mode w h =
      elim (is_empty expected && not obj_mode)
        as (λ b. EndsAt (length w.dec.input) (
          if b
          then (none, w)
          else and_then (with_dec w (consume_delim open_obj w.dec)) (λ w'.
            if obj_mode
            then (none, w')
            else begin_loop p (suc (length w'.dec.input)) expected w'))) [
              | true ↦ (h, omega arith)
              | false ↦
                  and_then-EndsAt (length w.dec.input) (length w.dec.input)
                    (with_dec w (consume_delim open_obj w.dec)) _
                    (with_dec-EndsAt w (length w.dec.input) (length w.dec.input) _
                      (consume_delim-Consumed open_obj w.dec h) (omega arith))
                    (λ w' s le.
                      elim obj_mode
                        as (λ o. EndsAt (length w.dec.input) (
                          if o
                          then (none, w')
                          else begin_loop p (suc (length w'.dec.input)) expected w')) [
                            | true ↦ (s, le)
                            | false ↦
                                weaken (length w'.dec.input) (length w.dec.input) _
                                  (begin_loop-EndsAt (suc (length w'.dec.input)) expected w' s
                                    (omega arith))
                                  le
                          ])
            ]

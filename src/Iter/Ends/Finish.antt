-- ===== src/Iter/Ends/Finish.antt =====
-- What `finish` leaves: it never runs out of rounds.
use couchdb.Common.{
  ℕ, zero, suc, ◌<◌, Bytes, str, is_empty, Bool, true, false, ◌&&◌, not, none, some, length,
  if◌then◌else◌, ◌≡◌, refl, arith,
}
use couchdb.Errors.{
  open_obj, close_obj, open_arr, close_arr, message, Err, Result, ok, err, and_then,
}
use couchdb.Json.{Token, delim_token, string_token, literal_token, Decoder}
use couchdb.Json.Read.{more, token}
use couchdb.Json.Read.Progress.{is_lost_err, Sane, Progress, token-Progress}
use couchdb.Iter.{
  Parser, Work, Iter, consume_delim, parse_meta, with_dec, finish_loop, finish_body, unless_eof,
  token_error, close, close_body, closing, finish,
}
use couchdb.Iter.Ends.{
  EndsAt, IsSteady, Consumed, consume_delim-Consumed, with_dec-EndsAt, and_then-EndsAt,
  parse_meta-EndsAt, weaken,
}

abbrev NotLost : {A : Type 0} → Err × A → Type 0
NotLost (e, a) = is_lost_err e ≡ false

EndsAt-NotLost : {Meta : Type 0} (n : ℕ) (x : Err × Work Meta) → EndsAt n x → NotLost x
EndsAt-NotLost n (none, w) h = refl
EndsAt-NotLost n (some e, w) h = h

unless_eof-sane : (e : Err) → is_lost_err e ≡ false → is_lost_err (unless_eof e) ≡ false
unless_eof-sane none h = refl
unless_eof-sane (some e) h = ground arith

token_error-sane :
    (n : ℕ) (x : Result Token × Decoder) → Progress n x → is_lost_err (token_error x.0) ≡ false
token_error-sane n (ok t, d) h = refl
token_error-sane n (err e, d) h = h

Consumed-sane : (n : ℕ) (x : Err × Decoder) → Consumed n x → is_lost_err x.0 ≡ false
Consumed-sane n (none, d) h = refl
Consumed-sane n (some e, d) h = h

module _ {Meta Row : Type 0} (p : Parser Meta Row) (steady : IsSteady p) where
  finish_round :
      (k : Work Meta → Err × Work Meta) (w : Work Meta) (n : ℕ) (x : Result Token × Decoder)
      → Progress n x
      → ((w' : Work Meta) → Sane w'.dec → length w'.dec.input < n → EndsAt n (k w'))
      → EndsAt {Meta = Meta} n (elim x.0 [
        | err e ↦ (some e, record w { dec = x.1 })
        | ok (delim_token close_obj) ↦ k (record w { dec = x.1 })
        | ok (string_token key) ↦ and_then (parse_meta p key (record w { dec = x.1 })) k
        | ok t' ↦ (some (message (str "Unexpected JSON token")), record w { dec = x.1 })
      ])
  finish_round k w n (err e, d) h ih = h
  finish_round k w n (ok (delim_token close_obj), d) (lt, sane) ih =
      ih (record w { dec = d }) sane lt
  finish_round k w n (ok (string_token key), d) (lt, sane) ih =
      and_then-EndsAt (length d.input) n (parse_meta p key (record w { dec = d })) k
        (parse_meta-EndsAt p steady key (record w { dec = d }) sane)
        (λ w' s le. ih w' s (omega arith))
  finish_round k w n (ok (delim_token open_obj), d) h ih = refl
  finish_round k w n (ok (delim_token open_arr), d) h ih = refl
  finish_round k w n (ok (delim_token close_arr), d) h ih = refl
  finish_round k w n (ok (literal_token t), d) h ih = refl

  finish_loop-EndsAt :
      (f : ℕ) (w : Work Meta)
      → Sane w.dec
      → length w.dec.input < f
      → EndsAt (length w.dec.input) (finish_loop p f w)
  unfolding finish_loop
  finish_loop-EndsAt zero w h lt = elim lt [ ]
  finish_loop-EndsAt (suc f) w h lt =
      elim (more w.dec.input)
        as (λ b. EndsAt {Meta = Meta} (length w.dec.input) (elim b [
          | false ↦ with_dec w (consume_delim close_obj w.dec)
          | true ↦
              (let (t, d) = token w.dec in
                elim t [
                  | err e ↦ (some e, record w { dec = d })
                  | ok (delim_token close_obj) ↦ finish_loop p f (record w { dec = d })
                  | ok (string_token key) ↦
                      and_then (parse_meta p key (record w { dec = d })) (finish_loop p f)
                  | ok t' ↦ (some (message (str "Unexpected JSON token")), record w { dec = d })
                ])
        ])) [
          | false ↦
              with_dec-EndsAt w (length w.dec.input) (length w.dec.input) _
                (consume_delim-Consumed close_obj w.dec h) (omega arith)
          | true ↦
              finish_round (finish_loop p f) w (length w.dec.input) (token w.dec)
                (token-Progress w.dec h)
                (λ w' s lt'.
                  weaken p steady (length w'.dec.input) (length w.dec.input) _
                    (finish_loop-EndsAt f w' s (omega arith)) (omega arith))
        ]

  finish_body-NotLost :
      (expected : Bytes) (obj_mode : Bool) (w : Work Meta)
      → Sane w.dec
      → NotLost (finish_body p expected obj_mode w)
  unfolding finish_body
  finish_body-NotLost expected obj_mode w h =
      elim (is_empty expected && not obj_mode)
        as (λ b. NotLost {A = Work Meta} (
          if b
          then (let (t, d) = token w.dec in (unless_eof (token_error t), record w { dec = d }))
          else if obj_mode
          then (let (e, d) = consume_delim close_obj w.dec in (unless_eof e, record w { dec = d }))
          else and_then (with_dec w (consume_delim close_arr w.dec))
              (λ w'. finish_loop p (suc (length w'.dec.input)) w'))) [
                | true ↦
                    unless_eof-sane _
                      (token_error-sane (length w.dec.input) (token w.dec) (token-Progress w.dec h))
                | false ↦
                    elim obj_mode
                      as (λ o. NotLost {A = Work Meta} (
                        if o
                        then (let (e, d) = consume_delim close_obj w.dec in
                            (unless_eof e, record w { dec = d }))
                        else and_then (with_dec w (consume_delim close_arr w.dec))
                            (λ w'. finish_loop p (suc (length w'.dec.input)) w'))) [
                              | true ↦ unless_eof-sane _ (
                                  Consumed-sane (length w.dec.input) _
                                    (consume_delim-Consumed close_obj w.dec h))
                              | false ↦ EndsAt-NotLost (length w.dec.input) _ (
                                  and_then-EndsAt (length w.dec.input) (length w.dec.input)
                                    (with_dec w (consume_delim close_arr w.dec)) _
                                    (with_dec-EndsAt w (length w.dec.input) (length w.dec.input) _
                                      (consume_delim-Consumed close_arr w.dec h) (omega arith))
                                    (λ w' s le.
                                      weaken p steady (length w'.dec.input) (length w.dec.input) _
                                        (finish_loop-EndsAt (suc (length w'.dec.input)) w' s
                                          (omega arith))
                                        le))
                            ]
              ]

  closing-sane :
      (i : Iter Meta) (x : Err × Work Meta)
      → is_lost_err (close_body i.body).0 ≡ false
      → NotLost x
      → is_lost_err (closing p i x).0 ≡ false
  unfolding close
  closing-sane i (none, w) hb h = hb
  closing-sane i (some e, w) hb h = h

  pub finish_never_lost :
      (i : Iter Meta) (d : Decoder)
      → is_lost_err (close_body i.body).0 ≡ false
      → Sane d
      → is_lost_err (finish p i d).0 ≡ false
  unfolding finish
  finish_never_lost i d hb h =
      closing-sane i (finish_body p i.expected_key i.obj_mode (record { meta = i.meta; dec = d }))
        hb (finish_body-NotLost i.expected_key i.obj_mode (record { meta = i.meta; dec = d }) h)

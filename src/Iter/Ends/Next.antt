-- ===== src/Iter/Ends/Next.antt =====
-- Every call of `next` ends, and so does a client that calls it until it gets an error.
use couchdb.Common.{
  ℕ, zero, suc, ◌<◌, ◌≤◌, true, false, Option, none, some, length, if◌then◌else◌, ◌≡◌, refl, arith,
}
use couchdb.Errors.{eof, Err}
use couchdb.Json.{Decoder}
use couchdb.Json.Read.{more}
use couchdb.Json.Read.Progress.{is_lost, is_lost_err, Sane}
use couchdb.Iter.{
  Parser, Work, Iter, begin, close_body, update, finish, ending, settle, next_row, next_item,
  after_begin, next,
}
use couchdb.Iter.Drain.{Drained, add_row, stop_or, drain}
use couchdb.Iter.Ends.Finish.{finish_never_lost}
use couchdb.Iter.Ends.{EndsAt, Takes, IsSteady, begin-EndsAt}

abbrev pub chosen : Decoder → Option Decoder → Decoder
chosen source none = source
chosen source (some d) = d

-- the decoder that the next call of `next` reads
abbrev pub current : {Meta : Type 0} → Iter Meta → Decoder
current i = chosen i.source i.dec

-- the lexemes that are left
abbrev pub left : {Meta : Type 0} → Iter Meta → ℕ
left i = length (current i).input

-- no read of the body panics, nor does closing it, and neither fails for want of rounds
abbrev pub Ready : {Meta : Type 0} → Iter Meta → Type 0
Ready i = Sane (current i) × (is_lost_err (close_body i.body).0 ≡ false)

-- What a call of `next` gives where `n` lexemes were left: a row, for which one of them is gone, or an
-- error of the source.
abbrev pub Ends : {Meta Row : Type 0} → ℕ → Err × Row × Iter Meta → Type 0
Ends n (none, row, i) = Ready i × (left i < n)
Ends n (some e, row, i) = is_lost e ≡ false

module _ {Meta Row : Type 0} (p : Parser Meta Row) (steady : IsSteady p) where
  next_row-Takes : (row : Row) (d : Decoder) → Sane d → Takes (length d.input) (next_row p row d)
  unfolding next_row
  next_row-Takes row d h =
      elim (more d.input)
        as (λ b.
          Takes {A = Row} (length d.input)
            (if b then p.decode_item row d else (some eof, row, d))) [
              | true ↦ steady.item row d h
              | false ↦ (refl, h)
            ]

  ending-Ends :
      (n : ℕ) (row : Row) (x : Err × Iter Meta) → is_lost_err x.0 ≡ false → Ends n (ending p row x)
  ending-Ends n row (none, i) h = refl
  ending-Ends n row (some e, i) h = h

  settle-Ends :
      (i : Iter Meta) (n : ℕ) (x : Err × Row × Decoder)
      → is_lost_err (close_body i.body).0 ≡ false
      → Takes n x
      → Ends n (settle p i x)
  settle-Ends i n (none, row, d) hb h = ((h.0, hb), h.1)
  settle-Ends i n (some eof, row, d) hb h =
      ending-Ends n row (finish p i d) (finish_never_lost p steady i d hb h.1)
  settle-Ends i n (some e, row, d) hb h = ground arith

  Ends-weaken : (n m : ℕ) (x : Err × Row × Iter Meta) → Ends n x → n ≤ m → Ends m x
  Ends-weaken n m (none, row, i) h le = (h.0, omega (arith, h.1))
  Ends-weaken n m (some e, row, i) h le = h

  after_begin-Ends :
      (row : Row) (i : Iter Meta) (n : ℕ) (x : Err × Work Meta)
      → is_lost_err (close_body i.body).0 ≡ false
      → EndsAt n x
      → Ends n (after_begin p row i x)
  unfolding next_item
  after_begin-Ends row i n (some e, w) hb h = refl
  after_begin-Ends row i n (none, w) hb h =
      Ends-weaken (length w.dec.input) n _
        (settle-Ends (update i w) (length w.dec.input) (next_row p row w.dec) hb
          (next_row-Takes row w.dec h.0))
        h.1

  -- Whatever the iterator and the input: a call of `next` gives a row, for which a lexeme is gone, and
  -- the iterator is ready for the next call, or it gives an error that the source has: the rounds
  -- that the model allows are enough. The parser is steady, and reading
  -- and closing the body do not panic.
  pub next-Ends : (row : Row) (i : Iter Meta) → Ready i → Ends (left i) (next p row i)
  unfolding next next_item
  next-Ends row i (h, hb) =
      elim i.closed
        as (λ b. Ends {Meta = Meta} {Row = Row} (left i) (
          if b then (some eof, row, i) else elim i.dec [
            | some d ↦ next_item p row i d
            | none ↦
                after_begin p row i
                  (begin p i.expected_key i.obj_mode (record { meta = i.meta; dec = i.source }))
          ])) [
            | true ↦ refl
            | false ↦
                elim i.dec
                    as (λ o.
                      Sane (chosen i.source o)
                      → Ends {Meta = Meta} {Row = Row} (length (chosen i.source o).input) (elim o [
                        | some d ↦ next_item p row i d
                        | none ↦ after_begin p row i (
                            begin p i.expected_key i.obj_mode
                              (record { meta = i.meta; dec = i.source }))
                      ])) [
                        | some d ↦ λ s.
                            settle-Ends i (length d.input) (next_row p row d) hb
                              (next_row-Takes row d s)
                        | none ↦ λ s. after_begin-Ends row i (length i.source.input) _ hb (
                            begin-EndsAt p steady i.expected_key i.obj_mode
                              (record { meta = i.meta; dec = i.source }) s)
                      ]
                  h
          ]

-- what a client's loop over the rows ends with
abbrev pub Stops : {Meta Row : Type 0} → Drained Meta Row → Type 0
Stops (rows, none, i) = ⊥
Stops (rows, some e, i) = is_lost e ≡ false

Stops-add_row :
    {Meta Row : Type 0} (row : Row) (x : Drained Meta Row) → Stops x → Stops (add_row row x)
Stops-add_row row (rows, none, i) h = h
Stops-add_row row (rows, some e, i) h = h

Stops-stop_or :
    {Meta Row : Type 0} (n : ℕ) (x : Err × Row × Iter Meta) (k : Row → Iter Meta → Drained Meta Row)
    → Ends n x
    → ((row : Row) (i : Iter Meta) → Ready i → left i < n → Stops (k row i))
    → Stops (stop_or x k)
Stops-stop_or n (none, row, i) k h ih = Stops-add_row row (k row i) (ih row i h.0 h.1)
Stops-stop_or n (some e, row, i) k h ih = h

-- Whatever the server sends: a client that calls `next` until it gets an error gets one, after at most
-- as many rows as there are lexemes left, and it is an error that the source returns, no panic. The
-- parser is steady: its decodeItem takes its item off the input, its parseMeta does not lengthen the
-- input, and neither panics, so that it is not the one of a bulk get, which panics for an empty list
-- of documents; reading the body and closing it do not panic either.
pub drain-Stops :
    {Meta Row : Type 0} (p : Parser Meta Row) (n : ℕ) (row : Row) (i : Iter Meta)
    → IsSteady p
    → Ready i
    → left i < n
    → Stops (drain p n row i)
unfolding drain
drain-Stops p zero row i steady h lt = elim lt [ ]
drain-Stops p (suc n) row i steady h lt =
    Stops-stop_or (left i) (next p row i) (drain p n) (next-Ends p steady row i h)
      (λ row' i' h' lt'. drain-Stops p n row' i' steady h' (omega arith))

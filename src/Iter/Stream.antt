-- ===== src/Iter/Stream.antt =====
-- A feed with no object around its rows: a continuous changes feed, or the database updates.
use couchdb.Common.{
  ℕ, zero, suc, ◌<◌, true, List, [], ◌∷◌, ◌++◌, Option, none, some, ◌≡◌, refl, ap, ◌∙◌, arith,
  length, if◌then◌else◌, Bool-cases, inl, inr,
}
use couchdb.Errors.{Error, eof, bad_gateway, ok}
use couchdb.Json.{Lexeme, top_value, Decoder, Raw, new_decoder}
use couchdb.Json.Print.{Value, obj, Fields, print, scan-print}
use couchdb.Json.Read.{is_eof, token, decode, read_value, more}
use couchdb.Json.Read.Values.{reading, more-print}
use couchdb.Iter.{Parser, Iter, new_iter, next, next_row, settle}
use couchdb.Iter.Body.{Reader, close_reader}
use couchdb.Iter.Drain.{drain, stop_or, add_row}

-- the feed, one object behind the other
unfoldable pub feed : List Fields → Raw
feed [] = []
feed (fs ∷ rows) = print (obj fs) ++ feed rows

-- at the top level an object ends with its brace, whatever follows
decode-object :
    (fs : Fields) (rest : List Lexeme) (e : Error)
    → decode (reading (print (obj fs) ++ rest) e top_value [])
      ≡ (ok (print (obj fs)), reading rest e top_value [])
unfolding decode read_value
decode-object fs rest e = rw (scan-print (obj fs) rest, read_value) (unfold print in refl)

-- the error of the last call
abbrev pub feed_error : Error → Error
feed_error e = if is_eof e then eof else bad_gateway e

module _ {Meta Row : Type 0} (p : Parser Meta Row) (f : Row → Value → Row) where
  abbrev pub ReadsObject : Fields → Type 0
  ReadsObject fs =
      (r : Row) (d d' : Decoder)
      → decode d ≡ (ok (print (obj fs)), d')
      → p.decode_item r d ≡ (none, f r (obj fs), d')

  abbrev pub AllRead : List Fields → Type 0
  AllRead [] = Unit
  AllRead (fs ∷ rows) = ReadsObject fs × AllRead rows

  abbrev pub given : Row → List Fields → List Row
  given r [] = []
  given r (fs ∷ rows) = f r (obj fs) ∷ given (f r (obj fs)) rows

  module _ (meta : Option Meta) (b : Reader) (source : Decoder) (e : Error) where
    abbrev at_feed : Decoder → Iter Meta
    at_feed d = record (new_iter meta [] b source) { dec = some d }

    abbrev pub stopped : Iter Meta
    stopped = record (at_feed (reading [] e top_value [])) {
      body = some (close_reader b).1;
      closed = true;
    }

    next-end :
        (row : Row)
        → (close_reader b).0 ≡ none
        → next p row (at_feed (reading [] e top_value [])) ≡ (some (feed_error e), row, stopped)
    unfolding next token more
    next-end row clean = elim (Bool-cases (is_eof e)) [
      | inl h ↦ rw (clean, h)
      | inr h ↦ rw (clean, h)
    ]

    next_row-object :
        (fs : Fields) (rest : List Lexeme) (row : Row)
        → ReadsObject fs
        → next_row p row (reading (print (obj fs) ++ rest) e top_value [])
          ≡ (none, f row (obj fs), reading rest e top_value [])
    unfolding next_row
    next_row-object fs rest row h =
        rw (more-print (obj fs) rest, next_row) (h row _ _ (decode-object fs rest e))

    next-object :
        (fs : Fields) (rows : List Fields) (row : Row)
        → ReadsObject fs
        → next p row (at_feed (reading (feed (fs ∷ rows)) e top_value []))
          ≡ (none, f row (obj fs), at_feed (reading (feed rows) e top_value []))
    unfolding next feed
    next-object fs rows row h =
        ap (settle p (at_feed (reading (feed (fs ∷ rows)) e top_value [])))
          (next_row-object fs (feed rows) row h)

    drain-rows :
        (rows : List Fields) (row : Row) (n : ℕ)
        → (close_reader b).0 ≡ none
        → AllRead rows
        → length rows < n
        → drain p n row (at_feed (reading (feed rows) e top_value []))
          ≡ (given row rows, some (feed_error e), stopped)
    unfolding drain feed
    drain-rows rows row zero clean h lt = elim lt [ ]
    drain-rows [] row (suc n) clean h lt = ap (λ q. stop_or q (drain p n)) (next-end row clean)
    drain-rows (fs ∷ rows) row (suc n) clean (hd, h) lt =
        ap (λ q. stop_or q (drain p n)) (next-object fs rows row hd)
        ∙ ap (add_row (f row (obj fs))) (drain-rows rows (f row (obj fs)) n clean h (omega arith))

-- A feed of objects that ends with the read error `e`: if the client calls `next` more often than
-- there are objects, the calls give one row for each object, in order, and then io.EOF if the feed
-- ended with io.EOF, and a bad gateway error around `e` otherwise; the iterator is closed.
pub drain-feed :
    {Meta Row : Type 0} (p : Parser Meta Row) (f : Row → Value → Row) (meta : Option Meta)
    (b : Reader) (e : Error) (rows : List Fields) (row : Row) (n : ℕ)
    → (close_reader b).0 ≡ none
    → AllRead p f rows
    → length rows < n
    → drain p n row (new_iter meta [] b (new_decoder (feed rows) e))
      ≡ (given p f row rows, some (feed_error e), stopped p f meta b (new_decoder (feed rows) e) e)
unfolding drain next
drain-feed p f meta b e rows row zero clean h lt = elim lt [ ]
drain-feed p f meta b e rows row (suc n) clean h lt =
    drain-rows p f meta b (new_decoder (feed rows) e) e rows row (suc n) clean h lt

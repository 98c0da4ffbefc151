-- ===== src/Documents/RevsDiff.antt =====
-- db.go: the rows of RevsDiff, which are the members of one object: its parser and the iterator in
-- object mode.
pub mod Typed
use couchdb.Common.{
  ℕ, zero, suc, ◌<◌, Bytes, true, List, [], ◌∷◌, ◌++◌, none, some, ◌≡◌, refl, ap, ◌∙◌, arith,
}
use couchdb.Errors.{Error, eof, panic, Err, Result, ok, err}
use couchdb.Json.{Lexeme, Raw, Token, string_token, TokenState, top_value, Decoder, new_decoder}
use couchdb.Json.Print.{Value, obj, Fields, end, field, print, print_fields, more_fields}
use couchdb.Json.Read.{token, decode, more}
use couchdb.Json.Read.Values.{reading}
use couchdb.Json.Elements.{decode-member}
use couchdb.Iter.{Parser, Iter, new_iter, next, settle}
use couchdb.Iter.Body.{Reader, close_reader}
use couchdb.Iter.Drain.{drain, stop_or, add_row}
use couchdb.Rows.{RowsMeta, Row}

-- revsDiffParser.decodeItem: the key, then the value behind it
abbrev pub revs_value : Row → Token → Result Raw × Decoder → Err × Row × Decoder
revs_value row t (err e, d) = (some e, row, d)
revs_value row (string_token id) (ok raw, d) = (none, record row { id = id; value = some raw }, d)
revs_value row t (ok raw, d) = (some panic, row, d)

abbrev pub revs_row : Row → Result Token × Decoder → Err × Row × Decoder
revs_row row (err e, d) = (some e, row, d)
revs_row row (ok t, d) = revs_value row t (decode d)

unfoldable pub revs_diff_parser : Parser RowsMeta Row
unfolding token decode
revs_diff_parser = record { decode_item = λ row d. revs_row row (token d); parse_meta = none }

-- newRevsDiffRows
abbrev pub new_revs_diff_rows : Reader → Decoder → Iter RowsMeta
new_revs_diff_rows b source = record (new_iter none [] b source) { obj_mode = true }

-- the rows that the members of an object are
abbrev pub diff_row : Row → Bytes → Value → Row
diff_row row id v = record row { id = id; value = some (print v) }

abbrev pub diff_rows : Row → Fields → List Row
diff_rows row end = []
diff_rows row (field n r v fs) = diff_row row n v ∷ diff_rows (diff_row row n v) fs

abbrev pub count : Fields → ℕ
count end = 0
count (field n r v fs) = suc (count fs)

module _ (b : Reader) (source : Decoder) (rest : List Lexeme) (e : Error) where
  abbrev inside : TokenState → List Lexeme → Decoder
  inside s ls = reading (ls ++ rest) e s (top_value ∷ [])

  abbrev at_member : TokenState → List Lexeme → Iter RowsMeta
  at_member s ls = record (new_revs_diff_rows b source) { dec = some (inside s ls) }

  abbrev pub diffs_read : Iter RowsMeta
  diffs_read = record (new_revs_diff_rows b source) {
    body = some (close_reader b).1;
    dec = some (reading rest e top_value []);
    closed = true;
  }

  next-member :
      (n r : Bytes) (v : Value) (fs : Fields) (row : Row)
      → next revs_diff_parser row
          (at_member TokenState.object_start (print_fields (field n r v fs)))
        ≡ (none, diff_row row n v, at_member TokenState.object_comma (more_fields fs))
  unfolding next token print more revs_diff_parser decode
  next-member n r v fs row =
      ap
        (λ x.
          settle revs_diff_parser (new_revs_diff_rows b source) (revs_value row (string_token n) x))
        (decode-member v fs rest e (top_value ∷ []))

  next-comma :
      (n r : Bytes) (v : Value) (fs : Fields) (row : Row)
      → next revs_diff_parser row (at_member TokenState.object_comma (more_fields (field n r v fs)))
        ≡ (none, diff_row row n v, at_member TokenState.object_comma (more_fields fs))
  unfolding next token print more revs_diff_parser decode
  next-comma n r v fs row =
      ap
        (λ x.
          settle revs_diff_parser (new_revs_diff_rows b source) (revs_value row (string_token n) x))
        (decode-member v fs rest e (top_value ∷ []))

  next_brace :
      (row : Row)
      → (close_reader b).0 ≡ none
      → next revs_diff_parser row (at_member TokenState.object_comma (more_fields end))
        ≡ (some eof, row, diffs_read)
  unfolding next token print more
  next_brace row clean = rw clean refl

  -- an object without members
  next_empty :
      (row : Row)
      → (close_reader b).0 ≡ none
      → next revs_diff_parser row (at_member TokenState.object_start (print_fields end))
        ≡ (some eof, row, diffs_read)
  unfolding next token print more
  next_empty row clean = rw clean refl

  drain-members :
      (fs : Fields) (row : Row) (n : ℕ)
      → (close_reader b).0 ≡ none
      → count fs < n
      → drain revs_diff_parser n row (at_member TokenState.object_comma (more_fields fs))
        ≡ (diff_rows row fs, some eof, diffs_read)
  unfolding drain
  drain-members fs row zero clean lt = elim lt [ ]
  drain-members end row (suc n) clean lt =
      ap (λ q. stop_or q (drain revs_diff_parser n)) (next_brace row clean)
  drain-members (field m r v fs) row (suc n) clean lt =
      ap (λ q. stop_or q (drain revs_diff_parser n)) (next-comma m r v fs row)
      ∙ ap (add_row (diff_row row m v)) (drain-members fs (diff_row row m v) n clean (omega arith))

  drain-object :
      (fs : Fields) (row : Row) (n : ℕ)
      → (close_reader b).0 ≡ none
      → count fs < n
      → drain revs_diff_parser n row (at_member TokenState.object_start (print_fields fs))
        ≡ (diff_rows row fs, some eof, diffs_read)
  unfolding drain
  drain-object fs row zero clean lt = elim lt [ ]
  drain-object end row (suc n) clean lt =
      ap (λ q. stop_or q (drain revs_diff_parser n)) (next_empty row clean)
  drain-object (field m r v fs) row (suc n) clean lt =
      ap (λ q. stop_or q (drain revs_diff_parser n)) (next-member m r v fs row)
      ∙ ap (add_row (diff_row row m v)) (drain-members fs (diff_row row m v) n clean (omega arith))

-- A response of RevsDiff with any members: if the client calls `next` more often than there are
-- members, the calls give each key with the JSON text of its value, in order, and then io.EOF; the
-- rows are closed, and the decoder is behind the object. The body must close without an error.
pub drain-new_revs_diff_rows :
    (b : Reader) (fs : Fields) (rest : List Lexeme) (e : Error) (row : Row) (n : ℕ)
    → (close_reader b).0 ≡ none
    → count fs < n
    → drain revs_diff_parser n row (new_revs_diff_rows b (new_decoder (print (obj fs) ++ rest) e))
      ≡ (diff_rows row fs, some eof, diffs_read b (new_decoder (print (obj fs) ++ rest) e) rest e)
unfolding drain next token print
drain-new_revs_diff_rows b fs rest e row zero clean lt = elim lt [ ]
drain-new_revs_diff_rows b fs rest e row (suc n) clean lt =
    drain-object b (new_decoder (print (obj fs) ++ rest) e) rest e fs row (suc n) clean lt

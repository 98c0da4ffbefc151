-- ===== src/Rows/Multi/Responses.antt =====
-- A whole response of several queries, from its first brace.
use couchdb.Common.{
  length, sym, ℕ, ◌+◌, Bytes, str, equal, true, List, [], ◌∷◌, ◌++◌, none, some, ◌≡◌, refl, ap, ◌∙◌,
  All, append_assoc, arith,
}
use couchdb.Errors.{Error, eof, open_obj, open_arr}
use couchdb.Json.{Lexeme, delim, colon, string, array_start, Decoder, new_decoder}
use couchdb.Json.Print.{Value, arr, obj, Fields, field, print, more_items, more_fields}
use couchdb.Json.Read.{token}
use couchdb.Iter.{Parser, consume_delim, next_key}
use couchdb.Iter.Response.{Skipped}
use couchdb.Rows.{RowsMeta, Row}
use couchdb.Rows.Multi.{Multi, new_multi, set_rows, begin_multi, next_in_rows, or_row, next_multi}
use couchdb.Rows.Multi.Spec.{
  ResultSet, set_value, items_of, add_outcomes, add_outcomes-append, drain_multi, given_rows,
  expected_outcomes, all_calls, Readable,
}
use couchdb.Rows.Multi.Sets.{
  head_source, set_head, opened, sets_left, drain-head, drain-sets, calls_set, begun-set,
}

-- the response of several queries
abbrev pub sets_value : Bytes → List ResultSet → Fields → Value
sets_value raw sets fs = obj (field (str "results") raw (arr (items_of sets)) fs)

abbrev pub sent : Bytes → List ResultSet → Fields → List Lexeme → Error → Decoder
sent raw sets fs rest e = new_decoder (print (sets_value raw sets fs) ++ rest) e

-- its lexemes, up to the first set and behind it
abbrev flat : Bytes → ResultSet → List ResultSet → List Lexeme → Error → Decoder
flat raw s ss tail e =
    new_decoder
      (delim open_obj
        ∷ (string (str "results") raw
            ∷ (colon
                ∷ (delim open_arr ∷ (print (set_value s) ++ (more_items (items_of ss) ++ tail))))))
      e

sent-flat :
    (raw : Bytes) (s : ResultSet) (ss : List ResultSet) (fs : Fields) (rest : List Lexeme)
    (e : Error)
    → sent raw (s ∷ ss) fs rest e ≡ flat raw s ss (more_fields fs ++ rest) e
unfolding print
sent-flat raw s ss fs rest e = rw (append_assoc, append_assoc) refl

module _ (p : Parser RowsMeta Row) (g : Bytes → Value → RowsMeta → RowsMeta) (f : Row → Value → Row)
    (quote : Bytes → Bytes) (source : Decoder) (e : Error) (tail : List Lexeme) where
  abbrev first_source : ResultSet → List ResultSet → Decoder
  first_source s ss =
      head_source p g f quote source e tail s (sets_left p g f quote source e tail ss) array_start

  abbrev first_rows : ResultSet → List ResultSet → Multi
  first_rows s ss =
      opened p g f quote source e tail
        (set_head p g f quote source e tail (first_source s ss) s
          (sets_left p g f quote source e tail ss) array_start)
        0

  begin_multi-flat :
      (raw : Bytes) (s : ResultSet) (ss : List ResultSet)
      → source ≡ flat raw s ss tail e
      → All (Skipped p g (str "rows")) s.pre
      → begin_multi p quote (new_multi source none none) ≡ (none, first_rows s ss)
  unfolding begin_multi consume_delim next_key token equal
  begin_multi-flat raw s ss at h =
      ap (λ d. begin_multi p quote (record (new_multi source none none) { source = d })) at
      ∙ ap
          (set_rows p quote
            (record (new_multi (flat raw s ss tail e) none none) { started = true }))
          (begun-set p g f quote source e tail s _ array_start refl h)
      ∙ ap (λ d. (none, record (first_rows s ss) { source = d })) (sym at)

  first_opened :
      (raw : Bytes) (s : ResultSet) (ss : List ResultSet) (row : Row)
      → source ≡ flat raw s ss tail e
      → All (Skipped p g (str "rows")) s.pre
      → next_multi p quote row (new_multi source none none)
        ≡ next_multi p quote row (first_rows s ss)
  unfolding next_multi
  first_opened raw s ss row at h =
      ap (or_row p quote row (next_in_rows p quote row)) (begin_multi-flat raw s ss at h)

  drain-source :
      (raw : Bytes) (s : ResultSet) (ss : List ResultSet) (row : Row) (n : ℕ)
      → source ≡ flat raw s ss tail e
      → All (Readable p g f) (s ∷ ss)
      → drain_multi p quote (all_calls (s ∷ ss) n) row (new_multi source none none)
        ≡ add_outcomes (expected_outcomes f row (s ∷ ss)) ([], some eof, length ss)
  drain-source raw s ss row n at (h, hs) =
      calls_set p g f quote source e tail s.items row (all_calls ss n) _ _
        (first_opened raw s ss row at h.0)
      ∙ drain-head p g f quote source e tail (first_source s ss) s ss array_start row 0
          (all_calls ss n)
          (λ row. add_outcomes (expected_outcomes f row ss) ([], some eof, 0 + length ss)) refl h
          (λ row i shut at. drain-sets p g f quote source e tail ss row 0 n i shut at hs)
      ∙ sym (add_outcomes-append (given_rows f row s.items) _ _)
      ∙ ap (λ k. add_outcomes (expected_outcomes f row (s ∷ ss)) ([], some eof, k)) (omega arith)

-- The sets of a response: calls of Next give the rows of every result set in order, the end of
-- each set behind its last row, and io.EOF at the end, where the index of the query is that of
-- the last set. Every set must be readable, there is one at least, and nothing fails to close.
pub drain_multi-response :
    (p : Parser RowsMeta Row) (g : Bytes → Value → RowsMeta → RowsMeta) (f : Row → Value → Row)
    (quote : Bytes → Bytes) (raw : Bytes) (s : ResultSet) (ss : List ResultSet) (fs : Fields)
    (rest : List Lexeme) (e : Error) (row : Row) (n : ℕ)
    → All (Readable p g f) (s ∷ ss)
    → drain_multi p quote
        (all_calls (s ∷ ss) n)
        row
        (new_multi (sent raw (s ∷ ss) fs rest e) none none)
      ≡ add_outcomes (expected_outcomes f row (s ∷ ss)) ([], some eof, length ss)
drain_multi-response p g f quote raw s ss fs rest e row n =
    drain-source p g f quote _ e (more_fields fs ++ rest) raw s ss row n
      (sent-flat raw s ss fs rest e)

-- ===== src/Rows/Multi.antt =====
-- rows.go: `multiQueriesRows`, the iterator over the result sets of several queries.
-- `r.dec` and the decoder of the current rows are one object, which is kept in the rows.
pub mod Closing
pub mod Responses
pub mod Sets
pub mod Spec
use couchdb.Common.{
  ℕ, ◌+◌, ◌%◌, ◌&&◌, Bytes, str, equal, ltb, ◌==◌, Bool, true, false, ◌∷◌, Option, none, some,
  if◌then◌else◌,
}
use couchdb.Errors.{
  open_obj, open_arr, close_arr, Error, eof, end_of_query, unexpected_delim, panic, Err, Result, ok,
  err,
}
use couchdb.Json.{delim, string, Decoder, new_decoder}
use couchdb.Iter.{Parser, Iter, Work, begin, next_key, consume_delim, close, update}
use couchdb.Rows.{RowsMeta, empty_meta, Row, next_of}

-- `read_all` and `body_close` are what reading the body to its end and closing it return;
-- `source` is json.NewDecoder(r.r), `started` is r.dec != nil.
pub record Multi : Type 0 where
  pub rows : Option (Iter RowsMeta)
  pub source : Decoder
  pub read_all : Err
  pub body_close : Err
  pub started : Bool
  pub query_index : ℕ
  pub closed : ℕ
  pub legacy : Bool

-- newMultiQueriesRows
abbrev pub new_multi : Decoder → Err → Err → Multi
new_multi source read_all body_close = record {
  rows = none;
  source = source;
  read_all = read_all;
  body_close = body_close;
  started = false;
  query_index = 0;
  closed = 0;
  legacy = false;
}

-- newRows with the body set to nil and the decoder given
abbrev pub rows_over : Decoder → Iter RowsMeta
rows_over d = record {
  meta = some empty_meta;
  expected_key = str "rows";
  body = none;
  source = d;
  obj_mode = false;
  dec = some d;
  closed = false;
}

-- rows.Close, where the embedded iterator has no body
abbrev pub close_rows : Option (Iter RowsMeta) → Option (Iter RowsMeta)
close_rows none = none
close_rows (some i) = some (close i).1

abbrev pub first_of_two : Err → Err → Err
first_of_two (some e) e2 = some e
first_of_two none e2 = e2

-- atomic.AddInt32 by one, on the counter of the calls of Close as the bits of an int32
abbrev pub count_up : ℕ → ℕ
count_up n = (n + 1) % 4294967296

-- the test of the int32 for more than one: a number from 2 ^ 31 on stands for a negative one
abbrev pub is_again : ℕ → Bool
is_again n = ltb 1 n && ltb n 2147483648

-- Close: the rest of the body is read, and both the body and the rows are closed, once
unfoldable pub close_multi : Multi → Err × Multi
unfolding close
close_multi r =
    if is_again (count_up r.closed) then (none, record r { closed = count_up r.closed }) else (
      first_of_two r.read_all r.body_close,
      record r { closed = count_up r.closed; started = false; rows = close_rows r.rows },
    )

-- io.EOF behind a `Close` that fails is the error of `Close`
abbrev pub eof_after : Err × Multi → Err × Multi
eof_after (some e, r) = (some e, r)
eof_after (none, r) = (some eof, r)

-- the head of one result set, whose decoder is `d`
abbrev pub begun : {Row : Type 0} → Parser RowsMeta Row → Decoder → Err × Work RowsMeta
begun p d = begin p (str "rows") false (record { meta = some empty_meta; dec = d })

module _ (p : Parser RowsMeta Row) (quote : Bytes → Bytes) where
  abbrev pub set_rows : Multi → Err × Work RowsMeta → Err × Multi
  set_rows r (e, w) = (e, record r { rows = some (update (rows_over w.dec) w) })

  -- The old format: the key that was read is put back, behind a new brace, before the rest.
  abbrev pub legacy_source : Bytes → Decoder → Decoder
  legacy_source key d = new_decoder (delim open_obj ∷ (string key (quote key) ∷ d.input)) d.tail

  abbrev pub begin_key : Multi → Result Bytes × Decoder → Err × Multi
  begin_key r (err e, d) = (some e, r)
  begin_key r (ok key, d) =
      if equal key (str "results")
      then (let (e, d') = consume_delim open_arr d in
          elim e [ some x ↦ (some x, r) | none ↦ set_rows r (begun p d') ])
      else set_rows (record r { legacy = true }) (begun p (legacy_source key d))

  unfoldable pub begin_multi : Multi → Err × Multi
  unfolding begin next_key consume_delim equal
  begin_multi r =
      let r' = record r { started = true } in
      let (e, d) = consume_delim open_obj r.source in
      elim e [ some x ↦ (some x, r') | none ↦ begin_key r' (next_key d) ]

  -- `r.dec`, which the current rows have advanced
  abbrev pub shared : Multi → Option Decoder
  shared r = if r.started then elim r.rows [ none ↦ none | some i ↦ i.dec ] else none

  -- the rows' decoder, which is the one that `begin` has read on
  abbrev pub read_on : Decoder → Option (Iter RowsMeta) → Option (Iter RowsMeta)
  read_on d none = none
  read_on d (some i) = some (record i { dec = some d })

  -- nextQuery, behind the `begin` of the next result set
  abbrev pub after_query : Multi → Err × Work RowsMeta → Err × Multi
  after_query r (none, w) =
      (none, record r { query_index = r.query_index + 1; rows = some (update (rows_over w.dec) w) })
  after_query r (some (unexpected_delim close_arr), w) = eof_after (close_multi r)
  after_query r (some e, w) = (some e, record r { rows = read_on w.dec r.rows })

  unfoldable pub next_query : Multi → Err × Multi
  unfolding begin close_multi
  next_query r =
      if r.legacy
      then eof_after (close_multi r)
      else elim (shared r) [ none ↦ (some panic, r) | some d ↦ after_query r (begun p d) ]

  abbrev pub rows_closed : Multi → Bool
  rows_closed r = elim r.rows [ none ↦ false | some i ↦ i.closed ]

  abbrev pub end_of_rows : Bool → Error → Error
  end_of_rows false eof = end_of_query
  end_of_rows legacy e = e

  abbrev pub give_row : Multi → Err × Row × Iter RowsMeta → Err × Row × Multi
  give_row r (none, row, i) = (none, row, record r { rows = some i })
  give_row r (some e, row, i) = (some (end_of_rows r.legacy e), row, record r { rows = some i })

  -- the call of `r.rows.Next`: without rows it panics
  unfoldable pub next_in_rows : Row → Multi → Err × Row × Multi
  unfolding next_of
  next_in_rows row r = elim r.rows [
    | none ↦ (some panic, row, r)
    | some i ↦ give_row r (next_of p row i)
  ]

  abbrev pub or_row : Row → (Multi → Err × Row × Multi) → Err × Multi → Err × Row × Multi
  or_row row k (some e, r) = (some e, row, r)
  or_row row k (none, r) = k r

  abbrev pub ready : Row → Multi → Err × Row × Multi
  ready row r =
      if r.started then next_in_rows row r else or_row row (next_in_rows row) (begin_multi r)

  unfoldable pub next_multi : Row → Multi → Err × Row × Multi
  unfolding begin_multi next_query next_in_rows
  next_multi row r =
      if r.closed == 1
      then (some eof, row, r)
      else if rows_closed r
      then or_row row (ready row) (next_query r)
      else ready row r

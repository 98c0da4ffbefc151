-- ===== src/Iter.antt =====
-- iter.go: `iter`, which reads one result object and hands out its rows one at a time.
-- `begin` and `finish` change `meta` and the decoder only, and return both beside the error.
pub mod Body
pub mod Response
pub mod Frame
pub mod Drain
pub mod Stream
pub mod Complete
pub mod Ends
use couchdb.Common.{
  ℕ, zero, suc, ◌+◌, Bytes, str, equal, is_empty, Bool, true, false, ◌&&◌, not, List, [], ◌∷◌,
  Option, none, some, length, if◌then◌else◌,
}
use couchdb.Errors.{
  Delim, open_obj, close_obj, open_arr, close_arr, Error, eof, message, unexpected_delim, stuck,
  bad_gateway, Err, Result, ok, err, and_then,
}
use couchdb.Json.{Token, delim_token, string_token, literal_token, Decoder}
use couchdb.Json.Read.{is_eof, more, token}
use couchdb.Iter.Body.{Reader, close_reader}

-- the interfaces `parser` and `metaParser`; `parse_meta` is none where only the first is implemented
pub record Parser (Meta Row : Type 0) : Type 0 where
  pub decode_item : Row → Decoder → Err × Row × Decoder
  pub parse_meta : Option (Bytes → Meta → Decoder → Err × Meta × Decoder)

-- `source` is what `json.NewDecoder(i.body)` returns.
pub record Iter (Meta : Type 0) : Type 0 where
  pub meta : Option Meta
  pub expected_key : Bytes
  pub body : Option Reader
  pub source : Decoder
  pub obj_mode : Bool
  pub dec : Option Decoder
  pub closed : Bool

-- newIter
abbrev pub new_iter : {Meta : Type 0} → Option Meta → Bytes → Reader → Decoder → Iter Meta
new_iter meta key body source = record {
  meta = meta;
  expected_key = key;
  body = some body;
  source = source;
  obj_mode = false;
  dec = none;
  closed = false;
}

-- consumeDelim
abbrev pub check_delim : Delim → Delim → Err
check_delim open_obj open_obj = none
check_delim close_obj close_obj = none
check_delim open_arr open_arr = none
check_delim close_arr close_arr = none
check_delim expected d = some (unexpected_delim d)

abbrev pub check_token : Delim → Result Token → Err
check_token expected (err e) = some (bad_gateway e)
check_token expected (ok (delim_token d)) = check_delim expected d
check_token expected (ok t) = some (bad_gateway (message (str "Unexpected token")))

unfoldable pub consume_delim : Delim → Decoder → Err × Decoder
consume_delim expected d = let (t, d') = token d in (check_token expected t, d')

-- nextKey
abbrev pub as_key : Result Token → Result Bytes
as_key (err e) = err e
as_key (ok (string_token key)) = ok key
as_key (ok t) = err (message (str "Unexpected token"))

unfoldable pub next_key : Decoder → Result Bytes × Decoder
next_key d = let (t, d') = token d in (as_key t, d')

-- Close: the flag is set, and a body that is set is closed
abbrev pub close_body : Option Reader → Err × Option Reader
close_body none = (none, none)
close_body (some b) = let (e, b') = close_reader b in (e, some b')

unfoldable pub close : {Meta : Type 0} → Iter Meta → Err × Iter Meta
close i = let (e, b) = close_body i.body in (e, record i { closed = true; body = b })

-- the part of an iterator that `begin` and `finish` change
pub record Work (Meta : Type 0) : Type 0 where
  pub meta : Option Meta
  pub dec : Decoder

-- an error other than io.EOF, as a bad gateway
abbrev pub unless_eof : Err → Err
unless_eof none = none
unless_eof (some e) = if is_eof e then none else some (bad_gateway e)

abbrev pub token_error : Result Token → Err
token_error (ok t) = none
token_error (err e) = some e

abbrev pub update : {Meta : Type 0} → Iter Meta → Work Meta → Iter Meta
update i w = record i { meta = w.meta; dec = some w.dec }

abbrev pub first_error : Err → Err → Err
first_error (some e) e2 = some e
first_error none e2 = e2

abbrev pub with_dec : {Meta : Type 0} → Work Meta → Err × Decoder → Err × Work Meta
with_dec w (e, d) = (e, record w { dec = d })

-- parseMeta of iter
abbrev pub run_meta :
    {Meta : Type 0}
    → Option (Bytes → Meta → Decoder → Err × Meta × Decoder)
    → Option Meta
    → Bytes
    → Decoder
    → Err × Work Meta
run_meta parse none key d = (none, record { meta = none; dec = d })
run_meta none (some m) key d = (none, record { meta = some m; dec = d })
run_meta (some parse) (some m) key d =
    let (e, m', d') = parse key m d in (e, record { meta = some m'; dec = d' })

module _ {Meta Row : Type 0} (p : Parser Meta Row) where
  unfoldable pub parse_meta : Bytes → Work Meta → Err × Work Meta
  parse_meta key w = run_meta p.parse_meta w.meta key w.dec

  -- the loop of `begin`, on fuel: each round takes a key off the input
  unfoldable pub begin_loop : ℕ → Bytes → Work Meta → Err × Work Meta
  unfolding next_key consume_delim parse_meta
  begin_loop zero expected w = (some stuck, w)
  begin_loop (suc f) expected w =
      let (k, d) = next_key w.dec in
      elim k [
        | err e ↦ (some e, record w { dec = d })
        | ok key ↦ elim (equal key expected) [
          | true ↦ with_dec w (consume_delim open_arr d)
          | false ↦ and_then (parse_meta key (record w { dec = d })) (begin_loop f expected)
        ]
      ]

  unfoldable pub begin : Bytes → Bool → Work Meta → Err × Work Meta
  unfolding begin_loop
  begin expected obj_mode w =
      if is_empty expected && not obj_mode
      then (none, w)
      else and_then (with_dec w (consume_delim open_obj w.dec)) (λ w'.
        if obj_mode then (none, w') else begin_loop (suc (length w'.dec.input)) expected w')

  -- nextRow
  unfoldable pub next_row : Row → Decoder → Err × Row × Decoder
  next_row row d = if more d.input then p.decode_item row d else (some eof, row, d)

  -- the loop of `finish` and the closing brace behind it, on fuel
  unfoldable pub finish_loop : ℕ → Work Meta → Err × Work Meta
  unfolding consume_delim parse_meta
  finish_loop zero w = (some stuck, w)
  finish_loop (suc f) w = elim (more w.dec.input) [
    | false ↦ with_dec w (consume_delim close_obj w.dec)
    | true ↦
        (let (t, d) = token w.dec in
          elim t [
            | err e ↦ (some e, record w { dec = d })
            | ok (delim_token close_obj) ↦ finish_loop f (record w { dec = d })
            | ok (string_token key) ↦
                and_then (parse_meta key (record w { dec = d })) (finish_loop f)
            | ok t' ↦ (some (message (str "Unexpected JSON token")), record w { dec = d })
          ])
  ]

  -- the body of `finish`, without the deferred `Close`
  unfoldable pub finish_body : Bytes → Bool → Work Meta → Err × Work Meta
  unfolding finish_loop
  finish_body expected obj_mode w =
      if is_empty expected && not obj_mode
      then (let (t, d) = token w.dec in (unless_eof (token_error t), record w { dec = d }))
      else if obj_mode
      then (let (e, d) = consume_delim close_obj w.dec in (unless_eof e, record w { dec = d }))
      else and_then (with_dec w (consume_delim close_arr w.dec))
          (λ w'. finish_loop (suc (length w'.dec.input)) w')

  abbrev pub closing : Iter Meta → Err × Work Meta → Err × Iter Meta
  closing i (e, w) = let (e2, i') = close (update i w) in (first_error e e2, i')

  unfoldable pub finish : Iter Meta → Decoder → Err × Iter Meta
  unfolding finish_body close
  finish i d = closing i (finish_body i.expected_key i.obj_mode (record { meta = i.meta; dec = d }))

  -- what `next` makes of the result of `nextRow`
  abbrev pub ending : Row → Err × Iter Meta → Err × Row × Iter Meta
  ending row (e, i) = (first_error e (some eof), row, i)

  abbrev pub settle : Iter Meta → Err × Row × Decoder → Err × Row × Iter Meta
  settle i (none, row, d) = (none, row, record i { dec = some d })
  settle i (some eof, row, d) = ending row (finish i d)
  settle i (some e, row, d) = (some e, row, record i { dec = some d })

  -- `next` once the decoder is there and the head of the object is read
  unfoldable pub next_item : Row → Iter Meta → Decoder → Err × Row × Iter Meta
  unfolding next_row finish
  next_item row i d = settle i (next_row row d)

  abbrev pub after_begin : Row → Iter Meta → Err × Work Meta → Err × Row × Iter Meta
  after_begin row i (some e, w) = (some (bad_gateway e), row, update i w)
  after_begin row i (none, w) = next_item row (update i w) w.dec

  unfoldable pub next : Row → Iter Meta → Err × Row × Iter Meta
  unfolding begin next_item
  next row i = if i.closed then (some eof, row, i) else elim i.dec [
    | some d ↦ next_item row i d
    | none ↦
        after_begin row i
          (begin i.expected_key i.obj_mode (record { meta = i.meta; dec = i.source }))
  ]

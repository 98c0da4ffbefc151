-- ===== src/Rows.antt =====
-- rows.go, and `bulkResult` of bulkget.go: the metadata of a result, the parsers of its rows, and
-- the iterators `rows`. How a row's own members are unmarshalled is kivik's (`driver.Row`): it is
-- the parameter `unmarshal_row`.
pub mod Multi
pub mod Told
pub mod Whole
use couchdb.Common.{
  Bytes, str, equal, is_empty, Bool, true, false, List, [], ◌∷◌, Option, none, some, not, ◌&&◌,
  is_some, if◌then◌else◌,
}
use couchdb.Common.Int.{ℤ, pos}
use couchdb.Errors.{open_obj, open_arr, Error, panic, bulk_get, Err, Result, ok, err}
use couchdb.Json.{delim, Raw, Decoder}
use couchdb.Json.Read.{decode}
use couchdb.Json.Into.{
  into_int64, into_string, into_raw, into_sequence_id, decode_into, member, array_elements, is_null,
  type_error,
}
use couchdb.Iter.{Parser, Iter, new_iter, next}
use couchdb.Iter.Body.{Reader}

-- rowsMeta
pub record RowsMeta : Type 0 where
  pub offset : ℤ
  pub total_rows : ℤ
  pub update_seq : Bytes
  pub warning : Bytes
  pub bookmark : Bytes

abbrev pub empty_meta : RowsMeta
empty_meta = record {
  offset = pos 0;
  total_rows = pos 0;
  update_seq = [];
  warning = [];
  bookmark = [];
}

-- the member of rowsMeta that a key of the result stands for
pub data MetaKey : Type 0 where
  update_seq_key offset_key total_rows_key warning_key bookmark_key other_key : MetaKey

unfoldable pub meta_key : Bytes → MetaKey
unfolding equal
meta_key key =
    if equal key (str "update_seq")
    then update_seq_key
    else if equal key (str "offset")
    then offset_key
    else if equal key (str "total_rows")
    then total_rows_key
    else if equal key (str "warning")
    then warning_key
    else if equal key (str "bookmark")
    then bookmark_key
    else other_key

-- one value into the member of rowsMeta; a value that is not understood is consumed
unfoldable pub set_meta : MetaKey → Raw → RowsMeta → Err × RowsMeta
unfolding into_int64 into_string into_raw into_sequence_id
set_meta update_seq_key raw m =
    let (e, v) = into_sequence_id raw m.update_seq in (e, record m { update_seq = v })
set_meta offset_key raw m = let (e, v) = into_int64 raw m.offset in (e, record m { offset = v })
set_meta total_rows_key raw m =
    let (e, v) = into_int64 raw m.total_rows in (e, record m { total_rows = v })
set_meta warning_key raw m = let (e, v) = into_string raw m.warning in (e, record m { warning = v })
set_meta bookmark_key raw m =
    let (e, v) = into_string raw m.bookmark in (e, record m { bookmark = v })
set_meta other_key raw m = let (e, v) = into_raw raw [] in (e, m)

-- rowsMeta.parseMeta
unfoldable pub parse_rows_meta : Bytes → RowsMeta → Decoder → Err × RowsMeta × Decoder
unfolding decode_into meta_key set_meta
parse_rows_meta key m d = decode_into (set_meta (meta_key key)) m d

-- driver.Row; `value` and `doc` are the readers over the raw JSON, none where they are nil
pub record Row : Type 0 where
  pub id : Bytes
  pub key : Raw
  pub value : Option Raw
  pub doc : Option Raw
  pub error : Err

abbrev pub or_old : Option Raw → Option Raw → Option Raw
or_old (some raw) old = some raw
or_old none old = old

module _ (unmarshal_row : Raw → Row → Err × Row) where
  abbrev pub with_parts : Raw → Err × Row → Err × Row
  with_parts raw (some e, row) = (some e, row)
  with_parts raw (none, row) = (
    none,
    record row {
      value = or_old (member (str "value") raw) row.value;
      doc = or_old (member (str "doc") raw) row.doc;
    },
  )

  -- rowParser.decodeItem, behind its `Decode`
  unfoldable pub fill_row : Raw → Row → Err × Row
  fill_row raw row = with_parts raw (unmarshal_row raw row)

  unfoldable pub row_parser : Parser RowsMeta Row
  unfolding fill_row parse_rows_meta
  row_parser = record {
    decode_item = λ row d. decode_into fill_row row d;
    parse_meta = some parse_rows_meta;
  }

-- findParser.decodeItem
unfoldable pub fill_doc : Raw → Row → Err × Row
fill_doc raw row = (none, record row { doc = some raw })

unfoldable pub find_parser : Parser RowsMeta Row
unfolding fill_doc parse_rows_meta
find_parser = record {
  decode_item = λ row d. decode_into fill_doc row d;
  parse_meta = some parse_rows_meta;
}

-- a member of type string that may be missing
abbrev pub string_member : Bytes → Raw → Bytes
string_member name raw = elim (member name raw) [ none ↦ [] | some v ↦ (into_string v []).1 ]

-- `*BulkGetError`: nil for null
abbrev pub bulk_get_error : Raw → Err
bulk_get_error raw =
    if is_null raw
    then none
    else some (
        bulk_get (string_member (str "id") raw) (string_member (str "rev") raw)
          (string_member (str "error") raw) (string_member (str "reason") raw))

abbrev pub doc_error : Raw → Err
doc_error raw = elim (member (str "error") raw) [ none ↦ none | some v ↦ bulk_get_error v ]

abbrev pub doc_ok : Raw → Raw
doc_ok raw = elim (member (str "ok") raw) [ none ↦ [] | some v ↦ v ]

abbrev pub result_docs : Raw → List Raw
result_docs raw = elim (member (str "docs") raw) [ none ↦ [] | some v ↦ array_elements v ]

-- `result.Docs[0]`: an index out of range panics
abbrev pub first_doc : List Raw → Raw → Row → Err × Row
first_doc [] raw row = (some panic, record row { id = string_member (str "id") raw })
first_doc (x ∷ xs) raw row = (
  none,
  record row { id = string_member (str "id") raw; doc = some (doc_ok x); error = doc_error x },
)

-- the types that `bulkResult` and `bulkResultDoc` ask for; null fits everywhere
abbrev pub fits_string : Bytes → Raw → Bool
fits_string name raw = elim (member name raw) [
  | none ↦ true
  | some v ↦ not (is_some (into_string v []).0)
]

abbrev pub fits_object : Raw → Bool
fits_object (delim open_obj ∷ ls) = true
fits_object raw = is_null raw

abbrev pub fits_error : Raw → Bool
fits_error raw = elim (member (str "error") raw) [
  | none ↦ true
  | some v ↦
      (fits_object v
        && (fits_string (str "id") v
            && (fits_string (str "rev") v
                && (fits_string (str "error") v && fits_string (str "reason") v))))
]

unfoldable pub fits_docs : List Raw → Bool
unfolding member into_string
fits_docs [] = true
fits_docs (x ∷ xs) = (fits_object x && fits_error x) && fits_docs xs

abbrev pub fits_array : Raw → Bool
fits_array (delim open_arr ∷ ls) = true
fits_array raw = is_null raw

abbrev pub fits_bulk : Raw → Bool
fits_bulk raw =
    fits_object raw
    && (fits_string (str "id") raw
        && (elim (member (str "docs") raw) [ none ↦ true | some v ↦ fits_array v ]
            && fits_docs (result_docs raw)))

-- bulkParser.decodeItem, behind its `Decode`
unfoldable pub fill_bulk : Raw → Row → Err × Row
unfolding member array_elements into_string fits_docs
fill_bulk raw row = if fits_bulk raw then first_doc (result_docs raw) raw row else type_error row

unfoldable pub bulk_parser : Parser RowsMeta Row
unfolding fill_bulk parse_rows_meta
bulk_parser = record {
  decode_item = λ row d. decode_into fill_bulk row d;
  parse_meta = some parse_rows_meta;
}

-- newRows, newFindRows, newBulkGetRows
abbrev pub new_rows : Reader → Decoder → Iter RowsMeta
new_rows body source = new_iter (some empty_meta) (str "rows") body source

abbrev pub new_find_rows : Reader → Decoder → Iter RowsMeta
new_find_rows body source = new_iter (some empty_meta) (str "docs") body source

abbrev pub new_bulk_get_rows : Reader → Decoder → Iter RowsMeta
new_bulk_get_rows body source = new_iter (some empty_meta) (str "results") body source

-- Offset, TotalRows, Warning, Bookmark and UpdateSeq: the zero value where there is no metadata
unfoldable pub reported : Option RowsMeta → RowsMeta
reported none = empty_meta
reported (some m) = m

-- rows.Next
unfoldable pub next_of : Parser RowsMeta Row → Row → Iter RowsMeta → Err × Row × Iter RowsMeta
next_of p row i = next p (record row { error = none }) i

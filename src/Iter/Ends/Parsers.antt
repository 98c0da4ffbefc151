-- ===== src/Iter/Ends/Parsers.antt =====
-- The parsers of the driver, rows.go, changes.go and revsDiffParser of db.go, read one value a row.
use couchdb.Common.{ℕ, ◌<◌, Bytes, false, none, some, length, ◌≡◌, refl, arith}
use couchdb.Errors.{Err, Result, ok, err}
use couchdb.Json.{Raw, Decoder}
use couchdb.Json.Read.{decode}
use couchdb.Json.Read.Progress.{is_lost_err, Sane, Steady, decode-Steady}
use couchdb.Json.Into.{decode_into, into_int64, into_string, into_raw, into_sequence_id}
use couchdb.Iter.Ends.{Keeps, Takes, IsSteady}
use couchdb.Rows.{
  RowsMeta, Row, MetaKey, meta_key, set_meta, parse_rows_meta, fill_row, row_parser, fill_doc,
  find_parser,
}
use couchdb.Changes.{
  Change, set_changes_meta, parse_changes_meta, as_gateway, with_seq, changes_parser,
}

-- an unmarshaller that never panics, nor runs out of rounds
abbrev pub NeverLost : {A : Type 0} → (Raw → A → Err × A) → Type 0
NeverLost {A} f = (raw : Raw) (a : A) → is_lost_err (f raw a).0 ≡ false

into-Takes :
    {A : Type 0} (d : Decoder) (a : A) (x : Err × A)
    → is_lost_err x.0 ≡ false
    → (n : ℕ) → Sane d
    → length d.input < n
    → Takes n (x.0, x.1, d)
into-Takes d a (none, a') h n sane lt = (sane, lt)
into-Takes d a (some e, a') h n sane lt = (h, sane)

decoded-Takes :
    {A : Type 0} (f : Raw → A → Err × A) (a : A) (n : ℕ) (x : Result Raw × Decoder)
    → NeverLost f
    → Steady n x
    → Takes {A = A} n
        (elim x.0 [ err e ↦ (some e, a, x.1) | ok raw ↦ (let (e, a') = f raw a in (e, a', x.1)) ])
decoded-Takes f a n (err e, d) h s = (s.0, s.1)
decoded-Takes f a n (ok raw, d) h s = into-Takes d a (f raw a) (h raw a) n s.0 s.1

pub decode_into-Takes :
    {A : Type 0} (f : Raw → A → Err × A) (a : A) (d : Decoder)
    → NeverLost f
    → Sane d
    → Takes (length d.input) (decode_into f a d)
unfolding decode_into
decode_into-Takes f a d h sane =
    decoded-Takes f a (length d.input) (decode d) h (decode-Steady d sane)

Takes-Keeps : {A : Type 0} (n : ℕ) (x : Err × A × Decoder) → Takes n x → Keeps n x
Takes-Keeps n (none, a, d) h = (h.0, omega (arith, h.1))
Takes-Keeps n (some e, a, d) h = h.0

into_int64-NeverLost : NeverLost into_int64
unfolding into_int64
into_int64-NeverLost raw i = ground arith

into_string-NeverLost : NeverLost into_string
unfolding into_string
into_string-NeverLost raw i = ground arith

set_meta-NeverLost : (k : MetaKey) → NeverLost (set_meta k)
unfolding set_meta
set_meta-NeverLost MetaKey.update_seq_key raw m = unfold into_sequence_id in refl
set_meta-NeverLost MetaKey.offset_key raw m = into_int64-NeverLost raw m.offset
set_meta-NeverLost MetaKey.total_rows_key raw m = into_int64-NeverLost raw m.total_rows
set_meta-NeverLost MetaKey.warning_key raw m = into_string-NeverLost raw m.warning
set_meta-NeverLost MetaKey.bookmark_key raw m = into_string-NeverLost raw m.bookmark
set_meta-NeverLost MetaKey.other_key raw m = unfold into_raw in refl

parse_rows_meta-Keeps :
    (key : Bytes) (m : RowsMeta) (d : Decoder)
    → Sane d
    → Keeps (length d.input) (parse_rows_meta key m d)
unfolding parse_rows_meta
parse_rows_meta-Keeps key m d h =
    Takes-Keeps _ _
      (decode_into-Takes (set_meta (meta_key key)) m d (set_meta-NeverLost (meta_key key)) h)

fill_row-NeverLost :
    (unmarshal_row : Raw → Row → Err × Row)
    → NeverLost unmarshal_row
    → NeverLost (fill_row unmarshal_row)
unfolding fill_row
fill_row-NeverLost unmarshal_row h raw row = ground (arith, h raw row)

-- View results and documents, if kivik's unmarshalling of a row never panics.
pub row_parser-IsSteady :
    (unmarshal_row : Raw → Row → Err × Row)
    → NeverLost unmarshal_row
    → IsSteady (row_parser unmarshal_row)
unfolding row_parser
row_parser-IsSteady unmarshal_row h = record {
  item = λ row d s.
      decode_into-Takes (fill_row unmarshal_row) row d (fill_row-NeverLost unmarshal_row h) s;
  meta = parse_rows_meta-Keeps;
}

pub find_parser-IsSteady : IsSteady find_parser
unfolding find_parser fill_doc
find_parser-IsSteady = record {
  item = λ row d s. decode_into-Takes fill_doc row d (λ raw r. refl) s;
  meta = parse_rows_meta-Keeps;
}

set_changes_meta-NeverLost : (key : Bytes) → NeverLost (set_changes_meta key)
unfolding set_changes_meta into_sequence_id into_raw
set_changes_meta-NeverLost key raw m = ground (arith, into_int64-NeverLost raw m.pending)

as_gateway-Takes : (n : ℕ) (x : Err × Change × Decoder) → Takes n x → Takes n (as_gateway x)
as_gateway-Takes n (none, c, d) h = h
as_gateway-Takes n (some e, c, d) h = (refl, h.1)

with_seq-sane :
    (u : Raw → Change → Err × Change) (raw : Raw) (x : Err × Change)
    → is_lost_err x.0 ≡ false
    → is_lost_err (with_seq u raw x).0 ≡ false
with_seq-sane u raw (none, c) h = refl
with_seq-sane u raw (some e, c) h = h

-- The changes feed, under the same condition.
pub changes_parser-IsSteady :
    (unmarshal_change : Raw → Change → Err × Change)
    → NeverLost unmarshal_change
    → IsSteady (changes_parser unmarshal_change)
unfolding changes_parser parse_changes_meta
changes_parser-IsSteady unmarshal_change h = record {
  item = λ c d s. as_gateway-Takes _ _ (
      decode_into-Takes (λ raw x. with_seq unmarshal_change raw (unmarshal_change raw x)) c d
        (λ raw a. with_seq-sane unmarshal_change raw (unmarshal_change raw a) (h raw a)) s);
  meta = λ key m d s.
      Takes-Keeps _ _
        (decode_into-Takes (set_changes_meta key) m d (set_changes_meta-NeverLost key) s);
}

-- ===== src/Changes.antt =====
-- changes.go: the changes feed. How a change's own members are unmarshalled is kivik's
-- (`driver.Change`): it is the parameter `unmarshal_change`.
pub mod Feed
pub mod Request
use couchdb.Common.{
  Bytes, str, equal, Bool, true, false, ◌&&◌, List, [], ◌∷◌, Option, none, some, if◌then◌else◌,
  is_some,
}
use couchdb.Common.Int.{ℤ, pos}
use couchdb.Common.Assoc.{lookup}
use couchdb.Errors.{
  Error, panic, message, kivik, status_bad_request, bad_gateway, Err, Result, ok, err,
}
use couchdb.Json.{Raw, Decoder}
use couchdb.Json.Read.{decode}
use couchdb.Json.Into.{into_int64, into_raw, into_sequence_id, decode_into, member}
use couchdb.Iter.{Parser, Iter, new_iter, next}
use couchdb.Iter.Body.{Reader}
use couchdb.Chttp.Options.{Any, text, OptionMap}

-- changesMeta
pub record ChangesMeta : Type 0 where
  pub last_seq : Bytes
  pub pending : ℤ

-- changesMeta.parseMeta
unfoldable pub set_changes_meta : Bytes → Raw → ChangesMeta → Err × ChangesMeta
unfolding equal into_sequence_id into_int64 into_raw
set_changes_meta key raw m =
    if equal key (str "last_seq")
    then (let (e, v) = into_sequence_id raw m.last_seq in (e, record m { last_seq = v }))
    else if equal key (str "pending")
    then (let (e, v) = into_int64 raw m.pending in (e, record m { pending = v }))
    else (let (e, v) = into_raw raw [] in (e, m))

unfoldable pub parse_changes_meta : Bytes → ChangesMeta → Decoder → Err × ChangesMeta × Decoder
unfolding decode_into set_changes_meta
parse_changes_meta key m d = decode_into (set_changes_meta key) m d

-- driver.Change: the members that the driver itself sets, and the rest of it
pub record Change : Type 0 where
  pub seq : Bytes
  pub deleted : Bool
  pub others : Raw

abbrev pub as_gateway : Err × Change × Decoder → Err × Change × Decoder
as_gateway (none, c, d) = (none, c, d)
as_gateway (some e, c, d) = (some (bad_gateway e), c, d)

module _ (unmarshal_change : Raw → Change → Err × Change) where
  -- The `Seq` of the struct around the change hides that of the change, which is set from it.
  abbrev pub with_seq : Raw → Err × Change → Err × Change
  with_seq raw (some e, c) = (some e, c)
  with_seq raw (none, c) = (
    none,
    record c {
      seq = elim (member (str "seq") raw) [ none ↦ [] | some v ↦ (into_sequence_id v []).1 ];
    },
  )

  unfoldable pub changes_parser : Parser ChangesMeta Change
  unfolding parse_changes_meta
  changes_parser = record {
    decode_item =
        λ c d. as_gateway (decode_into (λ raw x. with_seq raw (unmarshal_change raw x)) c d);
    parse_meta = some parse_changes_meta;
  }

-- the key behind which Changes expects the rows: none for a continuous feed
abbrev pub eventsource_refused : Error
eventsource_refused =
    kivik status_bad_request (message (str "kivik: eventsource feed not supported"))

abbrev pub key_of_feed : Option Any → Result Bytes
key_of_feed (some (text f)) =
    if equal f (str "eventsource")
    then err eventsource_refused
    else if equal f (str "continuous")
    then ok []
    else ok (str "results")
key_of_feed feed = ok (str "results")

unfoldable pub feed_key : OptionMap → Result Bytes
unfolding lookup equal
feed_key opts = key_of_feed (lookup (str "feed") opts)

-- A nil `*changesMeta` is a metadata value too, so `iter` holds one either way.
abbrev pub meta_of_key : Bytes → Option ChangesMeta
meta_of_key [] = none
meta_of_key (c ∷ key) = some (record { last_seq = []; pending = pos 0 })

-- newChangesRows
abbrev pub new_changes_rows : Bytes → Reader → Decoder → Iter ChangesMeta
new_changes_rows key body source = new_iter (meta_of_key key) key body source

-- LastSeq and Pending read through the metadata pointer, which is nil for a continuous feed
unfoldable pub last_seq : Iter ChangesMeta → Result Bytes
last_seq i = elim i.meta [ none ↦ err panic | some m ↦ ok m.last_seq ]

unfoldable pub pending : Iter ChangesMeta → Result ℤ
pending i = elim i.meta [ none ↦ err panic | some m ↦ ok m.pending ]

-- changesRows.Next
unfoldable pub next_change :
    Parser ChangesMeta Change → Change → Iter ChangesMeta → Err × Change × Iter ChangesMeta
next_change p row i = next p (record row { deleted = false }) i

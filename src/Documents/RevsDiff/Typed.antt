-- ===== src/Documents/RevsDiff/Typed.antt =====
-- revsDiffParser asserts that the token before a value is a string, `t.(string)`; a token of another
-- type would panic.
use couchdb.Common.{false, none, some, ◌≡◌}
use couchdb.Errors.{Err}
use couchdb.Json.{Decoder}
use couchdb.Iter.{Iter}
use couchdb.Iter.Body.{Reader, close_reader}
use couchdb.Rows.{RowsMeta, Row}
use couchdb.Documents.RevsDiff.{new_revs_diff_rows}
use couchdb.Json.Read.Members.{panics, AtMember}

-- one row: it stands behind a key
abbrev IsRow : Err × Row × Decoder → Type 0
IsRow (none, row, d) = AtMember d
IsRow (some e, row, d) = panics (some e) ≡ false

-- behind the brace of the object
abbrev IsOpened : Err × Decoder → Type 0
IsOpened (none, d) = AtMember d
IsOpened (some e, d) = Unit

module _ (b : Reader) (source : Decoder) (clean : panics (close_reader b).0 ≡ false) where
  abbrev at : Decoder → Iter RowsMeta
  at d = record (new_revs_diff_rows b source) { dec = some d }

  abbrev Typed : Err × Row × Iter RowsMeta → Type 0
  Typed (none, row, i) = (d : Decoder) × (i ≡ at d) × AtMember d
  Typed (some e, row, i) = panics (some e) ≡ false

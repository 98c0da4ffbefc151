-- ===== src/Tests/Sets.antt =====
-- A response of two queries.
use couchdb.Common.{str, [], ◌∷◌, none, some, ◌≡◌, refl}
use couchdb.Errors.{eof, Err}
use couchdb.Json.{Raw}
use couchdb.Json.Print.{atom, nil, cons, end}
use couchdb.Iter.Response.{ReadsItem}
use couchdb.Iter.Drain.{AllItems}
use couchdb.Rows.{Row, row_parser, fill_row}
use couchdb.Rows.Told.{set_member}
use couchdb.Rows.Whole.{filled, reads_items}
use couchdb.Rows.Multi.{new_multi}
use couchdb.Rows.Multi.Spec.{ResultSet, drain_multi, add_outcomes, expected_outcomes}
use couchdb.Rows.Multi.Responses.{sent, drain_multi-response}

abbrev no_row : Row
no_row = record { id = []; key = []; value = none; doc = none; error = none }

abbrev mark_row : Raw → Row → Err × Row
mark_row raw row = (none, record row { id = str "seen" })

abbrev empty_set : ResultSet
empty_set = record { pre = []; raw_key = str "rows"; items = nil; post = [] }

abbrev one_row : ResultSet
one_row = record { pre = []; raw_key = str "rows"; items = cons (atom (str "7")) nil; post = [] }

readable_row : AllItems (ReadsItem (row_parser mark_row) (filled (fill_row mark_row))) one_row.items
unfolding row_parser fill_row
readable_row = reads_items (fill_row mark_row) one_row.items ((λ r. refl), tt)

drain_multi-response_example :
    drain_multi
      (row_parser mark_row)
      (λ s. s)
      4
      no_row
      (new_multi (sent (str "results") (empty_set ∷ one_row ∷ []) end [] eof) none none)
    ≡ add_outcomes
        (expected_outcomes (filled (fill_row mark_row)) no_row (empty_set ∷ one_row ∷ []))
        ([], some eof, 1)
drain_multi-response_example =
    drain_multi-response (row_parser mark_row) set_member (filled (fill_row mark_row)) (λ s. s)
      (str "results") empty_set (one_row ∷ []) end [] eof no_row 0
      ((tt, tt, tt), ((tt, tt, readable_row), tt))

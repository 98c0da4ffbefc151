-- ===== src/Rows/Multi/Closing.antt =====
-- What Close leaves behind for Next.
use couchdb.Common.{ℕ, zero, suc, ◌+◌, ◌<◌, Bytes, false, none, some, ◌≡◌, ap, ◌∙◌, arith}
use couchdb.Errors.{eof, panic}
use couchdb.Iter.{Parser, Iter}
use couchdb.Rows.{RowsMeta, Row}
use couchdb.Rows.Multi.{Multi, count_up, close_multi, first_of_two, next_multi}

-- the iterator after `n` calls of Close
abbrev pub close_times : ℕ → Multi → Multi
close_times zero r = r
close_times (suc n) r = (close_multi (close_times n r)).1

closed-close_multi : (r : Multi) → (close_multi r).1.closed ≡ count_up r.closed
unfolding close_multi
closed-close_multi r = ground arith

closed-close_times :
    (n : ℕ) (r : Multi) → r.closed ≡ 0 → n < 4294967296 → (close_times n r).closed ≡ n
closed-close_times zero r h lt = h
closed-close_times (suc n) r h lt =
    closed-close_multi (close_times n r)
    ∙ ap count_up (closed-close_times n r h (omega arith))
    ∙ omega arith

closed_again : (r : Multi) → 0 < r.closed → r.closed + 1 < 2147483648 → (close_multi r).0 ≡ none
unfolding close_multi
closed_again r h lt = ground arith

-- An iterator of several queries that is not closed, whose rows of a query were begun in the new format:
-- the first Close returns the error of reading the rest of the body, or else that of closing it, and
-- `next` then gives io.EOF; every further Close returns nil, up to the call that takes the int32
-- counter to 2 ^ 31; but after the second one `next` panics.
pub next_multi-close_multi :
    (p : Parser RowsMeta Row) (quote : Bytes → Bytes) (row : Row) (r : Multi) (i : Iter RowsMeta)
    (n : ℕ)
    → r.closed ≡ 0
    → r.rows ≡ some i
    → r.legacy ≡ false
    → n + 2 < 2147483648
    → ((close_multi r).0 ≡ first_of_two r.read_all r.body_close)
      × ((next_multi p quote row (close_multi r).1).0 ≡ some eof)
      × ((close_multi (close_times (suc n) r)).0 ≡ none)
      × ((next_multi p quote row (close_multi (close_multi r).1).1).0 ≡ some panic)
unfolding close_multi next_multi
next_multi-close_multi p quote row r i n h begun new lt = (
  ground arith,
  ground arith,
  let count = closed-close_times (suc n) r h (omega arith) in
      closed_again (close_times (suc n) r) (omega (arith, count)) (omega (arith, count)),
  ground arith,
)

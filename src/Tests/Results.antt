-- ===== src/Tests/Results.antt =====
-- Results, feeds, readers and attachments at concrete inputs.
use couchdb.Common.{
  Bytes, str, List, [], ◌∷◌, ◌++◌, none, some, ◌≡◌, ◌≢◌, refl, arith, true, false, is_empty, equal,
}
use couchdb.Common.Int.{pos, parse_int64}
use couchdb.Common.Assoc.{Assoc}
use couchdb.Errors.{eof, failure, panic, Err, Result, ok, err}
use couchdb.Json.{Raw, top_value, new_decoder}
use couchdb.Json.Print.{atom, text, obj, Items, nil, cons, Fields, end, field, print}
use couchdb.Json.Read.Values.{reading}
use couchdb.Json.Into.{into_int64, into_string}
use couchdb.Iter.{new_iter}
use couchdb.Iter.Body.{Reader, new_reader, close_reader, read_done, read}
use couchdb.Iter.Body.Latch.{call_close, call_read, run, IsLatched, run-IsLatched, closed_for_good}
use couchdb.Iter.Response.{Member, response, collect}
use couchdb.Iter.Drain.{drain, fills, ended}
use couchdb.Iter.Stream.{feed, feed_error, given, stopped}
use couchdb.Iter.Complete.{drain-response}
use couchdb.Rows.{empty_meta, meta_key, set_meta, Row, fill_doc, find_parser, new_find_rows}
use couchdb.Rows.Told.{set_member, told_meta, told_rows}
use couchdb.Rows.Whole.{
  FitsMeta, filled, read_rows, documents, skips, reads_members, reads_items, Fits-doc,
  drain-new_rows, drain-new_find_rows,
}
use couchdb.Rows.Multi.{Multi, new_multi, rows_over, close_multi, first_of_two, next_multi}
use couchdb.Rows.Multi.Closing.{close_times, next_multi-close_multi}
use couchdb.Json.Into.{member}
use couchdb.Changes.{Change, changes_parser, new_changes_rows, last_seq}
use couchdb.Changes.Feed.{changed, drain-changes_feed}
use couchdb.Attachments.{AttMeta, Part, Attachment, next}
use couchdb.Attachments.Manifest.{Fair, next-Fair}

abbrev total : Member
total = record { name = str "total_rows"; raw = str "total_rows"; value = atom (str "2") }

abbrev bookmark : Member
bookmark = record {
  name = str "bookmark";
  raw = str "bookmark";
  value = text (str "xyz") (str "xyz");
}

abbrev two_docs : Items
two_docs =
    cons (obj (field (str "_id") (str "_id") (text (str "a") (str "a")) end))
      (cons (atom (str "7")) nil)

abbrev body : Reader
body = new_reader none

abbrev no_row : Row
no_row = record { id = []; key = []; value = none; doc = none; error = none }

-- a row whose own members are not looked at
abbrev ignore_row : Raw → Row → Err × Row
ignore_row raw row = (none, record row { id = str "seen" })

total_fits : FitsMeta total
unfolding print meta_key set_meta into_int64 parse_int64 equal
total_fits m = refl

bookmark_fits : FitsMeta bookmark
unfolding print meta_key set_meta into_string equal
bookmark_fits m = refl

total_ne_rows : equal (str "total_rows") (str "rows") ≡ false
unfolding equal
total_ne_rows = refl

total_ne_docs : equal (str "total_rows") (str "docs") ≡ false
unfolding equal
total_ne_docs = refl

body_clean : (close_reader body).0 ≡ none
unfolding close_reader
body_clean = refl

abbrev two_response : Raw
two_response = print (response (total ∷ []) (str "rows") (str "rows") two_docs (bookmark ∷ []))

drain-new_rows_example :
    ((read_rows ignore_row 3 no_row body (two_response ++ []) eof).0
      ≡ told_rows ignore_row no_row two_docs)
    × ((read_rows ignore_row 3 no_row body (two_response ++ []) eof).1 ≡ some eof)
    × ((read_rows ignore_row 3 no_row body (two_response ++ []) eof).2.meta
        ≡ some (told_meta (bookmark ∷ []) (told_meta (total ∷ []) empty_meta)))
    × ((read_rows ignore_row 3 no_row body (two_response ++ []) eof).2.closed ≡ true)
drain-new_rows_example =
    drain-new_rows ignore_row (str "rows") body (total ∷ []) (bookmark ∷ []) two_docs [] eof no_row
      3 body_clean ((total_ne_rows, total_fits), tt) (bookmark_fits, tt)
      ((λ row. refl), ((λ row. refl), tt)) (omega arith)

abbrev found_response : Raw
found_response = print (response (total ∷ []) (str "docs") (str "docs") two_docs (bookmark ∷ []))

drain-new_find_rows_example :
    ((drain find_parser 3 no_row (new_find_rows body (new_decoder (found_response ++ []) eof))).0
      ≡ documents no_row two_docs)
    × ((drain find_parser 3 no_row (new_find_rows body (new_decoder (found_response ++ []) eof))).1
        ≡ some eof)
drain-new_find_rows_example =
    drain-new_find_rows (str "docs") body (total ∷ []) (bookmark ∷ []) two_docs [] eof no_row 3
      body_clean ((total_ne_docs, total_fits), tt) (bookmark_fits, tt) (omega arith)

docs_named : is_empty (str "docs") ≡ false
docs_named = refl

drain-response_example :
    drain find_parser 3 no_row
      (new_iter (some empty_meta) (str "docs") body (new_decoder (found_response ++ []) eof))
    ≡ (
      fills (filled fill_doc) no_row two_docs,
      some eof,
      ended find_parser set_member
          (filled fill_doc)
          (str "docs")
          (some body)
          (new_decoder (found_response ++ []) eof)
          (collect find_parser set_member
            (bookmark ∷ [])
            (collect find_parser set_member (total ∷ []) empty_meta))
          (reading [] eof top_value []),
    )
unfolding find_parser
drain-response_example =
    drain-response find_parser set_member (filled fill_doc) (str "docs") (str "docs") body
      (total ∷ []) (bookmark ∷ []) two_docs [] eof empty_meta no_row 3 docs_named body_clean
      (skips fill_doc (str "docs") (total ∷ []) ((total_ne_docs, total_fits), tt))
      (reads_members fill_doc (bookmark ∷ []) (bookmark_fits, tt))
      (reads_items fill_doc two_docs (Fits-doc two_docs)) (omega arith)

-- a change whose own members are not looked at
abbrev ignore_change : Raw → Change → Err × Change
ignore_change raw c = (none, c)

abbrev no_change : Change
no_change = record { seq = []; deleted = false; others = [] }

abbrev one_change : List Fields
one_change = field (str "seq") (str "seq") (text (str "1-a") (str "1-a")) end ∷ []

drain-changes_feed_example :
    (drain
        (changes_parser ignore_change)
        2
        no_change
        (new_changes_rows [] body (new_decoder (feed one_change) (failure 3)))
      ≡ (
        given (changes_parser ignore_change) (changed ignore_change) no_change one_change,
        some (feed_error (failure 3)),
        stopped
            (changes_parser ignore_change)
            (changed ignore_change)
            none
            body
            (new_decoder (feed one_change) (failure 3))
            (failure 3),
      ))
    × (last_seq
          (drain
            (changes_parser ignore_change)
            2
            no_change
            (new_changes_rows [] body (new_decoder (feed one_change) (failure 3)))).2
        ≡ err panic)
drain-changes_feed_example =
    drain-changes_feed ignore_change body (failure 3) one_change no_change 2 body_clean
      ((λ c. refl), tt) (omega arith)

run-IsLatched_example :
    IsLatched (run (call_read (read_done 5 none) ∷ call_close ∷ call_close ∷ []) (new_reader none))
run-IsLatched_example =
    run-IsLatched (call_read (read_done 5 none) ∷ call_close ∷ call_close ∷ []) none

abbrev closed_reader : Reader
closed_reader = record body { closed = true; err = some eof; cancels = 1; rc_closes = 1 }

closed_for_good_example :
    (run (call_close ∷ []) closed_reader ≡ closed_reader)
    × ((read (read_done 3 none) (run (call_close ∷ []) closed_reader)).0 ≡ 0)
    × ((read (read_done 3 none) (run (call_close ∷ []) closed_reader)).1 ≢ none)
closed_for_good_example = closed_for_good (call_close ∷ []) (read_done 3 none) closed_reader refl

abbrev parse_media : Bytes → Result (Bytes × Assoc Bytes)
parse_media s = ok (str "attachment", (str "filename", s) ∷ [])

abbrev manifest : Assoc AttMeta
manifest =
    (str "a.txt", record { content_type = str "text/plain"; size = some (pos 3); follows = true })
    ∷ []

abbrev part : Part
part = record {
  disposition = str "a.txt";
  content_length = [];
  content_type = none;
  content_encoding = [];
  content = 1;
}

abbrev no_attachment : Attachment
no_attachment = record {
  filename = [];
  size = pos 0;
  content_type = [];
  content_encoding = [];
  content = 0;
}

next-Fair_example : Fair manifest no_attachment (next parse_media manifest (ok part) no_attachment)
next-Fair_example = next-Fair parse_media manifest (ok part) no_attachment

abbrev doc_raw : Raw
doc_raw = print (obj (field (str "Value") (str "Value") (atom (str "1")) end))

member_value : member (str "value") doc_raw ≡ some (print (atom (str "1")))
unfolding member print
member_value = refl

abbrev in_query : Multi
in_query = record (new_multi (new_decoder [] eof) (some (failure 9)) none) {
  rows = some (rows_over (new_decoder [] eof));
  started = true;
}

abbrev quote_key : Bytes → Bytes
quote_key key = key

next_multi-close_multi_example :
    ((close_multi in_query).0 ≡ first_of_two (some (failure 9)) none)
    × ((next_multi find_parser quote_key no_row (close_multi in_query).1).0 ≡ some eof)
    × ((close_multi (close_times 3 in_query)).0 ≡ none)
    × ((next_multi find_parser quote_key no_row (close_multi (close_multi in_query).1).1).0
        ≡ some panic)
next_multi-close_multi_example =
    next_multi-close_multi find_parser quote_key no_row in_query (rows_over (new_decoder [] eof)) 2
      refl refl refl (omega arith)

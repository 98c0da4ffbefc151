-- ===== src/Tests/Methods.antt =====
-- The methods of the driver at concrete inputs: what they send is a list of calls.
use couchdb.Common.{
  ℕ, Bytes, str, equal, trim, List, [], ◌∷◌, ◌++◌, map, Option, none, some, ◌≡◌, refl, true, arith,
}
use couchdb.Common.Int.{pos}
use couchdb.Common.Assoc.{lookup, insert}
use couchdb.Errors.{Error, eof, http, missing_arg, Result, ok, err}
use couchdb.Json.Into.{find_member, into_int64, raw_text}
use couchdb.Json.{Raw, Decoder, new_decoder}
use couchdb.Json.Print.{text, atom, obj, end, field, print}
use couchdb.Iter.Body.{new_reader, close_reader}
use couchdb.Iter.Drain.{drain}
use couchdb.Chttp.Headers.{Header}
use couchdb.Chttp.Options.{text, no_options, new_options}
use couchdb.Chttp.Response.{Response, etag}
use couchdb.Wire.{Call, Net, object, db_path}
use couchdb.Wire.Sends.{Sent}
use couchdb.Server.{bare, db_exists, ping}
use couchdb.Server.Answers.{exists_by, up_by, probes_lem}
use couchdb.Server.Stats.{DbStats}
use couchdb.Documents.{fetch, header_value}
use couchdb.Documents.Get.{Multipart, type_related, rev_or_empty, get}
use couchdb.Documents.Get.Manifest.{Entry, Fits, last_of, metas, with_manifest, get-related}
use couchdb.Documents.RevsDiff.{
  revs_diff_parser, new_revs_diff_rows, diff_rows, diffs_read, drain-new_revs_diff_rows,
}
use couchdb.Bulk.{bulk_docs}
use couchdb.Bulk.Results.{
  Answer, stored, refused, answer_result, answers_body, rejected_error, bulk_docs-answers,
}
use couchdb.Methods.{DbMethod, call_db}
use couchdb.Methods.Once.{call_db-SendsOnce}
use couchdb.Methods.Refused.{call_db-missing}

abbrev pub answer : ℕ → Header → Option Decoder → Bytes → Response
answer status header body method = record {
  status = status;
  header = header;
  content_length = pos 10;
  request = some method;
  body = body;
}

abbrev status_of : Error → ℕ
status_of (http status reason) = status
status_of e = 500

-- every request gets the same answer, and is written down
abbrev pub net : Response → Net (List Call)
net r = record {
  request = λ c w. (ok r, c ∷ w);
  normal_path = λ p. ok p;
  join_path = λ ps. str "joined";
  path_escape = λ p. p;
  encode_values = λ vs. str "values";
  media_type = λ t. t;
  marshal = λ v. ok (str "null");
  parse_json = λ s. ok (text s);
  http_status = status_of;
}

abbrev fine : Net (List Call)
fine = net (answer 200 [] none (str "HEAD"))

abbrev base_stats : Raw → Result DbStats
base_stats raw = ok (record {
  disk_size = pos 0;
  external_size = pos 0;
  active_size = pos 0;
  update_seq = [];
  raw_response = [];
  others = raw;
})

call_db-SendsOnce_example :
    Sent fine [] (call_db fine base_stats (str "db") (DbMethod.find (text (str "{}")) []) []).1
call_db-SendsOnce_example =
    call_db-SendsOnce fine base_stats (str "db") (DbMethod.find (text (str "{}")) []) []

call_db-missing_example :
    call_db fine base_stats (str "db") (DbMethod.delete_doc (str "doc") []) []
    ≡ (err (missing_arg (str "rev")), [])
call_db-missing_example =
    call_db-missing fine base_stats (str "db") (DbMethod.delete_doc (str "doc") []) [] (str "rev")
      (unfold lookup in refl)

-- a server before 2.0
abbrev old_server : Response
old_server = answer 400 ((str "Server", str "CouchDB/1.6" ∷ []) ∷ []) none (str "HEAD")

probes_lem_example :
    (db_exists (net old_server) (str "db") [] ≡ (exists_by 400, bare (str "HEAD") (str "db") ∷ []))
    × (ping (net old_server) []
        ≡ (up_by 400 (header_value (str "Server") old_server), bare (str "HEAD") (str "/_up") ∷ []))
probes_lem_example =
    probes_lem (net old_server) b'd' (str "b") [] _ _ old_server old_server (λ status reason. refl)
      refl refl refl refl

-- RevsDiff
abbrev diff : Bytes
diff = str "missing"

drain-new_revs_diff_rows_example :
    drain revs_diff_parser 2
      (record { id = []; key = []; value = none; doc = none; error = none })
      (new_revs_diff_rows
        (new_reader none)
        (new_decoder (print (obj (field (str "a") (str "a") (obj end) end)) ++ []) eof))
    ≡ (
      diff_rows
          (record { id = []; key = []; value = none; doc = none; error = none })
          (field (str "a") (str "a") (obj end) end),
      some eof,
      diffs_read
          (new_reader none)
          (new_decoder (print (obj (field (str "a") (str "a") (obj end) end)) ++ []) eof)
          []
          eof,
    )
drain-new_revs_diff_rows_example =
    drain-new_revs_diff_rows (new_reader none) (field (str "a") (str "a") (obj end) end) [] eof
      (record { id = []; key = []; value = none; doc = none; error = none }) 2
      (unfold close_reader in refl) (omega arith)

-- BulkDocs, with a conflict
abbrev two_answers : List Answer
two_answers =
    stored (record { decoded = str "a"; raw = str "a" })
      (record { decoded = str "1-x"; raw = str "1-x" })
    ∷ refused (record { decoded = str "b"; raw = str "b" })
        (record { decoded = str "conflict"; raw = str "conflict" })
        (record { decoded = str "late"; raw = str "late" })
    ∷ []

abbrev rejecting : Response
rejecting = answer 417 [] (some (answers_body two_answers [] eof)) (str "POST")

abbrev bulk_request : Call
bulk_request = record {
  method = str "POST";
  path = str "db/_bulk_docs";
  opts = some no_options;
  payload = object (insert (str "docs") (text (str "docs")) []);
}

no_bulk_options : (new_options []).0 ≡ ok no_options
unfolding new_options lookup
no_bulk_options = refl

bulk_path : db_path (net rejecting) (str "db") (str "/_bulk_docs") ≡ ok (str "db/_bulk_docs")
unfolding db_path
bulk_path = refl

bulk_docs-answers_example :
    bulk_docs (net rejecting) (str "db") (text (str "docs")) [] []
    ≡ (ok (map answer_result two_answers, rejected_error true), bulk_request ∷ [])
bulk_docs-answers_example =
    bulk_docs-answers (net rejecting) (str "db") (text (str "docs")) [] no_options
      (str "db/_bulk_docs") [] _ rejecting true two_answers [] eof no_bulk_options bulk_path
      (unfold new_options lookup in refl) refl refl

-- Get of a document with an attachment
abbrev an_entry : Entry
an_entry = record {
  name = str "a.txt";
  raw = str "a.txt";
  fields =
      field (str "content_type") (str "content_type") (text (str "text/plain") (str "text/plain")) (
        field (str "revpos") (str "revpos") (atom (str "2")) (
          field (str "digest") (str "digest") (text (str "md5-x") (str "md5-x")) (
            field (str "length") (str "length") (atom (str "3"))
              (field (str "follows") (str "follows") (atom (str "true")) end))));
  kind = str "text/plain";
  kind_raw = str "text/plain";
  length = str "3";
  size = pos 3;
  follows = true;
}

abbrev entries : List Entry
entries = an_entry ∷ []

abbrev document : Decoder
document = new_decoder (print (obj (with_manifest [] entries))) eof

abbrev related : Response
related =
    answer 200 ((str "Content-Type", type_related ∷ []) ∷ (str "ETag", str "1-x" ∷ []) ∷ []) none
      (str "GET")

abbrev parts : Multipart
parts = record {
  parse_media = λ s. ok (s, (str "boundary", str "\"xyz\"") ∷ []);
  first_part = λ body boundary. ok document;
  read_part = λ d. ok d;
}

fetched :
    fetch (net related) (str "db") (str "GET") (str "a") [] []
    ≡ (ok related, (fetch (net related) (str "db") (str "GET") (str "a") [] []).1)
unfolding fetch lookup
fetched = refl

related_type :
    parts.parse_media (header_value (str "Content-Type") related)
    ≡ ok (type_related, (str "boundary", str "\"xyz\"") ∷ [])
unfolding lookup equal
related_type = refl

entry-Fits : Fits an_entry
unfolding equal raw_text into_int64 find_member print
entry-Fits = (refl, refl, refl, refl, refl)

get-related_example :
    (get (net related) parts (str "db") (str "a") [] [] ≡ (
      ok (record {
        rev = rev_or_empty (etag related);
        body = some document;
        attachments = some (metas entries);
      }),
      (fetch (net related) (str "db") (str "GET") (str "a") [] []).1,
    ))
    × ((name : Bytes) → lookup name (metas entries) ≡ last_of name entries)
get-related_example =
    get-related (net related) parts (str "db") (str "a") [] [] _ related
      ((str "boundary", str "\"xyz\"") ∷ []) b'x' (str "yz") document eof [] entries fetched
      related_type (unfold lookup trim equal in refl) refl refl (entry-Fits, tt)

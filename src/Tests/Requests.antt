-- ===== src/Tests/Requests.antt =====
-- Requests, their options and their responses at concrete inputs.
use couchdb.Common.{
  ℕ, str, equal, has_prefix, [], ◌∷◌, ◌++◌, none, some, ◌≡◌, refl, arith, true, false,
  if◌then◌else◌,
}
use couchdb.Common.Int.{pos}
use couchdb.Common.Assoc.{lookup, delete}
use couchdb.Errors.{Error, eof, curl, ok}
use couchdb.Json.{top_value}
use couchdb.Json.Print.{atom, text, obj, end, field, print}
use couchdb.Json.Read.Values.{reading}
use couchdb.Iter.Response.{Member, members}
use couchdb.Chttp.DocId.{encode_doc_id, prefix_design, prefix_local}
use couchdb.Chttp.DocId.RoundTrip.{unescape, unescape-encode_doc_id}
use couchdb.Chttp.Options.{
  bool, OptionMap, Options, no_options, option_full_commit, option_if_none_match, new_options,
}
use couchdb.Chttp.Options.Branches.{lookup-new_options}
use couchdb.Chttp.Headers.{Header, Request, set_headers}
use couchdb.Chttp.Headers.Sent.{Untouched, or_first, default_headers, lookup-set_headers}
use couchdb.Chttp.Response.{read_rev}
use couchdb.Chttp.Response.Ends.{Ends, read_rev-Ends}
use couchdb.Chttp.Response.Rev.{read_rev-found, read_rev-misled}

unescape-encode_doc_id_example :
    unescape (encode_doc_id (str "_design/a b+c")) ≡ some (str "_design/a b+c")
unescape-encode_doc_id_example = unescape-encode_doc_id (str "_design/a b+c") (ground arith)

no_design : has_prefix (str "a/b") prefix_design ≡ false
unfolding has_prefix
no_design = refl

no_local : has_prefix (str "a/b") prefix_local ≡ false
unfolding has_prefix
no_local = refl

abbrev id_member : Member
id_member = record { name = str "_id"; raw = str "_id"; value = text (str "x") (str "x") }

id_passed : (equal (str "_id") (str "_rev") ≡ false) × (equal (str "x") (str "_rev") ≡ false)
unfolding equal
id_passed = (refl, refl)

read_rev-found_example :
    read_rev (
      reading
        (print (
            obj (
              members
                (id_member ∷ [])
                (field (str "_rev") (str "_rev") (text (str "1-a") (str "1-a")) end)))
          ++ [])
        eof
        top_value
        [])
    ≡ ok (str "1-a")
read_rev-found_example =
    read_rev-found (id_member ∷ []) (str "_rev") (str "1-a") (str "1-a") end [] eof (id_passed, tt)

name_ne : equal (str "name") (str "_rev") ≡ false
unfolding equal
name_ne = refl

read_rev-misled_example :
    read_rev (
      reading
        (print (
            obj (
              field
                (str "name")
                (str "name")
                (text (str "_rev") (str "_rev"))
                (field (str "title") (str "title") (atom (str "1")) end)))
          ++ [])
        eof
        top_value
        [])
    ≡ ok (str "title")
read_rev-misled_example =
    read_rev-misled (str "name") (str "name") (str "_rev") (str "title") (str "title")
      (atom (str "1")) end [] eof name_ne

abbrev commit_option : OptionMap
commit_option = (option_full_commit, bool true) ∷ []

commit_accepted :
    (new_options commit_option).0
    ≡ ok (record no_options { full_commit = true; if_none_match = [] })
unfolding new_options lookup delete equal
commit_accepted = refl

lookup-new_options_example : lookup option_full_commit (new_options commit_option).1 ≡ (
    if equal option_full_commit option_full_commit
    then none
    else if equal option_if_none_match option_full_commit
    then none
    else lookup option_full_commit commit_option)
lookup-new_options_example =
    lookup-new_options commit_option (record no_options { full_commit = true; if_none_match = [] })
      option_full_commit commit_accepted

abbrev key_header : Header
key_header = (str "X-Idempotency-Key", []) ∷ []

abbrev pub bare_request : Request
bare_request = record {
  method = str "PUT";
  raw_path = [];
  raw_query = [];
  header = [];
  content_length = pos 0;
}

abbrev pub keyed : Options
keyed = record no_options { header = key_header }

key-Untouched : Untouched (str "X-Idempotency-Key")
unfolding equal
key-Untouched = (refl, refl, refl, refl)

lookup-set_headers_example :
    lookup (str "X-Idempotency-Key") (set_headers bare_request (some keyed)).header
    ≡ or_first
        (lookup (str "X-Idempotency-Key") bare_request.header)
        (lookup (str "X-Idempotency-Key") (default_headers (some keyed)))
lookup-set_headers_example =
    lookup-set_headers bare_request (some keyed) (str "X-Idempotency-Key") key-Untouched

-- the status of a curlError, and 500 for any other error
abbrev status_of : Error → ℕ
status_of (curl status e) = status
status_of e = 500

read_rev-Ends_example : Ends (read_rev (reading (print (obj end)) eof top_value []))
read_rev-Ends_example = read_rev-Ends (reading (print (obj end)) eof top_value []) (refl, refl)

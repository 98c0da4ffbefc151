-- ===== src/Database.antt =====
-- db.go: how a database call becomes a request (rowsQuery, AllDocs, DesignDocs, LocalDocs, Query and
-- get). Parameters stand for encoding/json (`marshal`) and for path.Join (`join_path`; filepath.Join is the same function of the paths here).
pub mod Calls
use couchdb.Common.{
  ℕ, Bytes, str, is_empty, trim_prefix, equal, Bool, true, false, not, ◌||◌, List, [], ◌∷◌, ◌++◌,
  Option, none, some, if◌then◌else◌, is_some,
}
use couchdb.Common.Int.{ℤ, pos, negsuc, parse_int64}
use couchdb.Common.Assoc.{Assoc, lookup, delete}
use couchdb.Errors.{Error, eof, message, missing_arg, bad_gateway, Err, Result, ok, err, ◌>>=◌}
use couchdb.Chttp.DocId.{encode_doc_id}
use couchdb.Chttp.Options.{
  Any, text, OptionMap, option_partition, option_no_multipart_get, Options, no_options, new_options,
}
use couchdb.Params.{Values, options_to_params}

-- what rowsQuery sends, and whether its rows are those of several queries; no payload is a GET
pub record RowsCall : Type 0 where
  pub path : Bytes
  pub payload : Assoc Any
  pub query : Values
  pub multi : Bool

abbrev pub is_post : RowsCall → Bool
is_post c = not (elim c.payload [ [] ↦ true | x ∷ xs ↦ false ])

-- an option that moves to the payload
abbrev pub moved : Bytes → Option Any → Assoc Any
moved name none = []
moved name (some v) = (name, v) ∷ []

abbrev pub without : Bytes → Option Any → OptionMap → OptionMap
without name none opts = opts
without name (some v) opts = delete name opts

abbrev pub without_keys : OptionMap → OptionMap
without_keys opts = without (str "keys") (lookup (str "keys") opts) opts

abbrev pub left : OptionMap → OptionMap
left opts = without (str "queries") (lookup (str "queries") (without_keys opts)) (without_keys opts)

abbrev pub with_query : Bytes → Assoc Any → Bool → Result Values → Result RowsCall
with_query path payload multi (err e) = err e
with_query path payload multi (ok query) =
    ok (record { path = path; payload = payload; query = query; multi = multi })

module _ (marshal : Any → Result Bytes) (join_path : List Bytes → Bytes) where
  abbrev pub queries_path : Bytes → Option Any → Bytes
  queries_path path none = path
  queries_path path (some v) = join_path (path ∷ str "queries" ∷ [])

  -- rowsQuery, before the request
  unfoldable pub rows_call : Bytes → OptionMap → Result RowsCall
  unfolding options_to_params
  rows_call path opts =
      let queries = lookup (str "queries") (without_keys opts) in
      with_query (queries_path path queries)
        (moved (str "keys") (lookup (str "keys") opts) ++ moved (str "queries") queries)
        (is_some queries) (options_to_params marshal (left opts ∷ [])).0

  -- the partition of AllDocs and Query
  abbrev pub in_partition : Bytes → Option Any → OptionMap → Result RowsCall
  in_partition path (some (text part)) opts =
      rows_call (join_path (str "_partition" ∷ part ∷ path ∷ [])) (delete option_partition opts)
  in_partition path v opts = rows_call path opts

  -- AllDocs, DesignDocs, LocalDocs and Query
  unfoldable pub all_docs : OptionMap → Result RowsCall
  unfolding rows_call
  all_docs opts = in_partition (str "_all_docs") (lookup option_partition opts) opts

  abbrev pub design_docs : OptionMap → Result RowsCall
  design_docs opts = rows_call (str "_design_docs") opts

  abbrev pub local_docs : OptionMap → Result RowsCall
  local_docs opts = rows_call (str "_local_docs") opts

  unfoldable pub query : Bytes → Bytes → OptionMap → Result RowsCall
  unfolding rows_call encode_doc_id
  query ddoc view opts =
      in_partition (str "_design/" ++ (encode_doc_id ddoc ++ (str "/_view/" ++ encode_doc_id view)))
        (lookup option_partition opts) opts

  -- get, before the request: the path behind the name of the database, and the options
  abbrev pub accept_of : Option Any → Bytes
  accept_of none = str "multipart/related,application/json"
  accept_of (some v) = str "application/json"

  abbrev pub with_params :
      Bytes → Options → OptionMap → Result Values × List OptionMap → Result (Bytes × Options)
  with_params doc_id o opts (err e, ms) = err e
  with_params doc_id o opts (ok query, ms) = ok (
    encode_doc_id doc_id,
    record o { accept = accept_of (lookup option_no_multipart_get opts); query = query },
  )

  abbrev pub with_options : Bytes → Result Options × OptionMap → Result (Bytes × Options)
  with_options doc_id (err e, opts) = err e
  with_options doc_id (ok o, opts) =
      with_params doc_id o opts (options_to_params marshal (opts ∷ []))

  unfoldable pub get_call : Bytes → OptionMap → Result (Bytes × Options)
  unfolding missing_arg new_options options_to_params encode_doc_id
  get_call doc_id opts =
      if is_empty doc_id
      then err (missing_arg (str "docID"))
      else with_options doc_id (new_options opts)

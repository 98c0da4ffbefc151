-- ===== src/Bulk.antt =====
-- bulk.go, and BulkGet of bulkget.go: several documents in one call.
pub mod Results
use couchdb.Common.{
  ℕ, Bytes, str, equal, ◌==◌, Bool, true, false, List, [], ◌∷◌, Option, none, some, if◌then◌else◌,
}
use couchdb.Common.Assoc.{Assoc, insert}
use couchdb.Errors.{
  Error, message, kivik, http, status_created, status_conflict, status_expectation_failed,
  status_internal_server_error, Err, Result, ok, err,
}
use couchdb.Json.{Raw}
use couchdb.Chttp.Options.{Any, OptionMap, Options, no_options, new_options}
use couchdb.Chttp.Response.{Response, response_error}
use couchdb.Params.{options_to_params}
use couchdb.Wire.{
  Payload, object, Call, Net, M, pure, lift, ◌>>=◌, ◌>>◌, idempotent, ◌>>?◌, as_struct,
  string_field, slice, ask, decode_json, db_path,
}

-- bulkDocResult
pub record BulkResult : Type 0 where
  pub id : Bytes
  pub rev : Bytes
  pub error : Err

-- the error of one document
unfoldable pub document_error : Bytes → Bytes → Err
unfolding equal
document_error [] reason = none
document_error (c ∷ kind) reason =
    if equal (c ∷ kind) (str "conflict")
    then some (kivik status_conflict (message reason))
    else some (kivik status_internal_server_error (message reason))

-- bulkDocResult.UnmarshalJSON
unfoldable pub bulk_result : Raw → Result BulkResult
unfolding as_struct string_field document_error
bulk_result raw = as_struct raw >>? (λ raw. string_field (str "id") raw >>? (λ id.
    string_field (str "rev") raw >>? (λ rev. string_field (str "error") raw >>? (λ kind.
      string_field (str "reason") raw
      >>? (λ reason. ok (record { id = id; rev = rev; error = document_error kind reason }))))))

module _ {World : Type 0} (n : Net World) (db_name : Bytes) where
  -- the switch over the status: an error ends the call; 417 is returned beside the results
  abbrev pub beside : ℕ → Err
  beside status =
      if status == status_expectation_failed
      then some (http status_expectation_failed (str "one or more document was rejected"))
      else none

  abbrev pub checked : Response → Result (Unit {0})
  checked r =
      if r.status == status_created
      then ok tt
      else if r.status == status_expectation_failed
      then ok tt
      else elim (response_error n.media_type r) [ none ↦ ok tt | some e ↦ err e ]

  -- BulkDocs: the options go into the body, beside the documents
  unfoldable pub bulk_docs : Any → OptionMap → M World (List BulkResult × Err)
  unfolding new_options insert db_path response_error decode_json slice bulk_result
  bulk_docs docs options = do
    o ← lift (new_options options).0
    path ← lift (db_path n db_name (str "/_bulk_docs"))
    r ← n.request (record {
      method = str "POST";
      path = path;
      opts = some o;
      payload = object (insert (str "docs") docs (new_options options).1);
    })
    lift (checked r)
    results ← decode_json n (slice bulk_result) r
    pure (results, beside r.status)

  -- BulkGet: the response whose body the rows read
  unfoldable pub bulk_get_docs : Any → OptionMap → M World Response
  unfolding options_to_params db_path ask
  bulk_get_docs docs options = do
    query ← lift (options_to_params n.marshal (options ∷ [])).0
    path ← lift (db_path n db_name (str "_bulk_get"))
    ask n (record {
      method = str "POST";
      path = path;
      opts = some (record no_options { query = query; header = idempotent });
      payload = object ((str "docs", docs) ∷ []);
    })

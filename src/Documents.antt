-- ===== src/Documents.antt =====
-- db.go: the methods on one document and on the database as a whole. Each is a computation that
-- checks its arguments, makes one call of the HTTP client, and reads the response.
pub mod Get
pub mod Put
pub mod RevsDiff
pub mod Stubs
use couchdb.Common.{
  ℕ, Bytes, str, is_empty, equal, trim, Bool, true, false, List, [], ◌∷◌, ◌++◌, Option, none, some,
  if◌then◌else◌, is_some,
}
use couchdb.Common.Assoc.{Assoc, lookup, delete}
use couchdb.Errors.{Error, panic, message, missing_arg, bad_gateway, Result, ok, err}
use couchdb.Json.{Raw, Decoder}
use couchdb.Chttp.DocId.{encode_doc_id}
use couchdb.Chttp.Headers.{Header, first_value, values, type_json}
use couchdb.Chttp.Options.{
  Any, text, other, OptionMap, option_partition, Options, no_options, new_options,
}
use couchdb.Chttp.Response.{Response, etag, get_rev}
use couchdb.Params.{Values, options_to_params}
use couchdb.Wire.{
  Payload, no_payload, encoded, object, Call, Net, M, pure, fail, lift, ◌>>=◌, ◌>>◌, require,
  idempotent, idempotent_options, ◌>>?◌, as_struct, string_field, ask, do_error, decode_json,
  do_json, db_path, parsed_options,
}
use couchdb.Database.{RowsCall, rows_call, get_call}

-- a header's first value, empty where it is missing
abbrev pub header_value : Bytes → Response → Bytes
header_value name r = first_value (values (lookup name r.header))

-- `options["rev"].(string)`: empty where it is missing or another type
abbrev pub rev_text : Option Any → Bytes
rev_text (some (text s)) = s
rev_text v = []

-- a call with options and no body
abbrev pub plain : Bytes → Bytes → Options → Call
plain method path o = record { method = method; path = path; opts = some o; payload = no_payload }

-- a call that may be repeated, with a body that may be empty
abbrev pub repeatable : Bytes → Bytes → Payload → Call
repeatable method path body = record {
  method = method;
  path = path;
  opts = some idempotent_options;
  payload = body;
}

module _ {World : Type 0} (n : Net World) (db_name : Bytes) where
  -- rowsQuery: the response whose body the rows read, and whether they are of several queries
  abbrev pub rows_request : RowsCall → Bytes → Call
  rows_request c path = elim c.payload [
    | [] ↦ plain (str "GET") path (record no_options { query = c.query })
    | x ∷ xs ↦ record {
      method = str "POST";
      path = path;
      opts = some (record no_options { query = c.query; header = idempotent });
      payload = object (x ∷ xs);
    }
  ]

  unfoldable pub rows_query : Result RowsCall → M World (Bool × Response)
  unfolding db_path ask
  rows_query prepared = do
    c ← lift prepared
    path ← lift (db_path n db_name c.path)
    r ← ask n (rows_request c path)
    pure (c.multi, r)

  -- get
  unfoldable pub fetch : Bytes → Bytes → OptionMap → M World Response
  unfolding get_call db_path ask
  fetch method doc_id options = do
    c ← lift (get_call n.marshal n.join_path doc_id options)
    path ← lift (db_path n db_name c.0)
    ask n (plain method path c.1)

  -- GetRev
  unfoldable pub rev_of : Bytes → OptionMap → M World Bytes
  unfolding fetch get_rev
  rev_of doc_id options = do r ← fetch (str "HEAD") doc_id options; lift (get_rev n.media_type r)

  -- CreateDoc: the parameters are in the path
  abbrev pub with_params : Bytes → Result Values → Result Bytes
  with_params path (err e) = err e
  with_params path (ok vs) = ok (path ++ (str "?" ++ n.encode_values vs))

  abbrev pub doc_path : OptionMap → Result Bytes
  doc_path [] = ok db_name
  doc_path (x ∷ options) = with_params db_name (options_to_params n.marshal ((x ∷ options) ∷ [])).0

  abbrev pub created : Raw → Result (Bytes × Bytes)
  created raw = as_struct raw >>? (λ raw.
      string_field (str "id") raw
      >>? (λ id. string_field (str "rev") raw >>? (λ rev. ok (id, rev))))

  unfoldable pub create_doc : Any → OptionMap → M World (Bytes × Bytes)
  unfolding new_options options_to_params do_json as_struct string_field
  create_doc doc options = do
    o ← lift (new_options options).0
    path ← lift (doc_path (new_options options).1)
    do_json n (record { method = str "POST"; path = path; opts = some o; payload = encoded doc })
        created

  -- Delete
  unfoldable pub delete_doc : Bytes → OptionMap → M World Bytes
  unfolding lookup parsed_options db_path encode_doc_id get_rev
  delete_doc doc_id options = do
    require (str "docID") doc_id
    require (str "rev") (rev_text (lookup (str "rev") options))
    o ← lift (parsed_options n options)
    path ← lift (db_path n db_name (encode_doc_id doc_id))
    r ← n.request (plain (str "DELETE") path o)
    lift (get_rev n.media_type r)

  -- Copy
  unfoldable pub copy : Bytes → Bytes → OptionMap → M World Bytes
  unfolding parsed_options db_path encode_doc_id get_rev
  copy target_id source_id options = do
    require (str "sourceID") source_id
    require (str "targetID") target_id
    o ← lift (parsed_options n options)
    path ← lift (db_path n db_name (encode_doc_id source_id))
    r ←
        n.request
          (plain (str "COPY") path (record o { header = (str "Destination", target_id ∷ []) ∷ [] }))
    lift (get_rev n.media_type r)

  -- Flush
  unfoldable pub flush : M World (Unit {0})
  unfolding db_path do_error
  flush = do
    path ← lift (db_path n db_name (str "/_ensure_full_commit"))
    do_error n (repeatable (str "POST") path no_payload)

  -- Compact
  unfoldable pub compact : M World (Unit {0})
  unfolding db_path do_error
  compact = do
    path ← lift (db_path n db_name (str "/_compact"))
    do_error n (repeatable (str "POST") path no_payload)

  -- CompactView
  unfoldable pub compact_view : Bytes → M World (Unit {0})
  unfolding db_path do_error
  compact_view ddoc_id = do
    require (str "ddocID") ddoc_id
    path ← lift (db_path n db_name (str "/_compact/" ++ ddoc_id))
    do_error n (repeatable (str "POST") path no_payload)

  -- ViewCleanup
  unfoldable pub view_cleanup : M World (Unit {0})
  unfolding db_path do_error
  view_cleanup = do
    path ← lift (db_path n db_name (str "/_view_cleanup"))
    do_error n (repeatable (str "POST") path no_payload)

  -- Security: what driver.Security is unmarshalled to is kept as its JSON
  unfoldable pub security : M World Raw
  unfolding db_path do_json
  security = do
    path ← lift (db_path n db_name (str "/_security"))
    do_json n (record { method = str "GET"; path = path; opts = none; payload = no_payload })
        (λ raw. ok raw)

  -- SetSecurity
  unfoldable pub set_security : Any → M World (Unit {0})
  unfolding db_path do_error
  set_security value = do
    path ← lift (db_path n db_name (str "/_security"))
    do_error n (repeatable (str "PUT") path (encoded value))

  -- Purge
  unfoldable pub purge : Any → M World Raw
  unfolding db_path do_json
  purge doc_map = do
    path ← lift (db_path n db_name (str "_purge"))
    do_json n (repeatable (str "POST") path (encoded doc_map)) (λ raw. ok raw)

  -- RevsDiff: the response whose body its rows read
  unfoldable pub revs_diff : Any → M World Response
  unfolding db_path ask
  revs_diff rev_map = do
    path ← lift (db_path n db_name (str "_revs_diff"))
    ask n (repeatable (str "POST") path (encoded rev_map))

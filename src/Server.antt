-- ===== src/Server.antt =====
-- client.go and cluster.go: the methods on the server. The feed of database updates is an iterator
-- whose items are unmarshalled by kivik's driver.DBUpdate, the parameter `unmarshal_update`.
pub mod Answers
pub mod Config
pub mod Stats
pub mod Info
use couchdb.Common.{
  ℕ, Bytes, str, is_empty, equal, has_prefix, ◌==◌, Bool, true, false, List, [], ◌∷◌, ◌++◌, Option,
  none, some, if◌then◌else◌,
}
use couchdb.Errors.{Error, panic, status_bad_request, status_not_found, Err, Result, ok, err}
use couchdb.Json.{Raw, Decoder}
use couchdb.Json.Into.{decode_into, member}
use couchdb.Iter.{Parser, Iter, new_iter}
use couchdb.Iter.Body.{Reader}
use couchdb.Chttp.Options.{Any, OptionMap, no_options}
use couchdb.Chttp.Response.{Response, response_error}
use couchdb.Params.{Values, options_to_params}
use couchdb.Documents.{header_value}
use couchdb.Wire.{
  Payload, no_payload, encoded, Call, Net, M, pure, lift, ◌>>=◌, ◌>>◌, require, handle, only_string,
  slice, text_value, ask, do_error, do_json,
}

-- a call without options
abbrev pub bare : Bytes → Bytes → Call
bare method path = record { method = method; path = path; opts = none; payload = no_payload }

module _ {World : Type 0} (n : Net World) where
  -- a call with the options as its query
  abbrev pub query_call : Bytes → Bytes → Result Values → Result Call
  query_call method path (err e) = err e
  query_call method path (ok query) = ok (record {
    method = method;
    path = path;
    opts = some (record no_options { query = query });
    payload = no_payload;
  })

  abbrev pub with_query : Bytes → Bytes → OptionMap → Result Call
  with_query method path options =
      query_call method path (options_to_params n.marshal (options ∷ [])).0

  -- AllDBs
  unfoldable pub all_dbs : OptionMap → M World (List Bytes)
  unfolding options_to_params do_json slice
  all_dbs options = do
    c ← lift (with_query (str "GET") (str "/_all_dbs") options)
    do_json n c (slice text_value)

  -- DBExists
  abbrev pub unless_missing : Result (Unit {0}) → Result Bool
  unless_missing (ok u) = ok true
  unless_missing (err e) = if n.http_status e == status_not_found then ok false else err e

  unfoldable pub db_exists : Bytes → M World Bool
  unfolding do_error
  db_exists db_name = do
    require (str "dbName") db_name
    handle unless_missing (do_error n (bare (str "HEAD") db_name))

  -- CreateDB
  unfoldable pub create_db : Bytes → OptionMap → M World (Unit {0})
  unfolding options_to_params do_error
  create_db db_name options = do
    require (str "dbName") db_name
    c ← lift (with_query (str "PUT") (n.path_escape db_name) options)
    do_error n c

  -- DestroyDB
  unfoldable pub destroy_db : Bytes → M World (Unit {0})
  unfolding do_error
  destroy_db db_name = do
    require (str "dbName") db_name
    do_error n (bare (str "DELETE") (n.path_escape db_name))

  -- DBUpdates: the response whose body the feed reads
  unfoldable pub db_updates : M World Response
  unfolding ask
  db_updates = ask n (bare (str "GET") (str "/_db_updates?feed=continuous&since=now"))

  -- Ping: status 400 is asked of the Server header, which panics where there is no response
  abbrev pub ping_error : Result Bool → Error → Result Bool
  ping_error old e =
      if n.http_status e == status_bad_request
      then old
      else if n.http_status e == status_not_found
      then ok false
      else err e

  abbrev pub is_old : Response → Bool
  is_old r = has_prefix (header_value (str "Server") r) (str "CouchDB/1.")

  abbrev pub ping_answer : Response → Err → Result Bool
  ping_answer r none = ok true
  ping_answer r (some e) = ping_error (ok (is_old r)) e

  abbrev pub pinged : Result Response → Result Bool
  pinged (err e) = ping_error (err panic) e
  pinged (ok r) = ping_answer r (response_error n.media_type r)

  unfoldable pub ping : M World Bool
  unfolding response_error has_prefix
  ping = handle pinged (n.request (bare (str "HEAD") (str "/_up")))

  -- ClusterStatus, ClusterSetup and Membership
  unfoldable pub cluster_status : OptionMap → M World Bytes
  unfolding options_to_params do_json only_string
  cluster_status options = do
    c ← lift (with_query (str "GET") (str "/_cluster_setup") options)
    do_json n c (only_string (str "state"))

  unfoldable pub cluster_setup : Any → M World (Unit {0})
  unfolding do_error
  cluster_setup action = do_error n (record {
    method = str "POST";
    path = str "/_cluster_setup";
    opts = some no_options;
    payload = encoded action;
  })

  unfoldable pub membership : M World Raw
  unfolding do_json
  membership = do_json n (bare (str "GET") (str "/_membership")) (λ raw. ok raw)

-- updatesParser and newUpdates: no metadata, and no key around the rows
module _ {Update : Type 0} (unmarshal_update : Raw → Update → Err × Update) where
  unfoldable pub updates_parser : Parser (Unit {0}) Update
  unfolding decode_into
  updates_parser = record {
    decode_item = λ row d. decode_into unmarshal_update row d;
    parse_meta = none;
  }

abbrev pub new_updates : Reader → Decoder → Iter (Unit {0})
new_updates body source = new_iter none [] body source

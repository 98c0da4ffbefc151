-- ===== src/Replication/Calls.antt =====
-- replication.go and scheduler.go: what Replicate, Delete and GetReplications send, and how the
-- documents of a replication are unmarshalled. `parse_time` is time.Parse for RFC 3339, as seconds.
pub mod Deleted
use couchdb.Common.{
  ℕ, Bytes, str, equal, trim, has_prefix, Bool, true, false, List, [], ◌∷◌, ◌++◌, map, Option, none,
  some, if◌then◌else◌, is_some,
}
use couchdb.Common.Int.{ℤ, pos, parse_int64}
use couchdb.Common.Assoc.{Assoc, lookup, insert, delete}
use couchdb.Errors.{open_obj, Error, panic, message, missing_arg, bad_gateway, Err, Result, ok, err}
use couchdb.Json.{delim, Raw}
use couchdb.Json.Into.{member, raw_text, is_null}
use couchdb.Chttp.Options.{Any, text, bool, OptionMap, no_options}
use couchdb.Chttp.Response.{Response}
use couchdb.Params.{Values, options_to_params}
use couchdb.Wire.{
  no_payload, object, Call, Net, M, pure, fail, lift, ◌>>=◌, ◌>>◌, ◌>>?◌, as_struct, struct_field,
  raw_field, string_field, text_value, int_field, only_string, slice_of, do_json,
}
use couchdb.Documents
use couchdb.Server.{bare}
use couchdb.Replication.{StateNames, ReplicatorDoc, Replication, replication_error, replications}
use couchdb.Scheduler.{
  RepInfo, SchedulerDoc, SchedulerReplication, no_info, blank, scheduler_supported,
}
use couchdb.Scheduler

-- the state of the client: whether the scheduler is there, once that is known
abbrev pub Known : Type 0
Known = Option Bool

-- Replicate: the source and the target of the options come first
abbrev pub unless_given : Bytes → Bytes → OptionMap → OptionMap
unless_given key value options =
    if is_some (lookup key options) then options else insert key (text value) options

abbrev pub is_blank : Option Any → Bool
is_blank (some (text [])) = true
is_blank v = false

abbrev pub not_blank : Bytes → Option Any → Result (Unit {0})
not_blank name v = if is_blank v then err (missing_arg name) else ok tt

unfoldable pub replicate_options : Bytes → Bytes → OptionMap → OptionMap
unfolding lookup insert
replicate_options target source options =
    unless_given (str "target") target (unless_given (str "source") source options)

-- the document that was made, and whether it is the scheduler that reports on it
pub record Started : Type 0 where
  pub doc_id : Bytes
  pub scheduled : Bool

-- the reason of a replication, as its error: null is no error
abbrev pub reason_value : Raw → Result Error
reason_value raw = text_value raw >>? (λ reason. ok (replication_error reason))

abbrev pub reason_of : Option Raw → Result Err
reason_of none = ok none
reason_of (some v) = if is_null v then ok none else (reason_value v >>? (λ e. ok (some e)))

module _ (parse_time : Bytes → Result ℤ) where
  -- replicationStateTime.UnmarshalJSON, with the seconds of old versions
  abbrev pub epoch : Option ℤ → Result ℤ
  epoch (some seconds) = ok seconds
  epoch none = err (bad_gateway (message (str "kivik: not a valid timestamp")))

  abbrev pub or_epoch : Bytes → Result ℤ → Result ℤ
  or_epoch s (ok t) = ok t
  or_epoch s (err e) = epoch (parse_int64 s)

  unfoldable pub state_time : Raw → Result ℤ
  unfolding trim raw_text parse_int64
  state_time raw = or_epoch (trim b'"' (raw_text raw)) (parse_time (trim b'"' (raw_text raw)))

  abbrev pub state_time_of : Option Raw → Result ℤ
  state_time_of none = ok (pos 0)
  state_time_of (some v) = state_time v

  -- what replicatorDoc is unmarshalled to
  unfoldable pub replicator_doc : Raw → Result ReplicatorDoc
  unfolding as_struct string_field member state_time
  replicator_doc raw = as_struct raw >>? (λ raw. string_field (str "_id") raw >>? (λ id.
      string_field (str "_replication_id") raw >>? (λ replication_id.
        string_field (str "source") raw >>? (λ source.
          string_field (str "target") raw >>? (λ target.
            string_field (str "_replication_state") raw >>? (λ state.
              state_time_of (member (str "_replication_state_time") raw) >>? (λ time.
                reason_of (member (str "_replication_state_reason") raw) >>? (λ error. ok (record {
                  doc_id = id;
                  replication_id = replication_id;
                  source = source;
                  target = target;
                  state = state;
                  state_time = time;
                  error = error;
                })))))))))

  abbrev pub row_doc : Raw → Result ReplicatorDoc
  row_doc raw =
      as_struct raw >>? (λ raw. struct_field (str "doc") raw >>? (λ doc. replicator_doc doc))

-- the path of a list, with its parameters
abbrev pub list_path : Bytes → (Values → Bytes) → Values → Bytes
list_path path encode values = path ++ (str "?" ++ encode values)

-- legacyGetReplications: the options that it takes out and puts in
unfoldable pub list_options : OptionMap → OptionMap
unfolding insert delete
list_options options =
    insert (str "include_docs") (bool true)
      (delete (str "update_seq") (delete (str "conflicts") options))

module _ {World : Type 0} (n : Net World) where
  -- Delete of both kinds of replication: the revision that a first request finds is deleted by a second one
  unfoldable pub delete_replication : Bytes → Bytes → M World (Unit {0})
  unfolding Documents.rev_of Documents.delete_doc
  delete_replication db_name doc_id = do
    rev ← Documents.rev_of n db_name doc_id []
    gone ← Documents.delete_doc n db_name doc_id ((str "rev", text rev) ∷ [])
    pure tt

  -- the detection of the scheduler, where `supported` is schedulerSupported
  unfoldable pub replicate : M World Bool → (target source : Bytes) → OptionMap → M World Started
  unfolding replicate_options lookup do_json only_string
  replicate supported target source options = do
    lift (
        not_blank (str "targetDSN")
          (lookup (str "target") (replicate_options target source options)))
    lift (
        not_blank (str "sourceDSN")
          (lookup (str "source") (replicate_options target source options)))
    scheduled ← supported
    id ←
        do_json n
          (record {
            method = str "POST";
            path = str "/_replicator";
            opts = some no_options;
            payload = object (replicate_options target source options);
          })
          (only_string (str "id"))
    pure (record { doc_id = id; scheduled = scheduled })

  -- legacyGetReplications
  unfoldable pub legacy_list :
      StateNames → (Bytes → Result ℤ) → OptionMap → M World (List Replication)
  unfolding list_options options_to_params do_json as_struct member replicator_doc replications
  legacy_list names parse_time options = do
    values ← lift (options_to_params n.marshal (list_options options ∷ [])).0
    docs ←
        do_json n
          (bare (str "GET") (list_path (str "/_replicator/_all_docs") n.encode_values values))
          (λ raw.
            as_struct raw >>? (λ raw. slice_of (row_doc parse_time) (member (str "rows") raw)))
    pure (replications names docs)

-- repInfo.UnmarshalJSON, on a fresh repInfo. An error that is null is a nil pointer in an interface,
-- whose methods panic.
abbrev pub with_error : Err → RepInfo
with_error e = record no_info { error = e }

abbrev pub pointer_error : Err → Err
pointer_error none = some panic
pointer_error (some e) = some e

unfoldable pub object_info : Raw → Result RepInfo
unfolding int_field
object_info raw = int_field (str "docs_read") raw >>? (λ docs_read.
    int_field (str "docs_written") raw >>? (λ docs_written.
      int_field (str "doc_write_failures") raw >>? (λ failures.
        int_field (str "changes_pending") raw >>? (λ pending. ok (record {
          error = none;
          docs_read = docs_read;
          docs_written = docs_written;
          doc_write_failures = failures;
          pending = pending;
        })))))

abbrev pub by_first : Raw → Result RepInfo
by_first (delim open_obj ∷ ls) = object_info (delim open_obj ∷ ls)
by_first raw = reason_value raw >>? (λ e. ok (with_error (some e)))

unfoldable pub rep_info : Raw → Result RepInfo
unfolding raw_text equal has_prefix member object_info
rep_info raw =
    if is_null raw
    then ok no_info
    else if has_prefix (raw_text raw) (str "{\"error\":")
    then reason_of (member (str "error") raw) >>? (λ e. ok (with_error (pointer_error e)))
    else by_first raw

abbrev pub info_of : Option Raw → Result RepInfo
info_of none = ok no_info
info_of (some v) = rep_info v

-- a time.Time, whose zero value stands where the member is missing or null
abbrev pub time_value : (Bytes → Result ℤ) → Option Raw → Result ℤ
time_value parse_time none = ok (pos 0)
time_value parse_time (some v) = if is_null v then ok (pos 0) else (text_value v >>? parse_time)

-- what schedulerDoc is unmarshalled to
unfoldable pub scheduler_doc : (Bytes → Result ℤ) → Raw → Result SchedulerDoc
unfolding as_struct string_field member rep_info
scheduler_doc parse_time raw = as_struct raw >>? (λ raw.
    string_field (str "database") raw >>? (λ database.
      string_field (str "doc_id") raw >>? (λ doc_id. string_field (str "id") raw >>? (λ id.
        string_field (str "source") raw >>? (λ source.
          string_field (str "target") raw >>? (λ target.
            time_value parse_time (member (str "start_time") raw) >>? (λ start_time.
              time_value parse_time (member (str "last_updated") raw) >>? (λ last_updated.
                string_field (str "state") raw >>? (λ state.
                  info_of (member (str "info") raw) >>? (λ info. ok (record {
                    database = database;
                    doc_id = doc_id;
                    replication_id = id;
                    source = source;
                    target = target;
                    start_time = start_time;
                    last_updated = last_updated;
                    state = state;
                    info = info;
                  })))))))))))

-- newSchedulerReplication
abbrev pub new_scheduled : SchedulerDoc → SchedulerReplication
new_scheduled doc = Scheduler.set_from_doc doc (blank [] [])

module _ {World : Type 0} (n : Net World) where
  -- getReplicationsFromScheduler
  unfoldable pub scheduler_list :
      (Bytes → Result ℤ) → OptionMap → M World (List SchedulerReplication)
  unfolding options_to_params do_json as_struct member scheduler_doc Scheduler.set_from_doc
  scheduler_list parse_time options = do
    values ← lift (options_to_params n.marshal (options ∷ [])).0
    docs ←
        do_json n (bare (str "GET") (list_path (str "/_scheduler/docs") n.encode_values values))
          (λ raw.
            as_struct raw
            >>? (λ raw. slice_of (scheduler_doc parse_time) (member (str "docs") raw)))
    pure (map new_scheduled docs)

-- ===== src/Scheduler.antt =====
-- scheduler.go: replications that the `_scheduler` endpoints report on, and their detection.
pub mod Tracking
use couchdb.Common.{
  ℕ, zero, suc, ◌==◌, Bytes, str, equal, has_prefix, is_empty, Bool, true, false, ◌||◌, List, [],
  ◌∷◌, Option, none, some, if◌then◌else◌,
}
use couchdb.Common.Int.{ℤ, pos}
use couchdb.Errors.{
  Error, http, message, stuck, status_ok, status_unauthorized, status_not_found, status_bad_request,
  status_internal_server_error, Err, Result, ok, err,
}

-- repInfo; the error is nil where there is none
pub record RepInfo : Type 0 where
  pub error : Err
  pub docs_read : ℤ
  pub docs_written : ℤ
  pub doc_write_failures : ℤ
  pub pending : ℤ

-- schedulerDoc; times are seconds
pub record SchedulerDoc : Type 0 where
  pub database : Bytes
  pub doc_id : Bytes
  pub replication_id : Bytes
  pub source : Bytes
  pub target : Bytes
  pub start_time : ℤ
  pub last_updated : ℤ
  pub state : Bytes
  pub info : RepInfo

-- The zero time stands for a time that is not set: none.
pub record SchedulerReplication : Type 0 where
  pub doc_id : Bytes
  pub database : Bytes
  pub replication_id : Bytes
  pub source : Bytes
  pub target : Bytes
  pub start_time : Option ℤ
  pub last_updated : Option ℤ
  pub state : Bytes
  pub info : RepInfo

abbrev pub no_info : RepInfo
no_info = record {
  error = none;
  docs_read = pos 0;
  docs_written = pos 0;
  doc_write_failures = pos 0;
  pending = pos 0;
}

abbrev pub blank : Bytes → Bytes → SchedulerReplication
blank doc_id database = record {
  doc_id = doc_id;
  database = database;
  replication_id = [];
  source = [];
  target = [];
  start_time = none;
  last_updated = none;
  state = [];
  info = no_info;
}

-- setFromDoc: the first assignments are made once, while the source is empty
abbrev pub set_identity : Bytes → SchedulerDoc → SchedulerReplication → SchedulerReplication
set_identity [] doc r = record r {
  doc_id = doc.doc_id;
  database = doc.database;
  replication_id = doc.replication_id;
  source = doc.source;
  target = doc.target;
  start_time = some doc.start_time;
}
set_identity (c ∷ s) doc r = r

unfoldable pub set_from_doc : SchedulerDoc → SchedulerReplication → SchedulerReplication
set_from_doc doc r = record (set_identity r.source doc r) {
  last_updated = some doc.last_updated;
  state = doc.state;
  info = doc.info;
}

-- isBug1000
unfoldable pub is_bug1000 : Err → Bool
unfolding equal
is_bug1000 (some (http status reason)) =
    if status == status_internal_server_error then equal reason (str "function_clause") else false
is_bug1000 e = false

-- update: the answers of the server in their order; it asks again while the error is the known bug.
-- It returns the answers that are left; none left is the model's end, not the program's.
unfoldable pub update :
    List (Result SchedulerDoc)
    → SchedulerReplication
    → Err × SchedulerReplication × List (Result SchedulerDoc)
unfolding set_from_doc is_bug1000
update [] r = (some stuck, r, [])
update (ok doc ∷ answers) r = (none, set_from_doc doc r, answers)
update (err e ∷ answers) r =
    let again = update answers r in if is_bug1000 (some e) then again else (some e, r, answers)

-- fetchSchedulerReplication: it polls while the source is empty
unfoldable pub fetch_loop :
    ℕ → List (Result SchedulerDoc) → SchedulerReplication → Err × SchedulerReplication
unfolding update
fetch_loop zero answers r = (some stuck, r)
fetch_loop (suc f) answers r = elim r.source [
  | c ∷ s ↦ (none, r)
  | [] ↦
      (let (e, r', left) = update answers r in
        elim e [ some x ↦ (some x, r') | none ↦ fetch_loop f left r' ])
]

-- EndTime: none is the zero time
unfoldable pub end_time : SchedulerReplication → Option ℤ
unfolding equal
end_time r =
    if equal r.state (str "failed") || equal r.state (str "completed") then r.last_updated else none

-- schedulerSupported: the status of a HEAD request, kept in the client once it is known
abbrev pub supported_by : ℕ → Bool
supported_by status =
    if status == status_bad_request
    then false
    else if status == status_not_found
    then false
    else status == status_ok || status == status_unauthorized

unfoldable pub scheduler_supported : Result ℕ → Option Bool → Result Bool × Option Bool
scheduler_supported answer (some b) = (ok b, some b)
scheduler_supported (err e) none = (err e, none)
scheduler_supported (ok status) none = (ok (supported_by status), some (supported_by status))

-- ===== src/Replication.antt =====
-- replication.go: legacy replications, polled from the `_replicator` database and `_active_tasks`.
-- `http_status` is kivik.HTTPStatus.
pub mod Calls
pub mod Polling
pub mod Requests
use couchdb.Common.{
  ℕ, ◌==◌, Bytes, str, equal, Bool, true, false, List, [], ◌∷◌, Option, none, some, if◌then◌else◌,
}
use couchdb.Common.Int.{ℤ}
use couchdb.Errors.{
  Error, message, kivik, replication, status_not_found, status_request_timeout, status_unauthorized,
  status_internal_server_error, Err, Result, ok, err,
}

-- strings.SplitN(s, sep, 2)[0] for a separator of one byte
unfoldable pub before_byte : ℕ → Bytes → Bytes
before_byte q [] = []
before_byte q (c ∷ s) = let rest = before_byte q s in if c == q then [] else c ∷ rest

-- the status that a reason stands for
unfoldable pub reason_status : Bytes → ℕ
unfolding before_byte equal
reason_status reason =
    let kind = before_byte b':' reason in
    if equal kind (str "db_not_found")
    then status_not_found
    else if equal kind (str "timeout")
    then status_request_timeout
    else if equal kind (str "unauthorized")
    then status_unauthorized
    else status_internal_server_error

-- replicationError.UnmarshalJSON, behind the unmarshalling of the reason
unfoldable pub replication_error : Bytes → Error
unfolding reason_status
replication_error reason = replication (reason_status reason) reason

-- replicatorDoc; times are seconds, and `error` is nil where the document has no reason
pub record ReplicatorDoc : Type 0 where
  pub doc_id : Bytes
  pub replication_id : Bytes
  pub source : Bytes
  pub target : Bytes
  pub state : Bytes
  pub state_time : ℤ
  pub error : Err

-- replication, without its lock and its database
pub record Replication : Type 0 where
  pub doc_id : Bytes
  pub replication_id : Bytes
  pub source : Bytes
  pub target : Bytes
  pub start_time : Option ℤ
  pub end_time : Option ℤ
  pub state : Bytes
  pub err : Err

-- newReplication
abbrev pub new_replication : Bytes → Replication
new_replication doc_id = record {
  doc_id = doc_id;
  replication_id = [];
  source = [];
  target = [];
  start_time = none;
  end_time = none;
  state = [];
  err = none;
}

-- a value that is set once, by the first document that has it
abbrev pub or_first : Bytes → Bytes → Bytes
or_first [] new = new
or_first (c ∷ s) new = c ∷ s

-- kivik.ReplicationState: the texts of ReplicationStarted, ReplicationError and ReplicationComplete
pub record StateNames : Type 0 where
  pub started : Bytes
  pub error : Bytes
  pub complete : Bytes

-- the times by the switch over the state
abbrev pub new_start : StateNames → ReplicatorDoc → Option ℤ → Option ℤ
new_start names doc old = if equal doc.state names.started then some doc.state_time else old

abbrev pub new_end : StateNames → ReplicatorDoc → Option ℤ → Option ℤ
new_end names doc old =
    if equal doc.state names.started
    then old
    else if equal doc.state names.error
    then some doc.state_time
    else if equal doc.state names.complete
    then some doc.state_time
    else old

-- setFromReplicatorDoc
unfoldable pub set_from_doc : StateNames → ReplicatorDoc → Replication → Replication
set_from_doc names doc r = record r {
  start_time = new_start names doc r.start_time;
  end_time = new_end names doc r.end_time;
  state = doc.state;
  err = doc.error;
  source = or_first r.source doc.source;
  target = or_first r.target doc.target;
  replication_id = or_first r.replication_id doc.replication_id;
}

-- updateMain: `getReplicatorDoc` gives the document or an error
unfoldable pub update_main : StateNames → Result ReplicatorDoc → Replication → Err × Replication
unfolding set_from_doc
update_main names (err e) r = (some e, r)
update_main names (ok doc) r = (none, set_from_doc names doc r)

-- activeTask
pub record ActiveTask : Type 0 where
  pub kind : Bytes
  pub replication_id : Bytes
  pub docs_written : ℤ
  pub docs_read : ℤ
  pub doc_write_failures : ℤ

abbrev pub task_not_found : Error
task_not_found = kivik status_not_found (message (str "task not found"))

abbrev pub is_task_of : Bytes → ActiveTask → Bool
is_task_of replication_id t =
    if equal t.kind (str "replication")
    then equal (before_byte b'+' t.replication_id) replication_id
    else false

-- the loop of updateActiveTasks over the decoded tasks
unfoldable pub find_task : Bytes → List ActiveTask → Result ActiveTask
unfolding before_byte
find_task replication_id [] = err task_not_found
find_task replication_id (t ∷ ts) =
    let rest = find_task replication_id ts in if is_task_of replication_id t then ok t else rest

-- driver.ReplicationInfo
pub record Info : Type 0 where
  pub doc_write_failures : ℤ
  pub docs_read : ℤ
  pub docs_written : ℤ
  pub progress : ℕ

abbrev pub then_find : Bytes → Result (List ActiveTask) → Result ActiveTask
then_find replication_id (err e) = err e
then_find replication_id (ok ts) = find_task replication_id ts

abbrev pub set_info : (Error → ℕ) → Result ActiveTask → Info → Err × Info
set_info http_status (err e) info =
    if http_status e == status_not_found then (none, info) else (some e, info)
set_info http_status (ok t) info = (
  none,
  record info {
    doc_write_failures = t.doc_write_failures;
    docs_read = t.docs_read;
    docs_written = t.docs_written;
  },
)

abbrev pub with_tasks :
    (Error → ℕ) → Result (List ActiveTask) → Info → Err × Replication → Err × Replication × Info
with_tasks http_status tasks info (some e, r) = (some e, r, info)
with_tasks http_status tasks info (none, r) =
    if equal r.state (str "complete")
    then (none, r, record info { progress = 100 })
    else let (e, info') = set_info http_status (then_find r.replication_id tasks) info in
      (e, r, info')

-- Update: `doc` and `tasks` are what the two requests give
unfoldable pub update :
    StateNames
    → (Error → ℕ)
    → Result ReplicatorDoc
    → Result (List ActiveTask)
    → Replication
    → Info
    → Err × Replication × Info
unfolding update_main find_task
update names http_status doc tasks r info =
    with_tasks http_status tasks info (update_main names doc r)

-- the loop of legacyGetReplications over the documents of the `_replicator` database
unfoldable pub replications : StateNames → List ReplicatorDoc → List Replication
unfolding set_from_doc
replications names [] = []
replications names (doc ∷ docs) =
    let rest = replications names docs in
    if equal doc.doc_id (str "_design/_replicator")
    then rest
    else set_from_doc names doc (new_replication doc.doc_id) ∷ rest

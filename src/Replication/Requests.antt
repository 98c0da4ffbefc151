-- ===== src/Replication/Requests.antt =====
-- replication.go and scheduler.go: what a replication object asks of the server. The `_replicator`
-- document and the active tasks are those of replication.go, `_scheduler/docs` is that of scheduler.go;
-- Replicate ends with a first poll of either.
pub mod Reported
pub mod Polled
use couchdb.Common.{
  ℕ, zero, suc, Bytes, str, equal, Bool, true, false, List, [], ◌∷◌, ◌++◌, Option, none, some,
  if◌then◌else◌,
}
use couchdb.Common.Int.{ℤ}
use couchdb.Errors.{Error, panic, stuck, Err, Result, ok, err}
use couchdb.Json.{Raw, Decoder}
use couchdb.Json.Read.{decode}
use couchdb.Json.Into.{is_null}
use couchdb.Chttp.DocId.{encode_doc_id}
use couchdb.Chttp.Options.{OptionMap}
use couchdb.Chttp.Response.{Response}
use couchdb.Wire.{
  Call, Net, M, and_go, pure, lift, ◌>>=◌, ◌>>?◌, as_struct, string_field, int_field, slice,
  do_json,
}
use couchdb.Documents.Get.{Multipart, Document}
use couchdb.Documents.Get
use couchdb.Server.{bare}
use couchdb.Replication.{
  StateNames, ReplicatorDoc, Replication, new_replication, update_main, ActiveTask, Info, then_find,
  set_info,
}
use couchdb.Replication.Calls.{
  Known, Started, replicator_doc, scheduler_doc, replicate, scheduler_list, legacy_list,
}
use couchdb.Scheduler.{
  RepInfo, SchedulerDoc, SchedulerReplication, blank, set_from_doc, is_bug1000, scheduler_supported,
}

abbrev pub replicator : Bytes
replicator = str "_replicator"

-- An element of the active tasks. One that is null is a nil pointer, whose use panics.
unfoldable pub active_task : Raw → Result ActiveTask
unfolding as_struct string_field int_field
active_task raw =
    if is_null raw
    then err panic
    else (as_struct raw >>? (λ raw. string_field (str "type") raw >>? (λ kind.
        string_field (str "replication_id") raw >>? (λ id.
          int_field (str "docs_written") raw >>? (λ written.
            int_field (str "docs_read") raw >>? (λ reads.
              int_field (str "doc_write_failures") raw >>? (λ failures. ok (record {
                kind = kind;
                replication_id = id;
                docs_written = written;
                docs_read = reads;
                doc_write_failures = failures;
              }))))))))

-- driver.ReplicationInfo, as Update of a scheduled replication fills it
abbrev pub counted : RepInfo → Info → Info
counted i info = record info {
  doc_write_failures = i.doc_write_failures;
  docs_read = i.docs_read;
  docs_written = i.docs_written;
}

-- what Replicate returns
pub data Replicated : Type 0 where
  by_scheduler : SchedulerReplication → Replicated
  by_document : Replication → Replicated

-- what GetReplications returns
pub data Listed : Type 0 where
  by_scheduler_docs : List SchedulerReplication → Listed
  by_documents : List Replication → Listed

module _ {World : Type 0} (n : Net World) where
  -- schedulerSupported, under its lock: the answer is kept in the client
  abbrev pub status_answer : Result Response → Result ℕ
  status_answer (err e) = err e
  status_answer (ok r) = ok r.status

  abbrev pub noted : World → Result Bool × Known → Result Bool × Known × World
  noted w (b, known) = (b, known, w)

  unfoldable pub detect : Known → World → Result Bool × Known × World
  unfolding scheduler_supported
  detect (some b) w = (ok b, some b, w)
  detect none w =
      let (r, w') = n.request (bare (str "HEAD") (str "_scheduler/jobs")) w in
      noted w' (scheduler_supported (status_answer r) none)

module _ {World : Type 0} (n : Net World) (parse_time : Bytes → Result ℤ) where
  -- the request of `update` of a scheduled replication
  abbrev pub scheduled_call : SchedulerReplication → Call
  scheduled_call r =
      bare (str "GET")
        (str "/_scheduler/docs/" ++ (r.database ++ (str "/" ++ encode_doc_id r.doc_id)))

  unfoldable pub scheduled_doc : SchedulerReplication → M World SchedulerDoc
  unfolding do_json encode_doc_id scheduler_doc
  scheduled_doc r = do_json n (scheduled_call r) (scheduler_doc parse_time)

  -- `update`, which calls itself while the answer is the known bug, on fuel
  abbrev pub retried :
      M World SchedulerReplication
      → SchedulerReplication
      → Result SchedulerDoc × World
      → Result SchedulerReplication × World
  retried again r (ok doc, w) = (ok (set_from_doc doc r), w)
  retried again r (err e, w) = if is_bug1000 (some e) then again w else (err e, w)

  unfoldable pub update_scheduled : ℕ → SchedulerReplication → M World SchedulerReplication
  unfolding scheduled_doc set_from_doc is_bug1000
  update_scheduled zero r w = (err stuck, w)
  update_scheduled (suc f) r w = retried (update_scheduled f r) r (scheduled_doc r w)

  -- Update of a scheduled replication
  unfoldable pub refresh : ℕ → SchedulerReplication → Info → M World (SchedulerReplication × Info)
  unfolding update_scheduled
  refresh f r info = update_scheduled f r >>= (λ r'. pure (r', counted r'.info info))

  -- the loop of fetchSchedulerReplication, on fuel; `f` is that of each `update`
  unfoldable pub fetch_rounds : ℕ → ℕ → SchedulerReplication → M World SchedulerReplication
  unfolding update_scheduled
  fetch_rounds f zero r w = (err stuck, w)
  fetch_rounds f (suc k) r w = elim r.source [
    | c ∷ s ↦ (ok r, w)
    | [] ↦ and_go (update_scheduled f r w) (fetch_rounds f k)
  ]

  -- fetchSchedulerReplication
  unfoldable pub fetch_scheduled : ℕ → Bytes → M World SchedulerReplication
  unfolding fetch_rounds
  fetch_scheduled f doc_id = fetch_rounds f f (blank doc_id replicator)

  -- updateActiveTasks, up to the search in the list
  unfoldable pub active_tasks : M World (List ActiveTask)
  unfolding do_json slice active_task
  active_tasks = do_json n (bare (str "GET") (str "/_active_tasks")) (slice active_task)

  module _ (mp : Multipart) (names : StateNames) where
    -- getReplicatorDoc
    abbrev pub body_doc : Option Decoder → Result ReplicatorDoc
    body_doc none = err panic
    body_doc (some d) = (decode d).0 >>? replicator_doc parse_time

    unfoldable pub get_replicator_doc : Bytes → M World ReplicatorDoc
    unfolding Get.get decode replicator_doc
    get_replicator_doc doc_id = Get.get n mp replicator doc_id [] >>= (λ d. lift (body_doc d.body))

    -- updateMain
    abbrev pub set_main : Replication → Result ReplicatorDoc × World → Err × Replication × World
    set_main r (doc, w) = let (e, r') = update_main names doc r in (e, r', w)

    unfoldable pub poll : Replication → World → Err × Replication × World
    unfolding get_replicator_doc update_main
    poll r w = set_main r (get_replicator_doc r.doc_id w)

    -- fetchReplication, which drops the error
    abbrev pub first_poll : Err × Replication × World → Replication × World
    first_poll (e, r, w) = (r, w)

    unfoldable pub fetch_replication : Bytes → World → Replication × World
    unfolding poll
    fetch_replication doc_id w = first_poll (poll (new_replication doc_id) w)

    -- Update
    abbrev pub with_active :
        Replication → Info → Result (List ActiveTask) × World → Err × Replication × Info × World
    with_active r info (tasks, w) =
        let (e, info') = set_info n.http_status (then_find r.replication_id tasks) info in
        (e, r, info', w)

    abbrev pub after_main : Info → Err × Replication × World → Err × Replication × Info × World
    after_main info (some e, r, w) = (some e, r, info, w)
    after_main info (none, r, w) =
        if equal r.state (str "complete")
        then (none, r, record info { progress = 100 }, w)
        else with_active r info (active_tasks w)

    unfoldable pub update_call : Replication → Info → World → Err × Replication × Info × World
    unfolding poll active_tasks
    update_call r info w = after_main info (poll r w)

    -- GetReplications
    unfoldable pub get_replications : M World Bool → OptionMap → M World Listed
    unfolding scheduler_list legacy_list
    get_replications supported options = supported >>= (λ b.
        if b
        then (scheduler_list n parse_time options >>= (λ rs. pure (by_scheduler_docs rs)))
        else (legacy_list n names parse_time options >>= (λ rs. pure (by_documents rs))))

    -- Replicate, with the first poll; `f` bounds the polls of the scheduler
    unfoldable pub replicate_call :
        ℕ → M World Bool → Bytes → Bytes → OptionMap → M World Replicated
    unfolding replicate fetch_scheduled fetch_replication
    replicate_call f supported target source options =
        replicate n supported target source options >>= (λ s.
          if s.scheduled
          then (fetch_scheduled f s.doc_id >>= (λ r. pure (by_scheduler r)))
          else (λ w. let (r, w') = fetch_replication s.doc_id w in (ok (by_document r), w')))

-- ===== src/Replication/Polling.antt =====
-- A replication over any number of polls.
use couchdb.Common.{
  ℕ, ◌==◌, Bytes, str, equal, List, [], ◌∷◌, none, some, if◌then◌else◌, ◌≡◌, refl, arith,
}
use couchdb.Errors.{Error, Err, Result, ok, err}
use couchdb.Replication.{
  ReplicatorDoc, Replication, StateNames, ActiveTask, Info, or_first, set_from_doc, update_main,
  find_task, task_not_found, update, set_info,
}

-- one poll after the other
unfoldable pub polls : StateNames → List (Result ReplicatorDoc) → Replication → Replication
polls names [] r = r
polls names (d ∷ ds) r = polls names ds (update_main names d r).1

-- the first of the documents that has a value
abbrev pub first_of : (ReplicatorDoc → Bytes) → Bytes → List (Result ReplicatorDoc) → Bytes
first_of field old [] = old
first_of field old (err e ∷ ds) = first_of field old ds
first_of field old (ok doc ∷ ds) = first_of field (or_first old (field doc)) ds

-- the last of the documents gives the state
abbrev pub last_state : Bytes → List (Result ReplicatorDoc) → Bytes
last_state old [] = old
last_state old (err e ∷ ds) = last_state old ds
last_state old (ok doc ∷ ds) = last_state doc.state ds

abbrev pub last_error : Err → List (Result ReplicatorDoc) → Err
last_error old [] = old
last_error old (err e ∷ ds) = last_error old ds
last_error old (ok doc ∷ ds) = last_error doc.error ds

-- After any polls, failed ones among them: the document ID is as before, the source, the target and
-- the replication ID are the first that were not empty, and the state and the error are the last.
pub polls_lem :
    (names : StateNames) (ds : List (Result ReplicatorDoc)) (r : Replication)
    → ((polls names ds r).doc_id ≡ r.doc_id)
      × ((polls names ds r).source ≡ first_of (λ d. d.source) r.source ds)
      × ((polls names ds r).target ≡ first_of (λ d. d.target) r.target ds)
      × ((polls names ds r).replication_id ≡ first_of (λ d. d.replication_id) r.replication_id ds)
      × ((polls names ds r).state ≡ last_state r.state ds)
      × ((polls names ds r).err ≡ last_error r.err ds)
unfolding polls update_main
polls_lem names [] r = (refl, refl, refl, refl, refl, refl)
polls_lem names (err e ∷ ds) r = polls_lem names ds r
polls_lem names (ok doc ∷ ds) r = polls_lem names ds (set_from_doc names doc r)

-- a list of tasks is never a failure: the replication may not be in it
set_info-find_task :
    (http_status : Error → ℕ) (id : Bytes) (ts : List ActiveTask) (info : Info)
    → http_status task_not_found ≡ 404
    → (set_info http_status (find_task id ts) info).0 ≡ none
unfolding find_task
set_info-find_task http_status id [] info h = ground arith
set_info-find_task http_status id (t ∷ ts) info h =
    ground (arith, set_info-find_task http_status id ts info h)

-- what the tasks make of an update that has its document
abbrev pub tasks_error : (Error → ℕ) → Bytes → Result (List ActiveTask) → Err
tasks_error http_status state (ok ts) = none
tasks_error http_status state (err e) =
    if equal state (str "complete") then none else if http_status e == 404 then none else some e

-- Update, once it has the document, fails exactly where the task list cannot be had: not where the
-- replication is complete or is in no task, and not where the error counts as status 404.
pub update_error :
    (names : StateNames) (http_status : Error → ℕ) (doc : ReplicatorDoc)
    (tasks : Result (List ActiveTask)) (r : Replication) (info : Info)
    → http_status task_not_found ≡ 404
    → (update names http_status (ok doc) tasks r info).0 ≡ tasks_error http_status doc.state tasks
unfolding update
update_error names http_status doc (ok ts) r info h =
    ground (
      arith,
      set_info-find_task http_status (or_first r.replication_id doc.replication_id) ts info h,
    )
update_error names http_status doc (err e) r info h = ground arith

-- ===== src/Tests/Replications.antt =====
-- Replications at concrete inputs.
use couchdb.Common.{ℕ, str, List, [], ◌∷◌, none, some, ◌≡◌, refl, true, false}
use couchdb.Common.Int.{pos}
use couchdb.Errors.{Error, kivik, http, failure, Result, ok, err}
use couchdb.Replication.{ReplicatorDoc, StateNames, Info, new_replication}
use couchdb.Replication.Polling.{polls, first_of, last_state, last_error, polls_lem}
use couchdb.Scheduler.{SchedulerDoc, no_info, is_bug1000}

abbrev names : StateNames
names = record { started = str "triggered"; error = str "error"; complete = str "completed" }

abbrev doc : ReplicatorDoc
doc = record {
  doc_id = str "r";
  replication_id = str "1";
  source = str "a";
  target = str "b";
  state = str "triggered";
  state_time = pos 5;
  error = none;
}

abbrev two_polls : List (Result ReplicatorDoc)
two_polls = err (failure 1) ∷ ok doc ∷ []

polls_lem_example :
    ((polls names two_polls (new_replication (str "r"))).doc_id ≡ str "r")
    × ((polls names two_polls (new_replication (str "r"))).source
        ≡ first_of (λ d. d.source) [] two_polls)
    × ((polls names two_polls (new_replication (str "r"))).target
        ≡ first_of (λ d. d.target) [] two_polls)
    × ((polls names two_polls (new_replication (str "r"))).replication_id
        ≡ first_of (λ d. d.replication_id) [] two_polls)
    × ((polls names two_polls (new_replication (str "r"))).state ≡ last_state [] two_polls)
    × ((polls names two_polls (new_replication (str "r"))).err ≡ last_error none two_polls)
polls_lem_example = polls_lem names two_polls (new_replication (str "r"))

abbrev no_progress : Info
no_progress = record {
  doc_write_failures = pos 0;
  docs_read = pos 0;
  docs_written = pos 0;
  progress = 0;
}

-- the status of a kivik error, and 500 for any other error
abbrev status_of : Error → ℕ
status_of (kivik status e) = status
status_of e = 500

abbrev job : SchedulerDoc
job = record {
  database = str "_replicator";
  doc_id = str "r";
  replication_id = str "1";
  source = str "a";
  target = str "b";
  start_time = pos 1;
  last_updated = pos 2;
  state = str "running";
  info = no_info;
}

abbrev bug : Error
bug = http 500 (str "function_clause")

bug_known : is_bug1000 (some bug) ≡ true
unfolding is_bug1000
bug_known = refl

other_error : is_bug1000 (some (failure 2)) ≡ false
unfolding is_bug1000
other_error = refl

abbrev bugs : List (Result SchedulerDoc)
bugs = err bug ∷ []

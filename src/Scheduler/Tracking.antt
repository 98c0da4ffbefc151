-- ===== src/Scheduler/Tracking.antt =====
-- A scheduled replication over any number of polls, and the detection of the scheduler.
use couchdb.Common.{true, false, List, [], ◌∷◌, ◌++◌, none, some, ◌≡◌, refl, All, ◌∙◌}
use couchdb.Errors.{Error, Result, ok, err}
use couchdb.Scheduler.{SchedulerDoc, SchedulerReplication, set_from_doc, is_bug1000, update}

abbrev pub IsBug : Result SchedulerDoc → Type 0
IsBug (ok doc) = ⊥
IsBug (err e) = is_bug1000 (some e) ≡ true

-- Any number of answers with the known bug are passed over, and the next answer decides.
update-append :
    (bugs : List (Result SchedulerDoc)) (answers : List (Result SchedulerDoc))
    (r : SchedulerReplication)
    → All IsBug bugs
    → update (bugs ++ answers) r ≡ update answers r
unfolding update
update-append [] answers r h = refl
update-append (ok doc ∷ bugs) answers r h = absurd h.0
update-append (err e ∷ bugs) answers r (b, h) = rw (b, update) (update-append bugs answers r h)

-- The retry ends with the first answer that is not the known bug: a document is taken over, and any
-- other error is returned with the replication as it was; later answers are not asked for.
pub update_first :
    (bugs answers : List (Result SchedulerDoc)) (doc : SchedulerDoc) (e : Error)
    (r : SchedulerReplication)
    → All IsBug bugs
    → is_bug1000 (some e) ≡ false
    → (update (bugs ++ ok doc ∷ answers) r ≡ (none, set_from_doc doc r, answers))
      × (update (bugs ++ err e ∷ answers) r ≡ (some e, r, answers))
update_first bugs answers doc e r h other = (
  update-append bugs (ok doc ∷ answers) r h ∙ (unfold update in refl),
  update-append bugs (err e ∷ answers) r h ∙ (unfold update in (rw (other, update))),
)

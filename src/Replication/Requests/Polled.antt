-- ===== src/Replication/Requests/Polled.antt =====
-- Update of a legacy replication as its requests, against `update` on what the requests give.
use couchdb.Common.{
  ℕ, Bytes, str, equal, arith, none, some, ◌≡◌, refl, Bool, Option, Bool-cases, inl, inr,
}
use couchdb.Common.Int.{ℤ}
use couchdb.Errors.{Err, Result, ok, err}
use couchdb.Wire.{Net}
use couchdb.Documents.Get.{Multipart}
use couchdb.Replication.{StateNames, Replication, Info, update_main, with_tasks, update}
use couchdb.Scheduler.{scheduler_supported}
use couchdb.Replication.Requests.{
  active_tasks, get_replicator_doc, poll, after_main, update_call, detect, noted,
}

-- the outcome without the world outside
abbrev pub outcome : {World : Type 0} → Err × Replication × Info × World → Err × Replication × Info
outcome (e, r, info, w) = (e, r, info)

module _ {World : Type 0} (n : Net World) (parse_time : Bytes → Result ℤ) (mp : Multipart)
    (names : StateNames) where
  after_main-with_tasks :
      (info : Info) (x : Err × Replication) (w : World)
      → outcome (after_main n parse_time mp names info (x.0, x.1, w))
        ≡ with_tasks n.http_status (active_tasks n parse_time w).0 info x
  after_main-with_tasks info (some e, r) w = refl
  after_main-with_tasks info (none, r) w = elim (Bool-cases (equal r.state (str "complete"))) [
    | inl done ↦ rw done refl
    | inr more ↦ rw more refl
  ]

  -- Update sends for the document and then, where the replication is not complete, for the active tasks:
  -- its error, the replication and the counts are those that the two answers determine.
  pub update_call-update :
      (r : Replication) (info : Info) (w : World)
      → let (doc, w') = get_replicator_doc n parse_time mp names r.doc_id w in
        outcome (update_call n parse_time mp names r info w)
        ≡ update names n.http_status doc (active_tasks n parse_time w').0 r info
  unfolding update_call poll update
  update_call-update r info w =
      let (doc, w') = get_replicator_doc n parse_time mp names r.doc_id w in
      after_main-with_tasks info (update_main names doc r) w'

known-noted :
    {World : Type 0} (n : Net World) (a : Result ℕ) (k : Option Bool) (w w' : World) (b : Bool)
    → noted n w (scheduler_supported a none) ≡ (ok b, k, w')
    → k ≡ some b
unfolding scheduler_supported
known-noted n (err e) k w w' b h = ground arith
known-noted n (ok status) k w w' b h = ground arith

known-detect :
    {World : Type 0} (n : Net World) (known k : Option Bool) (w w' : World) (b : Bool)
    → detect n known w ≡ (ok b, k, w')
    → k ≡ some b
unfolding detect
known-detect n (some x) k w w' b h = ground arith
known-detect n none k w w' b h = known-noted n _ k _ w' b h

-- Once the scheduler's presence is known, it is not asked for again, and the answer stays.
pub detect-detect :
    {World : Type 0} (n : Net World) (known k : Option Bool) (w w' v : World) (b : Bool)
    → detect n known w ≡ (ok b, k, w')
    → detect n k v ≡ (ok b, k, v)
unfolding detect
detect-detect n known k w w' v b h = rw (known-detect n known k w w' b h) refl

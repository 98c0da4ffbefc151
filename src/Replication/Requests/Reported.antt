-- ===== src/Replication/Requests/Reported.antt =====
-- A replication that the scheduler comes to report on, and how the two polls of Update follow.
use couchdb.Common.{ℕ, zero, suc, ◌<◌, ◌≤◌, Bytes, true, [], ◌∷◌, some, ◌≡◌, refl, ap, ◌∙◌, arith}
use couchdb.Common.Int.{ℤ}
use couchdb.Errors.{Error, Result, ok, err}
use couchdb.Wire.{Net, and_go}
use couchdb.Scheduler.{SchedulerDoc, SchedulerReplication, set_from_doc, is_bug1000, blank}
use couchdb.Replication.Requests.{
  scheduled_doc, retried, update_scheduled, fetch_rounds, fetch_scheduled, replicator,
}

module _ {World : Type 0} (n : Net World) (parse_time : Bytes → Result ℤ) where
  -- What the server answers from the world `w` on, while the replication has no source: the known bug
  -- and documents without a source, `k` answers in all, until a document brings the source.
  pub data Reports : SchedulerReplication → World → SchedulerReplication → World → ℕ → Type 0 where
    reported :
        {r : SchedulerReplication} {w : World} {c : ℕ} {s : Bytes}
        → r.source ≡ c ∷ s
        → Reports r w r w 0
    hit_bug :
        {r r' : SchedulerReplication} {w w' w'' : World} {k : ℕ} {e : Error}
        → r.source ≡ []
        → scheduled_doc n parse_time r w ≡ (err e, w')
        → is_bug1000 (some e) ≡ true
        → Reports r w' r' w'' k
        → Reports r w r' w'' (suc k)
    got_doc :
        {r r' : SchedulerReplication} {w w' w'' : World} {k : ℕ} {d : SchedulerDoc}
        → r.source ≡ []
        → scheduled_doc n parse_time r w ≡ (ok d, w')
        → Reports (set_from_doc d r) w' r' w'' k
        → Reports r w r' w'' (suc k)

  retry_bug :
      (g : ℕ) (r : SchedulerReplication) (w w' : World) (e : Error)
      → scheduled_doc n parse_time r w ≡ (err e, w')
      → is_bug1000 (some e) ≡ true
      → update_scheduled n parse_time (suc g) r w ≡ update_scheduled n parse_time g r w'
  unfolding update_scheduled
  retry_bug g r w w' e h bug =
      ap (retried n parse_time (update_scheduled n parse_time g r) r) h ∙ rw bug refl

  take_doc :
      (g : ℕ) (r : SchedulerReplication) (w w' : World) (d : SchedulerDoc)
      → scheduled_doc n parse_time r w ≡ (ok d, w')
      → update_scheduled n parse_time (suc g) r w ≡ (ok (set_from_doc d r), w')
  unfolding update_scheduled
  take_doc g r w w' d h = ap (retried n parse_time (update_scheduled n parse_time g r) r) h

  rounds_empty :
      (f k : ℕ) (r : SchedulerReplication) (w : World)
      → r.source ≡ []
      → fetch_rounds n parse_time f (suc k) r w
        ≡ and_go (update_scheduled n parse_time f r w) (fetch_rounds n parse_time f k)
  unfolding fetch_rounds
  rounds_empty f k r w h = rw h refl

  rounds_full :
      (f k c : ℕ) (s : Bytes) (r : SchedulerReplication) (w : World)
      → r.source ≡ c ∷ s
      → fetch_rounds n parse_time f (suc k) r w ≡ (ok r, w)
  unfolding fetch_rounds
  rounds_full f k c s r w h = rw h refl

  abbrev Fetched : SchedulerReplication → World → SchedulerReplication → World → ℕ → ℕ → ℕ → Type 0
  Fetched r w r' w' f g k =
      and_go (update_scheduled n parse_time g r w) (fetch_rounds n parse_time f k) ≡ (ok r', w')

  rounds_step :
      {r r' : SchedulerReplication} {w w' : World} {m : ℕ} (f k : ℕ)
      → Reports r w r' w' m
      → (r.source ≡ [] → Fetched r w r' w' f f k)
      → fetch_rounds n parse_time f (suc k) r w ≡ (ok r', w')
  rounds_step f k (reported e) h = rounds_full f k _ _ _ _ e
  rounds_step f k (hit_bug e q b p) h = rounds_empty f k _ _ e ∙ h e
  rounds_step f k (got_doc e q p) h = rounds_empty f k _ _ e ∙ h e

  update-Reports :
      {r r' : SchedulerReplication} {w w' : World} {m : ℕ} (f g k : ℕ)
      → Reports r w r' w' m
      → r.source ≡ []
      → m ≤ f
      → m ≤ g
      → m ≤ k
      → Fetched r w r' w' f g k
  update-Reports f g k (reported e') e hf hg hk = ground (arith, e, e')
  update-Reports f zero k (hit_bug e' q b p) e hf hg hk = ground arith
  update-Reports f (suc g) k (hit_bug {w = w} {w' = w'} e' q b p) e hf hg hk =
      ap (λ x. and_go x (fetch_rounds n parse_time f k)) (retry_bug g _ w w' _ q b)
      ∙ update-Reports f g k p e (omega arith) (omega arith) (omega arith)
  update-Reports f zero k (got_doc e' q p) e hf hg hk = ground arith
  update-Reports f (suc g) zero (got_doc e' q p) e hf hg hk = ground arith
  update-Reports f (suc g) (suc k) (got_doc {w = w} {w' = w'} e' q p) e hf hg hk =
      ap (λ x. and_go x (fetch_rounds n parse_time f (suc k))) (take_doc g _ w w' _ q)
      ∙ rounds_step f k p
          (λ e2. update-Reports f f k p e2 (omega arith) (omega arith) (omega arith))

  -- If the scheduler comes to report on the replication after `m` answers, which are the known bug or
  -- documents without a source, then polling ends with exactly that report: it is not given up, nor
  -- repeated behind it. The model's bound on the polls is more than `m`.
  pub fetch_scheduled-Reports :
      (doc_id : Bytes) (r' : SchedulerReplication) (w w' : World) (m f : ℕ)
      → Reports (blank doc_id replicator) w r' w' m
      → m < f
      → fetch_scheduled n parse_time f doc_id w ≡ (ok r', w')
  unfolding fetch_scheduled
  fetch_scheduled-Reports doc_id r' w w' m zero p lt = elim lt [ ]
  fetch_scheduled-Reports doc_id r' w w' m (suc f) p lt =
      rounds_step (suc f) f p
        (λ e. update-Reports (suc f) (suc f) f p e (omega arith) (omega arith) (omega arith))

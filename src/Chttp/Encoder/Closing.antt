-- ===== src/Chttp/Encoder/Closing.antt =====
-- Close of a body of EncodeBody returns: the goroutine comes to its end once the reader is closed.
use couchdb.Common.{ℕ, suc, ◌+◌, ◌≤◌, Bytes, true, false, ◌≡◌, ◌⊎◌, inl, inr, refl, arith}
use couchdb.Errors.{Result, ok, err}
use couchdb.Chttp.Encoder.{
  Writer, start, writing, closing, closed, ended, Pipe, first_write, Writes, encode, refuse,
  close_with_error, close_done, write, Reach, later,
}
use couchdb.Chttp.Encoder.Delivery.{Stands, Reach-IsSound}

-- the steps that are left
abbrev rank : Writer → ℕ
rank start = 4
rank (writing s) = 3
rank (closing e) = 2
rank closed = 1
rank ended = 0

first_rank : (r : Result Bytes) → rank (first_write r) ≤ 3
first_rank (ok s) = omega arith
first_rank (err e) = omega arith

rank-le : (w : Writer) → rank w ≤ 4
rank-le start = omega arith
rank-le (writing s) = omega arith
rank-le (closing e) = omega arith
rank-le closed = omega arith
rank-le ended = omega arith

module _ (plan : Result Bytes) where
  -- `k` steps of the goroutine
  pub data Run (p : Pipe) : ℕ → Pipe → Type 0 where
    stop : Run p 0 p
    onward : {k : ℕ} {q q' : Pipe} → Run p k q → Writes plan q q' → Run p (suc k) q'

  lower : {p q : Pipe} → Writes plan p q → suc (rank q.writer) ≤ rank p.writer
  lower (encode e) = rw e (omega (arith, first_rank plan))
  lower (refuse e off) = rw e (omega arith)
  lower (close_with_error e) = rw e (omega arith)
  lower (close_done e) = rw e (omega arith)

  stays_closed : {p q : Pipe} → Writes plan p q → p.reading ≡ false → q.reading ≡ false
  stays_closed (encode e) h = h
  stays_closed (refuse e off) h = h
  stays_closed (close_with_error e) h = h
  stays_closed (close_done e) h = h

  Run-rank : {p q : Pipe} {k : ℕ} → Run p k q → k + rank q.writer ≤ rank p.writer
  Run-rank stop = omega arith
  Run-rank (onward r w) = omega (arith, Run-rank r, lower w)

  Run-closed : {p q : Pipe} {k : ℕ} → Run p k q → p.reading ≡ false → q.reading ≡ false
  Run-closed stop h = h
  Run-closed (onward r w) h = stays_closed w (Run-closed r h)

  Run-Reach : {p q : Pipe} {k : ℕ} → Run p k q → Reach plan p → Reach plan q
  Run-Reach stop h = h
  Run-Reach (onward r w) h = later (Run-Reach r h) (write w)

  abbrev pub GoesOn : Pipe → Type 0
  GoesOn q = (q.done ≡ true) ⊎ ((q' : Pipe) × Writes plan q q')

  goes_on : (q : Pipe) (w : Writer) → q.writer ≡ w → Stands plan q w → q.reading ≡ false → GoesOn q
  goes_on q start e h off = inr (_, encode e)
  goes_on q (writing s) e h off = inr (_, refuse e off)
  goes_on q (closing x) e h off = inr (_, close_with_error e)
  goes_on q closed e h off = inr (_, close_done e)
  goes_on q ended e h off = inl h.1

  -- Once the reader is closed, in whatever state: the goroutine makes at most four more steps, and until
  -- `done` is closed, so that Close returns, there is always a next one: it waits for nobody.
  pub Run-GoesOn :
      (p q : Pipe) (k : ℕ) → Reach plan p → p.reading ≡ false → Run p k q → (k ≤ 4) × GoesOn q
  Run-GoesOn p q k r off run = (
    omega (arith, Run-rank run, rank-le p.writer),
    goes_on q q.writer refl (Reach-IsSound plan (Run-Reach run r)).stands (Run-closed run off),
  )

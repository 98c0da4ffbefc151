-- ===== src/Iter/Body/Latch.antt =====
-- The reader as a state machine: whatever the order of reads, closes and cancellations.
use couchdb.Common.{ℕ, true, false, List, [], ◌∷◌, none, some, ◌≡◌, ◌≢◌, refl, ◌∙◌, ap, arith}
use couchdb.Errors.{Err, Error}
use couchdb.Iter.Body.{
  Reader, new_reader, close_reader, Outcome, read_done, context_done, end_read, read, hide_eof,
}

-- One step of a goroutine. `finish_read` is the end of a `Read` that began before other steps.
pub data Event : Type 0 where
  call_close : Event
  call_read finish_read : Outcome → Event

unfoldable pub step : Event → Reader → Reader
unfolding close_reader read
step call_close r = (close_reader r).1
step (call_read o) r = (read o r).2
step (finish_read o) r = (end_read o r).2

unfoldable pub run : List Event → Reader → Reader
run [] r = r
run (x ∷ xs) r = run xs (step x r)

-- Closed exactly when the context is cancelled and the wrapped body closed, each once.
pub record IsLatched (r : Reader) : Type 0 where
  pub open_cancels : r.closed ≡ false → r.cancels ≡ 0
  pub open_closes : r.closed ≡ false → r.rc_closes ≡ 0
  pub open_err : r.closed ≡ false → r.err ≡ none
  pub closed_cancels : r.closed ≡ true → r.cancels ≡ 1
  pub closed_closes : r.closed ≡ true → r.rc_closes ≡ 1

step-IsLatched : (x : Event) (r : Reader) → IsLatched r → IsLatched (step x r)
unfolding step
step-IsLatched call_close r h = ground arith
step-IsLatched (call_read (context_done e)) r h = ground arith
step-IsLatched (call_read (read_done n none)) r h = ground arith
step-IsLatched (call_read (read_done n (some e))) r h = ground arith
step-IsLatched (finish_read (context_done e)) r h = ground arith
step-IsLatched (finish_read (read_done n none)) r h = ground arith
step-IsLatched (finish_read (read_done n (some e))) r h = ground arith

run-keeps : (xs : List Event) (r : Reader) → IsLatched r → IsLatched (run xs r)
unfolding run
run-keeps [] r h = h
run-keeps (x ∷ xs) r h = run-keeps xs (step x r) (step-IsLatched x r h)

new_reader-IsLatched : (c : Err) → IsLatched (new_reader c)
new_reader-IsLatched c = ground arith

-- After any steps from a new reader the wrapped body has been closed, and the context cancelled,
-- exactly once if the reader is closed, and never if it is open; an open reader holds no error.
pub run-IsLatched : (xs : List Event) (c : Err) → IsLatched (run xs (new_reader c))
run-IsLatched xs c = run-keeps xs (new_reader c) (new_reader-IsLatched c)

step_closed : (x : Event) (r : Reader) → r.closed ≡ true → step x r ≡ r
unfolding step
step_closed call_close r h = ground arith
step_closed (call_read (context_done e)) r h = ground arith
step_closed (call_read (read_done n none)) r h = ground arith
step_closed (call_read (read_done n (some e))) r h = ground arith
step_closed (finish_read (context_done e)) r h = ground arith
step_closed (finish_read (read_done n none)) r h = ground arith
step_closed (finish_read (read_done n (some e))) r h = ground arith

run_closed : (xs : List Event) (r : Reader) → r.closed ≡ true → run xs r ≡ r
unfolding run
run_closed [] r h = refl
run_closed (x ∷ xs) r h = ap (run xs) (step_closed x r h) ∙ run_closed xs r h

read_refused :
    (o : Outcome) (r : Reader) → r.closed ≡ true → ((read o r).0 ≡ 0) × ((read o r).1 ≢ none)
unfolding read
read_refused o r h = ground arith

-- A closed reader stays as it is under any further steps, its error too, and every later Read
-- returns no bytes and an error.
pub closed_for_good :
    (xs : List Event) (o : Outcome) (r : Reader)
    → r.closed ≡ true
    → (run xs r ≡ r) × ((read o (run xs r)).0 ≡ 0) × ((read o (run xs r)).1 ≢ none)
closed_for_good xs o r h =
    rw (run_closed xs r h) (refl, (read_refused o r h).0, (read_refused o r h).1)

-- A Read that fails with `e` on an open reader returns its bytes with `e`, closes the reader, and
-- any later Close returns `e` too, but nil where `e` is io.EOF; what closing the wrapped body
-- returned is not seen.
pub close-read_failed :
    (xs : List Event) (n : ℕ) (e : Error) (r : Reader)
    → r.closed ≡ false
    → ((read (read_done n (some e)) r).0 ≡ n)
      × ((read (read_done n (some e)) r).1 ≡ some e)
      × ((close_reader (run xs (read (read_done n (some e)) r).2)).0 ≡ hide_eof (some e))
unfolding read close_reader
close-read_failed xs n e r h =
    let after = (read (read_done n (some e)) r).2 in
    let closed : after.closed ≡ true = ground arith in
    (ground arith, ground arith, rw (run_closed xs after closed) (ground arith))

-- ===== src/Iter/Body.antt =====
-- iter.go: `cancelableReadCloser`. The lock makes `readErr` and `close` atomic, so the calls of
-- several goroutines are a sequence of the steps below.
pub mod Latch
use couchdb.Common.{ℕ, ◌+◌, str, Bool, true, false, none, some, if◌then◌else◌}
use couchdb.Errors.{Error, eof, message, canceled, Err}
use couchdb.Json.Read.{is_eof}

-- `rc_close` is what closing the wrapped body returns; `cancels` and `rc_closes` count the calls.
pub record Reader : Type 0 where
  pub closed : Bool
  pub err : Err
  pub rc_close : Err
  pub cancels : ℕ
  pub rc_closes : ℕ

-- newCancelableReadCloser
abbrev pub new_reader : Err → Reader
new_reader rc_close = record {
  closed = false;
  err = none;
  rc_close = rc_close;
  cancels = 0;
  rc_closes = 0;
}

abbrev pub iterator_closed : Error
iterator_closed = message (str "iterator closed")

-- readErr
unfoldable pub read_err : Reader → Err
read_err r = if r.closed then elim r.err [ none ↦ some iterator_closed | some e ↦ some e ] else none

abbrev pub or_else : Err → Err → Err
or_else none e = e
or_else (some x) e = some x

-- close(err)
unfoldable pub close_with : Err → Reader → Err × Reader
close_with e r = if r.closed then (r.err, r) else (
  or_else e r.rc_close,
  record r {
    closed = true;
    err = or_else e r.rc_close;
    cancels = r.cancels + 1;
    rc_closes = r.rc_closes + 1;
  },
)

-- Close
abbrev pub hide_eof : Err → Err
hide_eof none = none
hide_eof (some e) = if is_eof e then none else some e

unfoldable pub close_reader : Reader → Err × Reader
unfolding close_with
close_reader r = let (e, r') = close_with none r in (hide_eof e, r')

-- what `select` in Read sees first: the context is done, or the wrapped read has returned
pub data Outcome : Type 0 where
  context_done : Error → Outcome
  read_done : ℕ → Err → Outcome

-- The part of Read behind the `select`; other goroutines may have closed the reader meanwhile.
unfoldable pub end_read : Outcome → Reader → ℕ × Err × Reader
unfolding read_err close_with
end_read (context_done e) r =
    let (x, r') = close_with (or_else (read_err r) (some e)) r in (0, x, r')
end_read (read_done n none) r = (n, none, r)
end_read (read_done n (some e)) r = let (x, r') = close_with (some e) r in (n, x, r')

-- Read, where nothing else touches the reader meanwhile
unfoldable pub read : Outcome → Reader → ℕ × Err × Reader
unfolding end_read
read o r = elim (read_err r) [ some e ↦ (0, some e, r) | none ↦ end_read o r ]

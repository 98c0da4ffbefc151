-- ===== src/Chttp/Encoder/Delivery.antt =====
-- What the reader of EncodeBody gets, and that its Close returns.
use couchdb.Common.{
  ℕ, Bytes, Bool, true, false, [], ◌∷◌, ◌++◌, none, some, take, drop, take-append-drop, ◌≡◌, ◌≢◌,
  ◌⊎◌, inl, inr, refl, sym, subst, ap, ◌∙◌, append_assoc, append-nil, arith,
}
use couchdb.Errors.{Err, Result, ok, err}
use couchdb.Chttp.Encoder.{
  Writer, start, writing, closing, closed, ended, Pipe, behind_read, first_write, closed_pipe,
  Writes, encode, refuse, close_with_error, close_done, Step, write, read, close_reader,
  close_returns, Reach, here, later,
}

-- What a writer closes the pipe with: the error of the encoding with nothing written, io.EOF behind all
-- the bytes, or the error of a pipe whose reader is closed.
abbrev pub ClosesWith : Result Bytes → Bool → Bytes → Err → Type 0
ClosesWith (err e) reading got x = (got ≡ []) × (x ≡ some e)
ClosesWith (ok s) reading got none = got ≡ s
ClosesWith (ok s) reading got (some x) = (reading ≡ false) × (x ≡ closed_pipe)

-- where the goroutine stands, the pipe is as it has left it
abbrev pub Stands : Result Bytes → Pipe → Writer → Type 0
Stands plan p start = (p.received ≡ []) × (p.finished ≡ none) × (p.done ≡ false)
Stands plan p (writing s) = (plan ≡ ok (p.received ++ s)) × (p.finished ≡ none) × (p.done ≡ false)
Stands plan p (closing e) =
    ClosesWith plan p.reading p.received e × (p.finished ≡ none) × (p.done ≡ false)
Stands plan p closed =
    ((e : Err) × (p.finished ≡ some e) × ClosesWith plan p.reading p.received e) × (p.done ≡ false)
Stands plan p ended =
    ((e : Err) × (p.finished ≡ some e) × ClosesWith plan p.reading p.received e) × (p.done ≡ true)

pub record IsSound (plan : Result Bytes) (p : Pipe) : Type 0 where
  pub stands : Stands plan p p.writer
  -- Close returns behind the end of the goroutine only
  pub waits : p.returned ≡ true → p.writer ≡ ended

-- what the end of a body tells of the value
abbrev pub Told : Result Bytes → Bytes → Err → Type 0
Told (ok s) got none = got ≡ s
Told (ok s) got (some x) = ⊥
Told (err e) got x = (got ≡ []) × (x ≡ some e)

module _ (plan : Result Bytes) where
  first-Stands :
      (p : Pipe) (r : Result Bytes)
      → plan ≡ r
      → Stands plan p start
      → Stands plan (record p { writer = first_write r }) (first_write r)
  first-Stands p (ok s) e (got, f, d) = (rw (got, e) refl, f, d)
  first-Stands p (err x) e (got, f, d) = (rw e (got, refl), f, d)

  -- a Read of some bytes, the last ones or not
  read-Stands :
      (p : Pipe) (n : ℕ) (s left : Bytes)
      → s ≡ take n s ++ left
      → Stands plan p (writing s)
      → Stands plan
          (record p { writer = behind_read left; received = p.received ++ take n s })
          (behind_read left)
  read-Stands p n s [] e (eq, f, d) = (
    subst (λ r. ClosesWith r p.reading (p.received ++ take n s) none) (sym eq)
        (ap (λ t. p.received ++ t) (sym (e ∙ append-nil (take n s)))),
    f,
    d,
  )
  read-Stands p n s (c ∷ left) e (eq, f, d) = (
    eq
        ∙ ap (λ t. ok (p.received ++ t)) e
        ∙ ap ok (sym (append_assoc p.received (take n s) (c ∷ left))),
    f,
    d,
  )

  shut :
      (r : Result Bytes) (reading : Bool) (got : Bytes) (x : Err)
      → ClosesWith r reading got x
      → ClosesWith r false got x
  shut (err e) reading got x h = h
  shut (ok s) reading got none h = h
  shut (ok s) reading got (some x) h = (refl, h.1)

  shut-Stands :
      (p : Pipe) (w : Writer) → Stands plan p w → Stands plan (record p { reading = false }) w
  shut-Stands p start h = h
  shut-Stands p (writing s) h = h
  shut-Stands p (closing e) (h, f, d) = (shut plan p.reading p.received e h, f, d)
  shut-Stands p closed ((e, f, h), d) = ((e, f, shut plan p.reading p.received e h), d)
  shut-Stands p ended ((e, f, h), d) = ((e, f, shut plan p.reading p.received e h), d)

  returned-Stands :
      (p : Pipe) (w : Writer) → Stands plan p w → Stands plan (record p { returned = true }) w
  returned-Stands p start h = h
  returned-Stands p (writing s) h = h
  returned-Stands p (closing e) h = h
  returned-Stands p closed h = h
  returned-Stands p ended h = h

  done-ended : (p : Pipe) (w : Writer) → Stands plan p w → p.done ≡ true → w ≡ ended
  done-ended p start h d = ground arith
  done-ended p (writing s) h d = ground arith
  done-ended p (closing e) h d = ground arith
  done-ended p closed h d = ground arith
  done-ended p ended h d = refl

  -- Close has not returned while the goroutine is not at its end
  running : (w : Writer) → (w ≡ ended) ⊎ (w ≢ ended)
  running start = inr (λ e. cc)
  running (writing s) = inr (λ e. cc)
  running (closing e) = inr (λ e. cc)
  running closed = inr (λ e. cc)
  running ended = inl refl

  not_yet :
      {p : Pipe} {w : Writer} {A : Type 0}
      → IsSound plan p
      → p.writer ≡ w
      → w ≢ ended
      → p.returned ≡ true
      → A
  not_yet h e ne r = absurd (ne (sym e ∙ h.waits r))

  refused-Stands :
      (p : Pipe) (s : Bytes)
      → p.reading ≡ false
      → Stands plan p (writing s)
      → Stands plan (record p { writer = closing (some closed_pipe) }) (closing (some closed_pipe))
  refused-Stands p s shut (eq, f, d) = (
    subst (λ r. ClosesWith r p.reading p.received (some closed_pipe)) (sym eq) (shut, refl),
    f,
    d,
  )

  closed-Stands :
      (p : Pipe) (x : Err)
      → Stands plan p (closing x)
      → Stands plan (record p { writer = closed; finished = some x }) closed
  closed-Stands p x (h, f, d) = ((x, refl, h), d)

  writes-IsSound : {p q : Pipe} → IsSound plan p → Writes plan p q → IsSound plan q
  writes-IsSound {p} h (encode e) = record {
    stands = first-Stands p plan refl (subst (Stands plan p) e h.stands);
    waits = not_yet h e (λ q. cc);
  }
  writes-IsSound {p} h (refuse {s} e off) = record {
    stands = refused-Stands p s off (subst (Stands plan p) e h.stands);
    waits = not_yet h e (λ q. cc);
  }
  writes-IsSound {p} h (close_with_error {e = x} e) = record {
    stands = closed-Stands p x (subst (Stands plan p) e h.stands);
    waits = not_yet h e (λ q. cc);
  }
  writes-IsSound {p} h (close_done e) = record {
    stands = ((subst (Stands plan p) e h.stands).0, refl);
    waits = λ r. refl;
  }

  step-IsSound : {p q : Pipe} → IsSound plan p → Step plan p q → IsSound plan q
  step-IsSound h (write s) = writes-IsSound h s
  step-IsSound {p} h (read {s} n room o e) = record {
    stands =
        read-Stands p n s (drop n s) (sym (take-append-drop n s))
          (subst (Stands plan p) e h.stands);
    waits = not_yet h e (λ q. cc);
  }
  step-IsSound {p} h (close_reader o) = record {
    stands = shut-Stands p p.writer h.stands;
    waits = h.waits;
  }
  step-IsSound {p} h (close_returns shut d) = record {
    stands = returned-Stands p p.writer h.stands;
    waits = λ r. done-ended p p.writer h.stands d;
  }

  pub Reach-IsSound : {p : Pipe} → Reach plan p → IsSound plan p
  Reach-IsSound here = record { stands = (refl, refl, refl); waits = λ r. ground arith }
  Reach-IsSound (later r s) = step-IsSound (Reach-IsSound r) s

  told : (r : Result Bytes) (got : Bytes) (x : Err) → ClosesWith r true got x → Told r got x
  told (ok s) got none h = h
  told (ok s) got (some x) h = ground (arith, h.0)
  told (err e) got x h = h

  end_of_pipe :
      (p : Pipe) (w : Writer) (x : Err)
      → Stands plan p w
      → p.finished ≡ some x
      → p.reading ≡ true
      → Told plan p.received x
  end_of_pipe p start x (got, f, d) e r = ground (arith, f, e)
  end_of_pipe p (writing s) x (got, f, d) e r = ground (arith, f, e)
  end_of_pipe p (closing y) x (got, f, d) e r = ground (arith, f, e)
  end_of_pipe p closed x ((y, f, h), d) e r = told plan p.received x (
      subst (λ b. ClosesWith plan b p.received x) r
        (subst (λ z. ClosesWith plan p.reading p.received z) (ground (arith, f, e)) h))
  end_of_pipe p ended x ((y, f, h), d) e r = told plan p.received x (
      subst (λ b. ClosesWith plan b p.received x) r
        (subst (λ z. ClosesWith plan p.reading p.received z) (ground (arith, f, e)) h))

  -- However the goroutine and the reader interleave: where the pipe is closed while the reader is open,
  -- with io.EOF the reader has had exactly the encoded bytes, and with an error it has had nothing and
  -- the error is that of the encoding.
  pub Reach-Told :
      (p : Pipe) (x : Err)
      → Reach plan p
      → p.finished ≡ some x
      → p.reading ≡ true
      → Told plan p.received x
  Reach-Told p x r e open_reader = end_of_pipe p p.writer x (Reach-IsSound r).stands e open_reader

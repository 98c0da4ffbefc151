-- ===== src/Chttp/Encoder.antt =====
-- chttp/chttp.go: EncodeBody and ebReader. A goroutine writes the encoded value into a pipe, closes
-- the pipe and then the channel `done`; the request reads the other end, and its Close waits for
-- `done`. The steps of both, and of io.Pipe between them, interleave in any order.
pub mod Delivery
pub mod Closing
pub mod Compressed
use couchdb.Common.{
  ℕ, zero, suc, ◌+◌, ◌<◌, Bytes, Bool, true, false, List, [], ◌∷◌, ◌++◌, Option, none, some, take,
  drop, if◌then◌else◌, ◌≡◌,
}
use couchdb.Errors.{Error, message, kivik, status_bad_request, Err, Result, ok, err}

-- io.ErrClosedPipe
abbrev pub closed_pipe : Error
closed_pipe = message []

-- the types of the switch in EncodeBody
pub data Input (Value : Type 0) : Type 0 where
  bytes : Bytes → Input Value
  raw_message : Bytes → Input Value
  text : Bytes → Input Value
  value : Value → Input Value

-- What the goroutine writes, or the error for which it writes nothing: `marshal` is what json.Encoder
-- writes of a value, and `is_marshal_error` tells the three error types of encoding/json apart.
module _ {Value : Type 0} (marshal : Value → Result Bytes) (is_marshal_error : Error → Bool) where
  abbrev pub as_bad_request : Error → Error
  as_bad_request e = if is_marshal_error e then kivik status_bad_request e else e

  abbrev pub marshalled : Result Bytes → Result Bytes
  marshalled (ok s) = ok s
  marshalled (err e) = err (as_bad_request e)

  unfoldable pub encoding : Input Value → Result Bytes
  encoding (bytes s) = ok s
  encoding (raw_message s) = ok s
  encoding (text s) = ok s
  encoding (value v) = marshalled (marshal v)

-- Where the goroutine stands: before its write, in Write with the bytes that are not read yet, before
-- CloseWithError, before `close(done)`, and at its end.
pub data Writer : Type 0 where
  start : Writer
  writing : Bytes → Writer
  closing : Err → Writer
  closed : Writer
  ended : Writer

-- `finished` is what the pipe was closed with; `received` is what the reader has got so far, and
-- `returned` whether its Close has returned.
pub record Pipe : Type 0 where
  pub writer : Writer
  pub finished : Option Err
  pub done : Bool
  pub reading : Bool
  pub received : Bytes
  pub returned : Bool

abbrev pub new_pipe : Pipe
new_pipe = record {
  writer = start;
  finished = none;
  done = false;
  reading = true;
  received = [];
  returned = false;
}

-- Write has returned once all its bytes are read
abbrev pub behind_read : Bytes → Writer
behind_read [] = closing none
behind_read (c ∷ s) = writing (c ∷ s)

-- the goroutine, behind its evaluation of the type switch
abbrev pub first_write : Result Bytes → Writer
first_write (ok s) = writing s
first_write (err e) = closing (some e)

module _ (plan : Result Bytes) where
  -- one step of the goroutine
  pub data Writes (p : Pipe) : Pipe → Type 0 where
    encode : p.writer ≡ start → Writes p (record p { writer = first_write plan })
    -- Write returns io.ErrClosedPipe once the reader is closed
    refuse :
        {s : Bytes}
        → p.writer ≡ writing s
        → p.reading ≡ false
        → Writes p (record p { writer = closing (some closed_pipe) })
    close_with_error :
        {e : Err}
        → p.writer ≡ closing e
        → Writes p (record p { writer = closed; finished = some e })
    close_done : p.writer ≡ closed → Writes p (record p { writer = ended; done = true })

  -- one step of the request's side; a Read has room for a byte
  pub data Step (p : Pipe) : Pipe → Type 0 where
    write : {q : Pipe} → Writes p q → Step p q
    read :
        {s : Bytes} (n : ℕ)
        → 0 < n
        → p.reading ≡ true
        → p.writer ≡ writing s
        → Step p (record p { writer = behind_read (drop n s); received = p.received ++ take n s })
    -- Close of the pipe's reader, the first half of Close
    close_reader : p.reading ≡ true → Step p (record p { reading = false })
    -- Close has received from `done`
    close_returns : p.reading ≡ false → p.done ≡ true → Step p (record p { returned = true })

  pub data Reach : Pipe → Type 0 where
    here : Reach new_pipe
    later : {p q : Pipe} → Reach p → Step p q → Reach q

-- ===== src/Chttp/Streams.antt =====
-- Readers that are closed: io.ReadCloser as the HTTP client meets it, io.ReadAll, the replays of
-- chttp/trace.go, and CloseBody of chttp/util.go.
pub mod Whole
use couchdb.Common.{ℕ, zero, suc, ◌+◌, Bytes, List, [], ◌∷◌, ◌++◌, none, some, length, take, drop}
use couchdb.Errors.{Error, eof, stuck, Err}

-- What a body is: `source` is a body of another package, which gives its pieces, then the error, again
-- and again, and whose Close returns the last argument; `buffer` is `io.NopCloser(bytes.NewReader(b))`,
-- and `replay` a replayReadCloser around one, with readErr and closeErr.
pub data Body : Type 0 where
  source : List Bytes → Error → Err → Body
  buffer : Bytes → Body
  replay : Bytes → Err → Err → Body

-- the pieces behind a piece of which `rest` is left
abbrev pub put_back : Bytes → List Bytes → List Bytes
put_back [] ps = ps
put_back (c ∷ rest) ps = (c ∷ rest) ∷ ps

-- Read of a bytes.Reader: what it gives, and what is left
abbrev pub read_bytes : ℕ → Bytes → Bytes × Err × Bytes
read_bytes n [] = ([], some eof, [])
read_bytes n (c ∷ s) = (take n (c ∷ s), none, drop n (c ∷ s))

-- Read of a replayReadCloser: io.EOF becomes the read error, if there is one
abbrev pub replayed : Err → Err → Err
replayed (some eof) (some e) = some e
replayed err read_err = err

-- Read, with a slice of `n` bytes
unfoldable pub read : ℕ → Body → Bytes × Err × Body
unfolding take drop
read n (source [] e c) = ([], some e, source [] e c)
read n (source (p ∷ ps) e c) = (take n p, none, source (put_back (drop n p) ps) e c)
read n (buffer s) = let (got, e, rest) = read_bytes n s in (got, e, buffer rest)
read n (replay s read_err close_err) =
    let (got, e, rest) = read_bytes n s in
    (got, replayed e read_err, replay rest read_err close_err)

-- Close
abbrev pub close : Body → Err
close (source ps e c) = c
close (buffer s) = none
close (replay s read_err close_err) = close_err

-- what io.ReadAll returns beside the bytes for the error that ends its reads
abbrev pub unless_eof : Error → Err
unless_eof eof = none
unless_eof e = some e

abbrev pub and_more : Bytes → Bytes × Err → Bytes × Err
and_more got (rest, e) = (got ++ rest, e)

-- The loop of io.ReadAll, on fuel; `room i` is the free room of its buffer in the round `i`.
abbrev pub after_read : (Body → Bytes × Err) → Bytes × Err × Body → Bytes × Err
after_read k (got, some e, b) = (got, unless_eof e)
after_read k (got, none, b) = and_more got (k b)

unfoldable pub read_loop : (ℕ → ℕ) → ℕ → ℕ → Body → Bytes × Err
unfolding read
read_loop room zero i b = ([], some stuck)
read_loop room (suc f) i b = after_read (read_loop room f (suc i)) (read (room i) b)

-- a bound of the reads that a body answers
abbrev pub pieces_weight : List Bytes → ℕ
pieces_weight [] = 0
pieces_weight (p ∷ ps) = suc (length p + pieces_weight ps)

abbrev pub weight : Body → ℕ
weight (source ps e c) = pieces_weight ps
weight (buffer s) = length s
weight (replay s read_err close_err) = length s

-- io.ReadAll
unfoldable pub read_all : (ℕ → ℕ) → Body → Bytes × Err
unfolding read_loop
read_all room b = read_loop room (suc (weight b)) 0 b

-- newReplay
unfoldable pub new_replay : Bytes → Err → Err → Body
new_replay body none none = buffer body
new_replay body read_err close_err = replay body read_err close_err

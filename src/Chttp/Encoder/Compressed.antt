-- ===== src/Chttp/Encoder/Compressed.antt =====
-- chttp/chttp.go: compressBody. A goroutine copies the body through a gzip.Writer into a pipe, closes
-- the body if it can be closed, and closes the pipe with the error of reading the body. `gzip` is what
-- a gzip.Writer writes for all the bytes that it is given.
use couchdb.Common.{
  ℕ, Bytes, Bool, true, false, [], ◌∷◌, Option, none, some, if◌then◌else◌, ◌≡◌, refl, ap, ◌∙◌,
  append-nil, arith,
}
use couchdb.Errors.{Error, eof, Err}
use couchdb.Chttp.Streams.{Body, source, buffer, replay, read_all, unless_eof}
use couchdb.Chttp.Streams.Whole.{content, end_error, outcome, HasRoom, read_all-outcome}

-- CloseWithError(nil) makes the end io.EOF
abbrev pub pipe_end : Err → Error
pipe_end none = eof
pipe_end (some e) = e

abbrev pub piped : (Bytes → Bytes) → Bytes × Err → Body
piped gzip (s, e) = source (gzip s ∷ []) (pipe_end e) none

module _ (gzip : Bytes → Bytes) (room : ℕ → ℕ) where
  -- compressBody; `compress` is shouldCompressBody, which is false where there is no body
  unfoldable pub compress_body : Bool → Option Body → Bool × Option Body
  unfolding read_all
  compress_body compress none = (false, none)
  compress_body compress (some b) =
      if compress then (true, some (piped gzip (read_all room b))) else (false, some b)

-- an error that is not io.EOF stays, and io.EOF is none
error_kept : (e : Error) → unless_eof (pipe_end (unless_eof e)) ≡ unless_eof e
error_kept eof = refl
error_kept e = ground arith

pipe_end-error : (b : Body) → unless_eof (pipe_end (end_error b)) ≡ end_error b
pipe_end-error (source ps e c) = error_kept e
pipe_end-error (buffer s) = refl
pipe_end-error (replay s none c) = refl
pipe_end-error (replay s (some e) c) = error_kept e

sent :
    (gzip : Bytes → Bytes) (room room' : ℕ → ℕ) (b : Body)
    → HasRoom room
    → HasRoom room'
    → read_all room' (piped gzip (read_all room b))
      ≡ (gzip (content b), unless_eof (pipe_end (end_error b)))
sent gzip room room' b h h' =
    ap (λ o. read_all room' (piped gzip o)) (read_all-outcome room b h)
    ∙ read_all-outcome room' (piped gzip (outcome b)) h'
    ∙ ap (λ s. (s, unless_eof (pipe_end (end_error b)))) (append-nil (gzip (content b)))

-- Whatever the body and the sizes of the reads: the server, which decompresses the body where it is
-- marked as compressed, gets the bytes of the caller's body, and the reader of the request gets the
-- error that ended it.
pub read_all-compress_body :
    (gzip gunzip : Bytes → Bytes) (room room' : ℕ → ℕ) (b : Body)
    → ((s : Bytes) → gunzip (gzip s) ≡ s)
    → HasRoom room
    → HasRoom room'
    → (c : Body) × (compress_body gzip room true (some b) ≡ (true, some c))
      × (gunzip (read_all room' c).0 ≡ content b)
      × ((read_all room' c).1 ≡ end_error b)
unfolding compress_body
read_all-compress_body gzip gunzip room room' b inverse h h' = (
  piped gzip (read_all room b),
  refl,
  ap (λ x. gunzip x.0) (sent gzip room room' b h h') ∙ inverse (content b),
  ap (λ x. x.1) (sent gzip room room' b h h') ∙ pipe_end-error b,
)

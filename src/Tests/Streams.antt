-- ===== src/Tests/Streams.antt =====
-- Traces and bodies at concrete inputs.
use couchdb.Common.{
  ℕ, ◌+◌, ◌≤◌, true, false, Bytes, ap, ◌∙◌, str, [], ◌∷◌, Option, none, some, ◌≡◌, refl, arith,
}
use couchdb.Errors.{eof, failure, kivik, Err, Result, ok, err}
use couchdb.Chttp.Streams.{Body, source, read_all, replay}
use couchdb.Chttp.Trace.{Message, ClientTrace, Answer, traced_do}
use couchdb.Chttp.Trace.Same.{SameBodies, SameMessage, no_bodies, two_bodies, Kept, traced_do-Kept}
use couchdb.Chttp.Encoder.{
  value, encoding, Pipe, new_pipe, closed, writing, Reach, here, later, write, encode,
  close_with_error, close_reader,
}
use couchdb.Chttp.Encoder.Delivery.{Told, Reach-Told}
use couchdb.Chttp.Encoder.Closing.{GoesOn, stop, onward, Run-GoesOn}

-- a buffer of three bytes
abbrev three : ℕ → ℕ
three i = 3

-- a server that counts the requests, and sends back the body that it read, and a read error
abbrev echoed : Option Body → Body
echoed none = source [] eof none
echoed (some b) = source ((read_all three b).0 ∷ []) (failure 1) none

abbrev echo : Message ℕ → ℕ → Answer ℕ × ℕ
echo m net = ((some (record { head = m.head; body = some (echoed m.body) }), none), net + 1)

echoed-Same : {a b : Option Body} → SameBodies a b → echoed a ≡ echoed b
echoed-Same no_bodies = refl
echoed-Same (two_bodies s) =
    ap (λ r. source (r.0 ∷ []) (failure 1) none) (s.reads three (λ i. omega arith))

echo-Same : (m m' : Message ℕ) (net : ℕ) → SameMessage m m' → echo m net ≡ echo m' net
echo-Same m m' net (eh, eb) =
    ap (λ x. ((some (record { head = x; body = some (echoed m.body) }), none), net + 1)) eh
    ∙ ap (λ x. ((some (record { head = m'.head; body = some x }), none), net + 1)) (echoed-Same eb)

-- every hook counts
abbrev counting : ClientTrace ℕ ℕ ℕ
counting = record {
  http_response = some (λ m log. log + 1);
  http_response_body = some (λ m log. log + 1);
  http_request = some (λ m log. log + 1);
  http_request_body = some (λ m log. log + 1);
}

abbrev upload : Message ℕ
upload = record { head = 7; body = some (source (str "ab" ∷ str "c" ∷ []) eof (some (failure 2))) }

traced_do-Kept_example :
    Kept (λ e. e) (echo upload 0) (traced_do three echo (λ e. e) (counting ∷ []) upload 0 0)
traced_do-Kept_example =
    traced_do-Kept three echo (λ e. e) (counting ∷ []) upload 0 0 (λ i. omega arith) echo-Same
      (_, refl)

-- the hooks have run, and the body of the response was read and replaced
traced_upload :
    traced_do three echo (λ e. e) (counting ∷ []) upload 0 0
    ≡ ok (
      (some (record { head = 7; body = some (replay (str "abc") (some (failure 1)) none) }), none),
      1,
      4,
    )
unfolding traced_do
traced_upload = refl

-- a value that cannot be encoded
abbrev unmarshalable : Result Bytes
unmarshalable = encoding {Value = ℕ} (λ v. err (failure 3)) (λ e. true) (value 7)

abbrev failed : Err
failed = some (kivik 400 (failure 3))

abbrev encoded_nothing : Pipe
encoded_nothing = record new_pipe { writer = closed; finished = some failed }

encoded_nothing-Reach : Reach unmarshalable encoded_nothing
unfolding encoding
encoded_nothing-Reach = later (later here (write (encode refl))) (write (close_with_error refl))

Reach-Told_example : Told unmarshalable [] failed
Reach-Told_example = Reach-Told unmarshalable encoded_nothing failed encoded_nothing-Reach refl refl

-- a request that is given up before anything is read
abbrev given_up : Pipe
given_up = record new_pipe { reading = false }

abbrev half_way : Pipe
half_way = record given_up { writer = writing (str "hi") }

Run-GoesOn_example : (1 ≤ 4) × GoesOn (ok (str "hi")) half_way
Run-GoesOn_example =
    Run-GoesOn (ok (str "hi")) given_up half_way 1 (later here (close_reader refl)) refl
      (onward stop (encode refl))

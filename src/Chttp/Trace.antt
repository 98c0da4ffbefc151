-- ===== src/Chttp/Trace.antt =====
-- chttp/trace.go: the hooks of a ClientTrace, and the part of DoReq in chttp/chttp.go that runs them
-- around a request. A message is a request or a response: its body, and everything else, its head.
-- `Log` is what the hooks write to; a hook does not change the head that it shares with the message.
pub mod Same
use couchdb.Common.{ℕ, List, [], ◌∷◌, Option, none, some}
use couchdb.Errors.{Error, panic, Err, Result, ok, err, ◌>>=◌}
use couchdb.Chttp.Streams.{Body, read_all, close, new_replay}

pub record Message (Head : Type 0) : Type 0 where
  pub head : Head
  pub body : Option Body

abbrev pub Hook : Type 0 → Type 0 → Type 0
Hook Head Log = Option (Message Head → Log → Log)

-- ClientTrace; a hook that is nil is none
pub record ClientTrace (Request Response Log : Type 0) : Type 0 where
  pub http_response : Hook Response Log
  pub http_response_body : Hook Response Log
  pub http_request : Hook Request Log
  pub http_request_body : Hook Request Log

-- The context holds what WithClientTrace put there last under its key; nil panics.
abbrev pub with_client_trace : {Trace : Type 0} → List Trace → Option Trace → Result (List Trace)
with_client_trace ctx none = err panic
with_client_trace ctx (some trace) = ok (trace ∷ ctx)

-- ContextClientTrace
abbrev pub context_client_trace : {Trace : Type 0} → List Trace → Option Trace
context_client_trace [] = none
context_client_trace (trace ∷ ctx) = some trace

-- httpRequest, and httpResponse of a response that is not nil
unfoldable pub without_body : {Head Log : Type 0} → Hook Head Log → Message Head → Log → Log
without_body none m log = log
without_body (some hook) m log = hook (record m { body = none }) log

-- what `c.Do` returns: a response that may be nil, and an error
abbrev pub Answer : Type 0 → Type 0
Answer Response = Option (Message Response) × Err

module _ (room : ℕ → ℕ) where
  -- two of them are made of a body: one for the clone, one for the message
  unfoldable pub replay_body : Body → Body
  unfolding read_all new_replay
  replay_body b = let (body, read_err) = read_all room b in new_replay body read_err (close b)

  -- httpRequestBody
  unfoldable pub request_body :
      {Head Log : Type 0} → Hook Head Log → Message Head → Log → Message Head × Log
  unfolding replay_body
  request_body none m log = (m, log)
  request_body (some hook) m log = elim m.body [
    | none ↦ (m, hook m log)
    | some b ↦ (
      record m { body = some (replay_body b) },
      hook (record m { body = some (replay_body b) }) log,
    )
  ]

  -- httpResponseBody of a response that is not nil: one without a body panics
  unfoldable pub response_body :
      {Head Log : Type 0} → Hook Head Log → Message Head → Log → Result (Message Head × Log)
  unfolding replay_body
  response_body none m log = ok (m, log)
  response_body (some hook) m log = elim m.body [
    | none ↦ err panic
    | some b ↦ ok (
      record m { body = some (replay_body b) },
      hook (record m { body = some (replay_body b) }) log,
    )
  ]

  -- httpRequest and httpRequestBody, where there is a trace
  unfoldable pub before :
      {Request Response Log : Type 0}
      → Option (ClientTrace Request Response Log)
      → Message Request
      → Log
      → Message Request × Log
  unfolding without_body request_body
  before none req log = (req, log)
  before (some t) req log =
      request_body t.http_request_body req (without_body t.http_request req log)

  -- httpResponse and httpResponseBody, which do nothing with a nil response
  abbrev pub answered :
      {Response Log : Type 0}
      → Err
      → Result (Message Response × Log)
      → Result (Answer Response × Log)
  answered e (err x) = err x
  answered e (ok (r, log)) = ok ((some r, e), log)

  unfoldable pub behind :
      {Request Response Log : Type 0}
      → Option (ClientTrace Request Response Log)
      → Answer Response
      → Log
      → Result (Answer Response × Log)
  unfolding without_body response_body
  behind none a log = ok (a, log)
  behind (some t) (none, e) log = ok ((none, e), log)
  behind (some t) (some r, e) log =
      answered e (response_body t.http_response_body r (without_body t.http_response r log))

  -- the end of DoReq, from `trace := ContextClientTrace(ctx)` on; `perform` is `c.Do` and `net_error` is
  -- netError
  abbrev pub with_network :
      {Response Network Log : Type 0}
      → Network
      → Result (Answer Response × Log)
      → Result (Answer Response × Network × Log)
  with_network net (err e) = err e
  with_network net (ok (a, log)) = ok (a, net, log)

  abbrev pub mapped :
      {Response Network Log : Type 0}
      → (Err → Err)
      → Result (Answer Response × Network × Log)
      → Result (Answer Response × Network × Log)
  mapped f (err e) = err e
  mapped f (ok ((r, e), net, log)) = ok ((r, f e), net, log)

  abbrev pub after_do :
      {Request Response Network Log : Type 0}
      → Option (ClientTrace Request Response Log)
      → Log
      → Answer Response × Network
      → Result (Answer Response × Network × Log)
  after_do t log (a, net) = with_network net (behind t a log)

  unfoldable pub traced_do :
      {Request Response Network Log : Type 0}
      → (Message Request → Network → Answer Response × Network)
      → (Err → Err)
      → List (ClientTrace Request Response Log)
      → Message Request
      → Network
      → Log
      → Result (Answer Response × Network × Log)
  unfolding before behind
  traced_do perform net_error ctx req net log =
      let t = context_client_trace ctx in
      let (req', log') = before t req log in mapped net_error (after_do t log' (perform req' net))

-- ===== src/Chttp/Trace/Same.antt =====
-- A trace does not change what a request does or what its caller gets.
use couchdb.Common.{ℕ, List, Option, none, some, ◌≡◌, refl, ap, sym, subst}
use couchdb.Errors.{Err, Result, ok}
use couchdb.Chttp.Streams.{Body}
use couchdb.Chttp.Streams.Whole.{HasRoom, SameBody, replay_of-SameBody}
use couchdb.Chttp.Trace.{
  Message, Hook, ClientTrace, context_client_trace, without_body, replay_body, request_body,
  response_body, Answer, before, behind, answered, with_network, mapped, after_do, traced_do,
}

pub data SameBodies : Option Body → Option Body → Type 0 where
  no_bodies : SameBodies none none
  two_bodies : {a b : Body} → SameBody a b → SameBodies (some a) (some b)

-- two messages that a reader cannot tell apart
abbrev pub SameMessage : {Head : Type 0} → Message Head → Message Head → Type 0
SameMessage m m' = (m.head ≡ m'.head) × SameBodies m.body m'.body

pub data SameResponse {Head : Type 0} : Option (Message Head) → Option (Message Head) → Type 0 where
  no_response : SameResponse none none
  two_responses : {m m' : Message Head} → SameMessage m m' → SameResponse (some m) (some m')

SameBody-refl : (b : Body) → SameBody b b
SameBody-refl b = record { reads = λ room h. refl; closes = refl }

SameBodies-refl : (b : Option Body) → SameBodies b b
SameBodies-refl none = no_bodies
SameBodies-refl (some b) = two_bodies (SameBody-refl b)

SameResponse-refl : {Head : Type 0} (r : Option (Message Head)) → SameResponse r r
SameResponse-refl none = no_response
SameResponse-refl (some m) = two_responses (refl, SameBodies-refl m.body)

-- what net/http documents: a response that is not nil has a body
abbrev pub HasBody : {Head : Type 0} → Option (Message Head) → Type 0
HasBody none = Unit
HasBody (some m) = (b : Body) × (m.body ≡ some b)

-- what a transport may look at of a request: its head, and what Read and Close of its body give
abbrev pub ReadsBodies :
    {Request Response Network : Type 0}
    → (Message Request → Network → Answer Response × Network)
    → Type 0
ReadsBodies {Request} {Response} {Network} perform =
    (m m' : Message Request) (net : Network) → SameMessage m m' → perform m net ≡ perform m' net

module _ (room : ℕ → ℕ) (h : HasRoom room) where
  request_body-Same :
      {Head Log : Type 0} (hook : Hook Head Log) (head : Head) (body : Option Body) (log : Log)
      → SameMessage
          (request_body room hook (record { head = head; body = body }) log).0
          (record { head = head; body = body })
  unfolding request_body replay_body
  request_body-Same none head body log = (refl, SameBodies-refl body)
  request_body-Same (some hook) head none log = (refl, no_bodies)
  request_body-Same (some hook) head (some b) log = (refl, two_bodies (replay_of-SameBody room b h))

  before-Same :
      {Request Response Log : Type 0} (t : Option (ClientTrace Request Response Log))
      (req : Message Request) (log : Log)
      → SameMessage (before room t req log).0 req
  unfolding before
  before-Same none req log = (refl, SameBodies-refl req.body)
  before-Same (some t) req log =
      request_body-Same t.http_request_body req.head req.body (without_body t.http_request req log)

  -- the response with what a trace leaves in its place
  abbrev Handed :
      {Response Log : Type 0}
      → Option (Message Response)
      → Err
      → Result (Answer Response × Log)
      → Type 0
  Handed {Response} {Log} r e x =
      (r' : Option (Message Response)) × (log : Log) × (x ≡ ok ((r', e), log)) × SameResponse r' r

  response_body-Handed :
      {Head Log : Type 0} (hook : Hook Head Log) (m : Message Head) (b : Body) (e : Err) (log : Log)
      → m.body ≡ some b
      → Handed (some m) e (answered room e (response_body room hook m log))
  unfolding response_body replay_body
  response_body-Handed none m b e log eq =
      (some m, log, refl, two_responses (refl, SameBodies-refl m.body))
  response_body-Handed (some hook) m b e log eq = (
    some (record m { body = some (replay_body room b) }),
    hook (record m { body = some (replay_body room b) }) log,
    rw eq refl,
    two_responses (
      refl,
      subst (λ q. SameBodies (some (replay_body room b)) q) (sym eq)
          (two_bodies (replay_of-SameBody room b h)),
    ),
  )

  behind-Handed :
      {Request Response Log : Type 0} (t : Option (ClientTrace Request Response Log))
      (r : Option (Message Response)) (e : Err) (log : Log)
      → HasBody r
      → Handed r e (behind room t (r, e) log)
  unfolding behind
  behind-Handed none r e log hb = (r, log, refl, SameResponse-refl r)
  behind-Handed (some t) none e log hb = (none, log, refl, no_response)
  behind-Handed (some t) (some m) e log (b, eq) =
      response_body-Handed t.http_response_body m b e (without_body t.http_response m log) eq

-- What a caller of DoReq gets with a trace: the answer of the network without one.
abbrev pub Kept :
    {Response Network Log : Type 0}
    → (Err → Err)
    → Answer Response × Network
    → Result (Answer Response × Network × Log)
    → Type 0
Kept {Response} {Network} {Log} net_error ((r, e), net) x =
    (r' : Option (Message Response)) × (log : Log) × (x ≡ ok ((r', net_error e), net, log))
    × SameResponse r' r

after_do-Kept :
    {Request Response Network Log : Type 0} (room : ℕ → ℕ) (net_error : Err → Err)
    (t : Option (ClientTrace Request Response Log)) (log : Log) (a : Answer Response × Network)
    → HasRoom room
    → HasBody a.0.0
    → Kept net_error a (mapped room net_error (after_do room t log a))
after_do-Kept room net_error t log ((r, e), net) h hb =
    let (r', log', eq, same) = behind-Handed room h t r e log hb in
    (r', log', ap (λ x. mapped room net_error (with_network room net x)) eq, same)

-- Whatever hooks a context has: DoReq has the same effect on the network and gives the same error and
-- response as without a trace, the head of the response, the bytes of its body, their read error and
-- the error of Close alike; and it does not panic. Every read has room for a byte, the transport
-- looks at the body of a request through Read and Close only, and a response has a body.
pub traced_do-Kept :
    {Request Response Network Log : Type 0} (room : ℕ → ℕ)
    (perform : Message Request → Network → Answer Response × Network) (net_error : Err → Err)
    (ctx : List (ClientTrace Request Response Log)) (req : Message Request) (net : Network)
    (log : Log)
    → HasRoom room
    → ReadsBodies perform
    → HasBody (perform req net).0.0
    → Kept net_error (perform req net) (traced_do room perform net_error ctx req net log)
unfolding traced_do
traced_do-Kept room perform net_error ctx req net log h reads hb =
    let t = context_client_trace ctx in
    let (req', log') = before room t req log in
    let same = reads req' req net (before-Same room h t req log) in
    subst (λ a. Kept net_error a (mapped room net_error (after_do room t log' (perform req' net))))
      same
      (after_do-Kept room net_error t log' (perform req' net) h
        (subst (λ a. HasBody a.0.0) (sym same) hb))

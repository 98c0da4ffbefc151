-- ===== src/Chttp/Cookie/Session.antt =====
-- Requests under a session that lasts: chttp/cookieauth.go sends no login for them.
use couchdb.Common.{
  ℕ, ltb, ◌+◌, ◌==◌, Bytes, Bool, false, ◌&&◌, List, [], ◌∷◌, ◌++◌, Option, none, some, ◌≡◌,
  if◌then◌else◌,
}
use couchdb.Errors.{Err, Result, ok, err}
use couchdb.Chttp.Cookie.{Cookie, CookieRequest, State, session_cookie}
use couchdb.Chttp.Cookie.Login.{is_bare}

-- a cookie that has an expiry, and less than a minute left
abbrev pub ends_soon : ℕ → Option ℕ → Bool
ends_soon now none = false
ends_soon now (some t) = ltb t (now + 60)

-- an answer with status 401
abbrev pub is_refusal : Result ℕ → Bool
is_refusal (ok status) = status == 401
is_refusal (err e) = false

-- the requests of a client in their order, each at its own time, and their results
abbrev pub run_all :
    {S : Type 0}
    → (ℕ → CookieRequest → S → Result ℕ × S)
    → List (ℕ × CookieRequest)
    → S
    → List (Result ℕ) × S
run_all f [] s = ([], s)
run_all f ((now, req) ∷ reqs) s =
    let (r, s') = f now req s in let (rs, s'') = run_all f reqs s' in (r ∷ rs, s'')

module _ {Jar : Type 0} (name : Bytes) (cookies : Jar → List Cookie) (c : Cookie) where
  -- the cookie is that of the session, in the jar
  abbrev pub InSession : {World : Type 0} → State World Jar → Type 0
  InSession s = session_cookie name cookies s.jar ≡ some c

  -- the request as it is sent under the session
  abbrev pub carried_by : ℕ → CookieRequest → CookieRequest
  carried_by now req =
      if is_bare name cookies req && ends_soon now c.expires
      then record req { cookies = req.cookies ++ c ∷ [] }
      else req

module _ {World Jar : Type 0} (name : Bytes) (cookies : Jar → List Cookie)
    (log_in : State World Jar → Err × State World Jar)
    (transport : CookieRequest → State World Jar → Result ℕ × State World Jar)
    (set_cookies : List Cookie → Jar → Jar) (day_before : ℕ → ℕ) (c : Cookie) where
  -- no answer ends the session: none has status 401, and the cookie stays in the jar
  abbrev pub Lasts : Type 0
  Lasts =
      (req : CookieRequest) (s : State World Jar)
      → InSession name cookies c s
      → (is_refusal (transport req s).0 ≡ false) × InSession name cookies c (transport req s).1

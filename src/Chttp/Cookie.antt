-- ===== src/Chttp/Cookie.antt =====
-- chttp/cookieauth.go: `CookieAuth`, the transport that logs in before a request needs it.
-- Parameters stand for the cookie jar of net/http (`cookies` and `set_cookies` are its methods at
-- the client's URL), for the original transport, for `a.client.DoError` of the `/_session` request
-- under the context marked as in progress, for the name of kivik's session cookie, for the time
-- and for `AddDate(0, 0, -1)`. Times are seconds. The lock orders the logins of several goroutines, whose steps are the calls below.
pub mod Login
pub mod Session
use couchdb.Common.{
  ℕ, ltb, ◌+◌, ◌==◌, Bytes, equal, Bool, true, false, List, [], ◌∷◌, ◌++◌, Option, none, some,
  if◌then◌else◌, is_some,
}
use couchdb.Errors.{Error, Err, Result, ok, err, status_unauthorized}

-- http.Cookie; `expires` is none where it is the zero time
pub record Cookie : Type 0 where
  pub name : Bytes
  pub value : Bytes
  pub expires : Option ℕ

-- a request: the cookies of its header, and the mark of its context
pub record CookieRequest : Type 0 where
  pub cookies : List Cookie
  pub in_progress : Bool

-- the first cookie of that name
unfoldable pub find_cookie : Bytes → List Cookie → Option Cookie
unfolding equal
find_cookie name [] = none
find_cookie name (c ∷ cs) =
    let rest = find_cookie name cs in if equal c.name name then some c else rest

-- what shouldAuth makes of the expiry: a minute is left at least
abbrev pub expires_soon : ℕ → Option Cookie → Bool
expires_soon now none = true
expires_soon now (some c) = elim c.expires [ none ↦ false | some t ↦ ltb t (now + 60) ]

-- req.AddCookie
abbrev pub add_cookie : Cookie → CookieRequest → CookieRequest
add_cookie c req = record req { cookies = req.cookies ++ c ∷ [] }

abbrev pub add_found : Option Cookie → CookieRequest → CookieRequest
add_found none req = req
add_found (some c) req = add_cookie c req

-- what a request may change
pub record State (World Jar : Type 0) : Type 0 where
  pub world : World
  pub jar : Jar

module _ {Jar : Type 0} (session_name : Bytes) (cookies : Jar → List Cookie) where
  -- Cookie
  unfoldable pub session_cookie : Jar → Option Cookie
  session_cookie jar = find_cookie session_name (cookies jar)

  -- shouldAuth
  unfoldable pub should_auth : ℕ → CookieRequest → Jar → Bool
  unfolding session_cookie
  should_auth now req jar =
      if is_some (find_cookie session_name req.cookies)
      then false
      else expires_soon now (session_cookie jar)

  module _ {World : Type 0} (log_in : State World Jar → Err × State World Jar) (now : ℕ) where
    -- authenticate: an error, the request with the cookie added, and the state
    abbrev pub after_login :
        CookieRequest → Err × State World Jar → Err × CookieRequest × State World Jar
    after_login req (some e, s) = (some e, req, s)
    after_login req (none, s) = (none, add_found (session_cookie s.jar) req, s)

    abbrev pub under_lock :
        CookieRequest → State World Jar → Option Cookie → Err × CookieRequest × State World Jar
    under_lock req s (some c) = (none, add_cookie c req, s)
    under_lock req s none = after_login req (log_in s)

    unfoldable pub authenticate :
        CookieRequest → State World Jar → Err × CookieRequest × State World Jar
    unfolding should_auth session_cookie
    authenticate req s =
        if req.in_progress
        then (none, req, s)
        else if should_auth now req s.jar
        then under_lock req s (session_cookie s.jar)
        else (none, req, s)

    module _ (transport : CookieRequest → State World Jar → Result ℕ × State World Jar)
        (set_cookies : List Cookie → Jar → Jar) (day_before : ℕ → ℕ) where
      -- RoundTrip: a 401 makes the session cookie one that has expired
      abbrev pub expire : Option Cookie → Jar → Jar
      expire none jar = jar
      expire (some c) jar = set_cookies (record c { expires = some (day_before now) } ∷ []) jar

      abbrev pub drop_cookie : Result ℕ × State World Jar → Result ℕ × State World Jar
      drop_cookie (err e, s) = (err e, s)
      drop_cookie (ok status, s) = (
        ok status,
        if status == status_unauthorized
            then record s { jar = expire (session_cookie s.jar) s.jar }
            else s,
      )

      abbrev pub send : Err × CookieRequest × State World Jar → Result ℕ × State World Jar
      send (some e, req, s) = (err e, s)
      send (none, req, s) = drop_cookie (transport req s)

      unfoldable pub round_trip : CookieRequest → State World Jar → Result ℕ × State World Jar
      unfolding authenticate session_cookie
      round_trip req s = send (authenticate req s)

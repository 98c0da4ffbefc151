-- ===== src/Chttp/Cookie/Login.antt =====
-- When a request logs in, and what a refused request leaves behind.
use couchdb.Common.{
  ℕ, Bytes, Bool, true, not, ◌&&◌, List, [], ◌∷◌, none, some, is_some, ◌≡◌, arith, refl, ◌∙◌,
  Option-cases, inl, inr, if◌then◌else◌,
}
use couchdb.Errors.{Err, Result, ok, err}
use couchdb.Chttp.Cookie.{
  Cookie, CookieRequest, State, find_cookie, expires_soon, add_cookie, session_cookie, authenticate,
  after_login, round_trip, expire, drop_cookie, send,
}

module _ {Jar : Type 0} (name : Bytes) (cookies : Jar → List Cookie) where
  -- a request that is to carry a session cookie and does not yet
  abbrev pub is_bare : CookieRequest → Bool
  is_bare req = not req.in_progress && not (is_some (find_cookie name req.cookies))

  -- what authenticate does for each kind of request
  pub authenticate_lem :
      {World : Type 0} (log_in : State World Jar → Err × State World Jar) (now : ℕ)
      (req : CookieRequest) (s : State World Jar)
      → authenticate name cookies log_in now req s ≡ (
          if is_bare req
          then elim (session_cookie name cookies s.jar) [
            | none ↦ after_login name cookies log_in now req (log_in s)
            | some c ↦
                if expires_soon now (some c) then (none, add_cookie c req, s) else (none, req, s)
          ]
          else (none, req, s))
  unfolding authenticate
  authenticate_lem log_in now req s = ground arith

  module _ {World : Type 0} (log_in : State World Jar → Err × State World Jar) (now : ℕ)
      (transport : CookieRequest → State World Jar → Result ℕ × State World Jar)
      (set_cookies : List Cookie → Jar → Jar) (day_before : ℕ → ℕ) where
    -- a cookie set again with an expiry in the past is gone from the jar
    abbrev pub Forgets : Type 0
    Forgets =
        (jar : Jar) (c : Cookie)
        → find_cookie name (cookies jar) ≡ some c
        → find_cookie name
            (cookies (set_cookies (record c { expires = some (day_before now) } ∷ []) jar))
          ≡ none

    expire_forgets :
        (jar : Jar)
        → Forgets
        → session_cookie name cookies (
            expire name cookies log_in now transport set_cookies day_before
              (session_cookie name cookies jar)
              jar)
          ≡ none
    unfolding session_cookie
    expire_forgets jar forgets = elim (Option-cases (find_cookie name (cookies jar))) [
      | inl h ↦ rw (h, expire) h
      | inr (c, h) ↦ rw (h, expire) (forgets jar c h)
    ]

    dropped :
        (q : Result ℕ × State World Jar)
        → Forgets
        → (drop_cookie name cookies log_in now transport set_cookies day_before q).0 ≡ ok 401
        → session_cookie name cookies
            (drop_cookie name cookies log_in now transport set_cookies day_before q).1.jar
          ≡ none
    dropped (err e, s) forgets h = ground arith
    dropped (ok status, s) forgets h = ground (arith, expire_forgets s.jar forgets)

    refused :
        (q : Err × CookieRequest × State World Jar)
        → Forgets
        → (send name cookies log_in now transport set_cookies day_before q).0 ≡ ok 401
        → session_cookie name cookies
            (send name cookies log_in now transport set_cookies day_before q).1.jar
          ≡ none
    refused (some e, req, s) forgets h = ground arith
    refused (none, req, s) forgets h = dropped (transport req s) forgets h

    -- After a request that was refused with 401, the next bare request logs in anew before it is
    -- sent, if the jar forgets a cookie that is set with an expiry in the past.
    pub authenticate-refused :
        (req again : CookieRequest) (s : State World Jar) (later : ℕ)
        → Forgets
        → (round_trip name cookies log_in now transport set_cookies day_before req s).0 ≡ ok 401
        → is_bare again ≡ true
        → authenticate name cookies log_in later again
            (round_trip name cookies log_in now transport set_cookies day_before req s).1
          ≡ after_login name cookies log_in later again
              (log_in (round_trip name cookies log_in now transport set_cookies day_before req s).1)
    authenticate-refused req again s later forgets h bare =
        let s' = (round_trip name cookies log_in now transport set_cookies day_before req s).1 in
        let gone : session_cookie name cookies s'.jar ≡ none =
          unfold round_trip in refused (authenticate name cookies log_in now req s) forgets h in
        authenticate_lem log_in later again s' ∙ rw (bare, gone) refl

-- ===== src/Chttp/Auth/Shared.antt =====
-- auth.go, and Authenticate of chttp/basicauth.go, chttp/cookieauth.go and chttp/proxyauth.go: how clients
-- take authenticators. An authenticator is a pointer to an object that holds one transport, and it may
-- be given to several clients, or to one of them twice: objects and clients are numbers here, and what
-- they hold is a state.
use couchdb.Common.{ℕ, ◌==◌, str, Option, none, some, is_some, if◌then◌else◌}
use couchdb.Errors.{Error, message, kivik, status_bad_request, Result, ok, err}

-- http.RoundTripper: http.DefaultTransport, one of the caller's, or the object of an authenticator
pub data RoundTripper : Type 0 where
  default_transport : RoundTripper
  custom object : ℕ → RoundTripper

-- `next` is what each object holds as its transport, and `transport` the Transport of each client; none
-- is nil
pub record State : Type 0 where
  pub next : ℕ → Option RoundTripper
  pub transport : ℕ → Option RoundTripper

abbrev pub set : ℕ → RoundTripper → (ℕ → Option RoundTripper) → ℕ → Option RoundTripper
set k t f j = if j == k then some t else f j

abbrev pub or_default : Option RoundTripper → RoundTripper
or_default none = default_transport
or_default (some t) = t

-- Authenticate of CookieAuth, BasicAuth, JWTAuth and ProxyAuth: the object takes the client's transport,
-- and the client the object
unfoldable pub authenticate : ℕ → ℕ → State → State
authenticate k i s = record s {
  next = set k (or_default (s.transport i)) s.next;
  transport = set i (object k) s.transport;
}

-- what client.Authenticate is given: an authenticator of chttp, or one made by BasicAuth, CookieAuth,
-- JWTAuth or ProxyAuth, whose function does the same with its one object; SetTransport; SetCookie; or
-- any other value
pub data Given : Type 0 where
  of_chttp : ℕ → Given
  set_transport : RoundTripper → Given
  set_cookie : ℕ → Given
  other_value : Given

abbrev pub transport_already_set : Error
transport_already_set =
    kivik status_bad_request (message (str "kivik: HTTP client transport already set"))

-- the auth methods of xportAuth and rawCookie
abbrev pub unless_set : ℕ → State → State → Result State
unless_set i s s' = if is_some (s.transport i) then err transport_already_set else ok s'

-- client.Authenticate
unfoldable pub authenticate_client : Given → ℕ → State → Result State
unfolding authenticate
authenticate_client (of_chttp k) i s = ok (authenticate k i s)
authenticate_client (set_transport t) i s =
    unless_set i s (record s { transport = set i t s.transport })
authenticate_client (set_cookie k) i s = unless_set i s (authenticate k i s)
authenticate_client other_value i s =
    err (kivik status_bad_request (message (str "kivik: invalid authenticator")))

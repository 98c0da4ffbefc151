-- ===== src/Chttp/Auth.antt =====
-- chttp/basicauth.go and chttp/proxyauth.go: the headers that these transports set on a request.
-- Parameters stand for net/http's
-- CanonicalHeaderKey, for the value that SetBasicAuth writes, and for the HMAC as hexadecimal text.
pub mod Proxy
pub mod Shared
pub mod Base
pub mod Overrides
use couchdb.Common.{
  Bytes, str, is_empty, equal, Bool, List, [], ◌∷◌, ◌++◌, Option, none, some, is_some,
  if◌then◌else◌,
}
use couchdb.Common.Assoc.{lookup}
use couchdb.Chttp.Headers.{Header, first_value, values, add_header, set_header}

-- BasicAuth.RoundTrip and JWTAuth.RoundTrip, before the transport behind them; rawCookie.RoundTrip
-- adds a cookie
unfoldable pub basic_headers : (Bytes → Bytes → Bytes) → Bytes → Bytes → Header → Header
basic_headers basic username password h =
    set_header (str "Authorization") (basic username password) h

unfoldable pub jwt_headers : Bytes → Header → Header
jwt_headers token h = set_header (str "Authorization") (str "Bearer " ++ token) h

-- ProxyAuth
pub record ProxyAuth : Type 0 where
  pub username : Bytes
  pub secret : Bytes
  pub roles : List Bytes
  pub headers : Header
  pub token : Bytes

-- strings.Join(roles, ",")
unfoldable pub join_roles : List Bytes → Bytes
join_roles [] = []
join_roles (r ∷ []) = r
join_roles (r ∷ (s ∷ rs)) = r ++ (str "," ++ join_roles (s ∷ rs))

module _ (canonical : Bytes → Bytes) (hmac : Bytes → Bytes → Bytes) where
  abbrev pub override : Bytes → Bytes → Bytes
  override name [] = name
  override name (c ∷ h) = canonical (c ∷ h)

  -- header
  unfoldable pub header : ProxyAuth → Bytes → Bytes
  unfolding lookup
  header a name = override name (first_value (values (lookup (canonical name) a.headers)))

  -- genToken
  unfoldable pub gen_token : ProxyAuth → Bytes × ProxyAuth
  gen_token a =
      if is_empty a.secret
      then ([], a)
      else if is_empty a.token
      then (hmac a.secret a.username, record a { token = hmac a.secret a.username })
      else (a.token, a)

  abbrev pub with_token : Bytes → Bytes → Header → Header
  with_token name [] h = h
  with_token name (c ∷ token) h = set_header name (c ∷ token) h

  -- the headers that ProxyAuth.RoundTrip sets, with the token
  abbrev pub proxied : ProxyAuth → Bytes → Header → Header
  proxied a token h =
      set_header (canonical (header a (str "X-Auth-CouchDB-Roles"))) (join_roles a.roles) (
        set_header (canonical (header a (str "X-Auth-CouchDB-UserName"))) a.username
          (with_token (canonical (header a (str "X-Auth-CouchDB-Token"))) token h))

  abbrev pub proxy_after : Header → Bytes × ProxyAuth → Header × ProxyAuth
  proxy_after h (token, a) = (proxied a token h, a)

  -- ProxyAuth.RoundTrip
  unfoldable pub proxy_headers : ProxyAuth → Header → Header × ProxyAuth
  unfolding gen_token header join_roles
  proxy_headers a h = proxy_after h (gen_token a)

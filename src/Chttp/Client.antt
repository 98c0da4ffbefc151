-- ===== src/Chttp/Client.antt =====
-- chttp/chttp.go: `Client`, its construction and its requests; `Authenticate` of chttp/cookieauth.go,
-- chttp/basicauth.go and chttp/proxyauth.go. Parameters stand for the functions of net/url, net/http
-- and kivik that the code calls.
pub mod Built
use couchdb.Common.{
  ℕ, Bytes, str, is_empty, equal, has_prefix, Bool, true, false, ◌||◌, List, [], ◌∷◌, ◌++◌, Option,
  none, some, if◌then◌else◌, is_some,
}
use couchdb.Common.Assoc.{lookup}
use couchdb.Errors.{
  Error, message, kivik, full_error, status_bad_request, Err, Result, ok, err, ◌>>=◌, missing_arg,
}
use couchdb.Chttp.Options.{
  Any, text, bool, OptionMap, option_user_agent, option_no_compressed_requests, Options,
}
use couchdb.Chttp.Headers.{Request, add_header, set_headers, set_query, fix_path, client_path}
use couchdb.Chttp.Response.{net_error}

-- *url.URL; `host` is what stands before the path, without the user
pub record Url : Type 0 where
  pub host : Bytes
  pub user : Option (Bytes × Bytes)
  pub path : Bytes
  pub query : Bytes

-- the authenticators, by what they hold when they are made
pub data Authenticator : Type 0 where
  cookie_auth basic_auth : (username password : Bytes) → Authenticator
  jwt_auth : (token : Bytes) → Authenticator
  proxy_auth : (username secret : Bytes) → Authenticator

-- http.RoundTripper: the default one, one of the caller's, or an authenticator before another one
pub data Transport : Type 0 where
  default_transport : Transport
  custom : ℕ → Transport
  through : Authenticator → Transport → Transport

pub record Client : Type 0 where
  pub user_agents : List Bytes
  pub transport : Option Transport
  pub raw_dsn : Bytes
  pub dsn : Url
  pub base_path : Bytes
  pub auth : Option Authenticator
  pub no_gzip : Bool

-- Authenticate of an authenticator that is given to no other client and not twice, as the one that New
-- makes: the transport of the client goes behind it. Chttp/Auth/Shared has those that are shared.
abbrev pub original : Option Transport → Transport
original none = default_transport
original (some t) = t

unfoldable pub authenticate : Authenticator → Client → Client
authenticate a c = record c { transport = some (through a (original c.transport)) }

abbrev pub auth_already_set : Error
auth_already_set = message (str "auth already set")

-- Client.Auth
unfoldable pub auth : Authenticator → Client → Result Client
unfolding authenticate
auth a c =
    if is_some c.auth
    then err auth_already_set
    else ok (record (authenticate a c) { auth = some a })

-- strings.TrimSuffix(path, "/")
unfoldable pub trim_slash : Bytes → Bytes
unfolding equal
trim_slash [] = []
trim_slash (c ∷ s) = let rest = trim_slash s in if equal (c ∷ s) (str "/") then [] else c ∷ rest

-- parseDSN
abbrev pub with_scheme : Bytes → Bytes
with_scheme dsn =
    if has_prefix dsn (str "http://") || has_prefix dsn (str "https://")
    then dsn
    else str "http://" ++ dsn

abbrev pub root_path : Url → Url
root_path u = if is_empty u.path then record u { path = str "/" } else u

abbrev pub parsed : Result Url → Result Url
parsed (ok u) = ok (root_path u)
parsed (err e) = err (full_error status_bad_request e)

unfoldable pub parse_dsn : (Bytes → Result Url) → Bytes → Result Url
unfolding has_prefix full_error
parse_dsn parse_url [] = err (full_error status_bad_request (message (str "no URL specified")))
parse_dsn parse_url (c ∷ s) = parsed (parse_url (with_scheme (c ∷ s)))

-- the two options that New reads
abbrev pub bad_option : Bytes → Error
bad_option name = kivik status_bad_request (message (name ++ str " has the wrong type"))

abbrev pub set_no_gzip : Option Any → Client → Result Client
set_no_gzip none c = ok c
set_no_gzip (some (bool b)) c = ok (record c { no_gzip = b })
set_no_gzip (some v) c = err (bad_option (str "OptionNoCompressedRequests"))

abbrev pub driver_agents : Bytes → List Bytes
driver_agents version = (str "Kivik/" ++ version) ∷ str "Kivik CouchDB driver/4.0.0-prerelease" ∷ []

abbrev pub add_agent : Bytes → Option Any → Client → Result Client
add_agent version none c = ok (record c { user_agents = driver_agents version })
add_agent version (some (text s)) c =
    ok (record c { user_agents = driver_agents version ++ s ∷ [] })
add_agent version (some v) c = err (bad_option (str "OptionUserAgent"))

-- setUserAgent
unfoldable pub set_user_agent : Bytes → OptionMap → Client → Result Client
set_user_agent version options c = add_agent version (lookup option_user_agent options) c

-- New
abbrev pub log_in_as : Option (Bytes × Bytes) → Client → Result Client
log_in_as none c = ok c
log_in_as (some (username, password)) c = auth (cookie_auth username password) c

abbrev pub made : Option Transport → Bytes → Url → Client
made transport dsn u = record {
  user_agents = [];
  transport = transport;
  raw_dsn = dsn;
  dsn = record u { user = none };
  base_path = trim_slash u.path;
  auth = none;
  no_gzip = false;
}

abbrev pub configured : Bytes → OptionMap → Result Client → Result Client
configured version options c =
    c
    >>= set_no_gzip (lookup option_no_compressed_requests options)
    >>= set_user_agent version options

abbrev pub from_url : Bytes → OptionMap → Option Transport → Bytes → Result Url → Result Client
from_url version options transport dsn (err e) = err e
from_url version options transport dsn (ok u) =
    configured version options (log_in_as u.user (made transport dsn u))

unfoldable pub new :
    Bytes → (Bytes → Result Url) → Option Transport → Bytes → OptionMap → Result Client
unfolding parse_dsn auth set_user_agent trim_slash
new version parse_url transport dsn options =
    from_url version options transport dsn (parse_dsn parse_url dsn)

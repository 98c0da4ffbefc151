-- ===== src/Chttp/Auth/Overrides.antt =====
-- auth.go: the functions that make authenticators, with the header overrides of ProxyAuth, and
-- RoundTrip of rawCookie; chttp/auth.go: the cookie
-- jar that CookieAuth needs.
use couchdb.Common.{
  Bytes, equal, List, [], ◌∷◌, Option, none, some, if◌then◌else◌, ◌≡◌, refl, ap, ◌∙◌, Bool, true,
  false,
}
use couchdb.Common.Assoc.{Assoc, lookup, lookup-insert}
use couchdb.Chttp.Headers.{Header, first_value, values, set_header}
use couchdb.Chttp.Cookie.{Cookie, CookieRequest, add_cookie}
use couchdb.Chttp.Client.{Authenticator, basic_auth, cookie_auth, jwt_auth}
use couchdb.Chttp.Auth.{ProxyAuth, override, header}

-- the objects that the functions BasicAuth, CookieAuth and JWTAuth make; what they return gives the
-- object to the client
abbrev pub by_basic_auth : Bytes → Bytes → Authenticator
by_basic_auth user password = basic_auth user password

abbrev pub by_cookie_auth : Bytes → Bytes → Authenticator
by_cookie_auth user password = cookie_auth user password

abbrev pub by_jwt_auth : Bytes → Authenticator
by_jwt_auth token = jwt_auth token

-- RoundTrip of rawCookie: the cookie is added to the request, for the transport behind it
unfoldable pub raw_cookie_trip :
    {Outcome : Type 0} → Cookie → (CookieRequest → Outcome) → CookieRequest → Outcome
raw_cookie_trip cookie next req = next (add_cookie cookie req)

-- setCookieJar: a jar that is there is used
unfoldable pub set_cookie_jar : {Jar : Type 0} → Jar → Option Jar → Option Jar
set_cookie_jar new none = some new
set_cookie_jar new (some jar) = some jar

module _ (canonical : Bytes → Bytes) where
  -- one map, in the order that `range` takes it
  unfoldable pub set_all : Assoc Bytes → Header → Header
  set_all [] h = h
  set_all ((k, v) ∷ m) h = set_all m (set_header (canonical k) v h)

  unfoldable pub header_overrides : List (Assoc Bytes) → Header → Header
  unfolding set_all
  header_overrides [] h = h
  header_overrides (m ∷ ms) h = header_overrides ms (set_all m h)

  -- the function ProxyAuth
  unfoldable pub new_proxy_auth : Bytes → Bytes → List Bytes → List (Assoc Bytes) → ProxyAuth
  unfolding header_overrides
  new_proxy_auth user secret roles headers = record {
    username = user;
    secret = secret;
    roles = roles;
    headers = header_overrides headers [];
    token = [];
  }

  -- what the last entry says whose name has the canonical form `name`
  abbrev pub last_in : Bytes → Assoc Bytes → Bytes → Bytes
  last_in name [] old = old
  last_in name ((k, v) ∷ m) old = last_in name m (if equal (canonical k) name then v else old)

  abbrev pub last_given : Bytes → List (Assoc Bytes) → Bytes → Bytes
  last_given name [] old = old
  last_given name (m ∷ ms) old = last_given name ms (last_in name m old)

  abbrev get : Bytes → Header → Bytes
  get name h = first_value (values (lookup name h))

  picked :
      (b : Bool) (v : Bytes) (o : Option (List Bytes))
      → first_value (values (if b then some (v ∷ []) else o))
        ≡ (if b then v else first_value (values o))
  picked true v o = refl
  picked false v o = refl

  get-set_header :
      (k name v : Bytes) (h : Header)
      → get name (set_header k v h) ≡ (if equal k name then v else get name h)
  get-set_header k name v h =
      ap (λ o. first_value (values o)) (lookup-insert k name (v ∷ []) h)
      ∙ picked (equal k name) v (lookup name h)

  get-set_all :
      (name : Bytes) (m : Assoc Bytes) (h : Header)
      → get name (set_all m h) ≡ last_in name m (get name h)
  unfolding set_all
  get-set_all name [] h = refl
  get-set_all name ((k, v) ∷ m) h =
      get-set_all name m (set_header (canonical k) v h)
      ∙ ap (last_in name m) (get-set_header (canonical k) name v h)

  get-header_overrides :
      (name : Bytes) (ms : List (Assoc Bytes)) (h : Header)
      → get name (header_overrides ms h) ≡ last_given name ms (get name h)
  unfolding header_overrides
  get-header_overrides name [] h = refl
  get-header_overrides name (m ∷ ms) h =
      get-header_overrides name ms (set_all m h) ∙ ap (last_given name ms) (get-set_all name m h)

  -- The maps given to ProxyAuth: a header is sent under the name that the last entry for it gives, in
  -- whatever spelling and map, and under its own name where no entry gives one or it gives an empty one.
  pub header-new_proxy_auth :
      (hmac : Bytes → Bytes → Bytes) (user secret : Bytes) (roles : List Bytes)
      (headers : List (Assoc Bytes)) (name : Bytes)
      → header canonical hmac (new_proxy_auth user secret roles headers) name
        ≡ override canonical hmac name (last_given (canonical name) headers [])
  unfolding header new_proxy_auth
  header-new_proxy_auth hmac user secret roles headers name = ap (override canonical hmac name) (
      get-header_overrides (canonical name) headers []
      ∙ ap (last_given (canonical name) headers) (unfold lookup in refl))

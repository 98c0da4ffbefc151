-- ===== src/Chttp/Client/Built.antt =====
-- What New and Auth make of a client.
use couchdb.Common.{
  ℕ, Bytes, Bool, true, false, ◌&&◌, List, [], ◌∷◌, ◌++◌, Option, none, some, ◌≡◌, refl, sym, subst,
}
use couchdb.Common.Assoc.{lookup}
use couchdb.Errors.{Error, Result, ok, err, full_error, ◌>>=◌, kivik, curl}
use couchdb.Chttp.Options.{
  Any, text, texts, bool, int, raw_message, other, OptionMap, option_user_agent,
  option_no_compressed_requests,
}
use couchdb.Chttp.Client.{
  Url, Authenticator, cookie_auth, Transport, through, original, Client, auth, auth_already_set,
  parse_dsn, parsed, root_path, trim_slash, with_scheme, set_no_gzip, driver_agents, add_agent,
  set_user_agent, log_in_as, made, configured, from_url, new,
}

-- the status that an error of New carries
abbrev pub carried : Error → Option ℕ
carried (kivik status e) = some status
carried (curl status e) = some status
carried e = none

abbrev pub wrapped : Option (Bytes × Bytes) → Option Transport → Option Transport
wrapped none transport = transport
wrapped (some (username, password)) transport =
    some (through (cookie_auth username password) (original transport))

abbrev pub credentials : Option (Bytes × Bytes) → Option Authenticator
credentials none = none
credentials (some (username, password)) = some (cookie_auth username password)

module _ (version : Bytes) (options : OptionMap) where
  -- the two options have the types that New asks for
  abbrev pub gzip_of : Option Any → Bool
  gzip_of (some (bool b)) = b
  gzip_of v = false

  abbrev pub agents_of : Option Any → List Bytes
  agents_of (some (text s)) = driver_agents version ++ s ∷ []
  agents_of v = driver_agents version

  -- the client that New is to make
  abbrev pub expected : Option Transport → Bytes → Url → Client
  expected transport dsn u = record {
    user_agents = agents_of (lookup option_user_agent options);
    transport = wrapped u.user transport;
    raw_dsn = dsn;
    dsn = record u { user = none };
    base_path = trim_slash u.path;
    auth = credentials u.user;
    no_gzip = gzip_of (lookup option_no_compressed_requests options);
  }

  abbrev pub fits_gzip : Option Any → Bool
  fits_gzip none = true
  fits_gzip (some (bool b)) = true
  fits_gzip (some v) = false

  abbrev pub fits_agent : Option Any → Bool
  fits_agent none = true
  fits_agent (some (text s)) = true
  fits_agent (some v) = false

  abbrev pub well_typed : Bool
  well_typed =
      fits_gzip (lookup option_no_compressed_requests options)
      && fits_agent (lookup option_user_agent options)

  abbrev pub Made : Option Transport → Bytes → Result Url → Result Client → Type 0
  Made transport dsn (ok u) (ok c) = (well_typed ≡ true) × (c ≡ expected transport dsn u)
  Made transport dsn (err e) (ok c) = ⊥
  Made transport dsn (ok u) (err e) = (well_typed ≡ false) × (carried e ≡ some 400)
  Made transport dsn (err x) (err e) = carried e ≡ some 400

  agent-Made :
      (transport : Option Transport) (dsn : Bytes) (u : Url) (c : Client) (b : Option Any)
      → record c { user_agents = agents_of b }
        ≡ record (expected transport dsn u) { user_agents = agents_of b }
      → fits_gzip (lookup option_no_compressed_requests options) ≡ true
      → b ≡ lookup option_user_agent options
      → Made transport dsn (ok u) (add_agent version b c)
  agent-Made transport dsn u c none h hg eq = rw (hg, sym eq) (refl, h)
  agent-Made transport dsn u c (some (text s)) h hg eq = rw (hg, sym eq) (refl, h)
  agent-Made transport dsn u c (some (texts s)) h hg eq = rw (hg, sym eq) (refl, refl)
  agent-Made transport dsn u c (some (bool s)) h hg eq = rw (hg, sym eq) (refl, refl)
  agent-Made transport dsn u c (some (int s)) h hg eq = rw (hg, sym eq) (refl, refl)
  agent-Made transport dsn u c (some (raw_message s)) h hg eq = rw (hg, sym eq) (refl, refl)
  agent-Made transport dsn u c (some (other s)) h hg eq = rw (hg, sym eq) (refl, refl)

  abbrev pub logged : Option Transport → Bytes → Url → Client
  logged transport dsn u = record (made transport dsn u) {
    transport = wrapped u.user transport;
    auth = credentials u.user;
  }

  gzip-Made :
      (transport : Option Transport) (dsn : Bytes) (u : Url) (a : Option Any)
      → a ≡ lookup option_no_compressed_requests options
      → Made transport dsn
          (ok u)
          (set_no_gzip a (logged transport dsn u) >>= set_user_agent version options)
  unfolding set_user_agent
  gzip-Made transport dsn u none eq =
      agent-Made transport dsn u _ _ (rw (sym eq) refl) (rw (sym eq) refl) refl
  gzip-Made transport dsn u (some (bool b)) eq =
      agent-Made transport dsn u _ _ (rw (sym eq) refl) (rw (sym eq) refl) refl
  gzip-Made transport dsn u (some (text s)) eq = rw (sym eq) (refl, refl)
  gzip-Made transport dsn u (some (texts s)) eq = rw (sym eq) (refl, refl)
  gzip-Made transport dsn u (some (int s)) eq = rw (sym eq) (refl, refl)
  gzip-Made transport dsn u (some (raw_message s)) eq = rw (sym eq) (refl, refl)
  gzip-Made transport dsn u (some (other s)) eq = rw (sym eq) (refl, refl)

  log_in_as-made :
      (transport : Option Transport) (dsn : Bytes) (u : Url) (user : Option (Bytes × Bytes))
      → log_in_as user (made transport dsn u)
        ≡ ok (record (made transport dsn u) {
          transport = wrapped user transport;
          auth = credentials user;
        })
  unfolding auth
  log_in_as-made transport dsn u none = refl
  log_in_as-made transport dsn u (some p) = refl

  from_url_lem :
      (transport : Option Transport) (dsn : Bytes) (u : Url)
      → Made transport dsn (ok u) (from_url version options transport dsn (ok u))
  from_url_lem transport dsn u =
      subst (λ c. Made transport dsn (ok u) (configured version options c))
        (sym (log_in_as-made transport dsn u u.user))
        (gzip-Made transport dsn u (lookup option_no_compressed_requests options) refl)

  parsed-Made :
      (transport : Option Transport) (dsn : Bytes) (q : Result Url)
      → Made transport dsn (parsed q) (from_url version options transport dsn (parsed q))
  parsed-Made transport dsn (ok u) = from_url_lem transport dsn (root_path u)
  parsed-Made transport dsn (err e) = unfold full_error in refl

  -- New fails with an error of status 400 exactly where the text is no URL or an option has a wrong
  -- type; otherwise it makes the client that the URL and the options ask for: the user of the URL becomes the cookie authentication around the transport, and is no
  -- longer in the client's URL; the base path has no slash at its end; compression is off where the
  -- option says so; and the agents are the driver's own, then the option's. There is no client for a
  -- text that cannot be parsed.
  pub new_lem :
      (parse_url : Bytes → Result Url) (transport : Option Transport) (dsn : Bytes)
      → Made transport dsn (parse_dsn parse_url dsn) (new version parse_url transport dsn options)
  unfolding new parse_dsn
  new_lem parse_url transport [] = refl
  new_lem parse_url transport (c ∷ s) =
      parsed-Made transport (c ∷ s) (parse_url (with_scheme (c ∷ s)))

-- A client that has an authenticator keeps it: after Auth, any other Auth is refused, and the
-- requests pass the first authenticator before the transport that the client had.
pub auth-auth :
    (a b : Authenticator) (c : Client)
    → c.auth ≡ none
    → (auth a c
        ≡ ok (record c { transport = some (through a (original c.transport)); auth = some a }))
      × ((auth a c >>= auth b) ≡ err auth_already_set)
unfolding auth
auth-auth a b c h = rw h (refl, refl)

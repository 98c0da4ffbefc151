-- ===== src/Driver/Opened.antt =====
-- What NewClient makes.
use couchdb.Common.{
  Bytes, str, is_empty, has_prefix, true, false, ◌||◌, [], ◌∷◌, ◌++◌, Option, none, some,
  if◌then◌else◌, ◌≡◌, refl, subst,
}
use couchdb.Common.Assoc.{lookup}
use couchdb.Errors.{Result, ok, err, ◌>>=◌}
use couchdb.Chttp.Options.{Any, OptionMap, option_http_client}
use couchdb.Chttp.Client.{Url, Transport, Client, with_scheme, parsed, parse_dsn, new}
use couchdb.Chttp.Client.Built.{carried, well_typed, Made, expected, new_lem}
use couchdb.Driver.{DriverClient, transport_of, given_transport, new_client}

-- the URL of a text: one with a scheme, and with the path "/" where it has none
abbrev pub with_root : Result Url → Option Url
with_root (ok u) = some (if is_empty u.path then record u { path = str "/" } else u)
with_root (err e) = none

abbrev pub asked_url : (Bytes → Result Url) → Bytes → Option Url
asked_url parse_url [] = none
asked_url parse_url (c ∷ s) = with_root (
    parse_url (
      if has_prefix (c ∷ s) (str "http://") || has_prefix (c ∷ s) (str "https://")
      then c ∷ s
      else str "http://" ++ c ∷ s))

-- the transport that the option asks for, none where it is of another type: a missing option, or a
-- client that is nil, asks for no transport
abbrev pub asked_transport :
    (Any → Option (Option (Option Transport))) → Option Any → Option (Option Transport)
asked_transport http_client none = some none
asked_transport http_client (some v) = elim (http_client v) [
  | none ↦ none
  | some none ↦ some none
  | some (some t) ↦ some t
]

module _ (http_client : Any → Option (Option (Option Transport))) (version dsn : Bytes)
    (options : OptionMap) where
  -- A client for the transport of the option and the URL where the other options have the types that
  -- New asks for, and otherwise an error of status 400.
  abbrev pub OpenedAs : Option (Option Transport) → Option Url → Result DriverClient → Type 0
  OpenedAs (some t) (some u) (ok d) =
      (well_typed version options ≡ true)
      × (d.http ≡ expected version options t dsn u)
      × (d.detected ≡ none)
  OpenedAs none u (ok d) = ⊥
  OpenedAs t none (ok d) = ⊥
  OpenedAs (some t) (some u) (err e) = (well_typed version options ≡ false) × (carried e ≡ some 400)
  OpenedAs t u (err e) = carried e ≡ some 400

  abbrev url_or_none : Result Url → Option Url
  url_or_none (ok u) = some u
  url_or_none (err e) = none

  asked_url-parse_dsn :
      (parse_url : Bytes → Result Url) (s : Bytes)
      → url_or_none (parse_dsn parse_url s) ≡ asked_url parse_url s
  unfolding parse_dsn
  asked_url-parse_dsn parse_url [] = refl
  asked_url-parse_dsn parse_url (c ∷ s) = of_parsed (parse_url (with_scheme (c ∷ s)))
    where
      of_parsed : (q : Result Url) → url_or_none (parsed q) ≡ with_root q
      of_parsed (ok u) = refl
      of_parsed (err e) = refl

  opened_by :
      (t : Option Transport) (u : Result Url) (c : Result Client)
      → Made version options t dsn u c
      → OpenedAs (some t) (url_or_none u) (c >>= (λ h. ok (record { http = h; detected = none })))
  opened_by t (ok u) (ok c) h = (h.0, h.1, refl)
  opened_by t (err x) (ok c) h = h
  opened_by t (ok u) (err e) h = h
  opened_by t (err x) (err e) h = h

  -- the rest of NewClient
  abbrev rest_of : (Bytes → Result Url) → Result (Option Transport) → Result DriverClient
  rest_of parse_url g = g >>= (λ transport.
      new version parse_url transport dsn options
      >>= (λ c. ok (record { http = c; detected = none })))

  abbrev asked : (Bytes → Result Url) → Option Url
  asked parse_url = url_or_none (parse_dsn parse_url dsn)

  with_transport :
      (parse_url : Bytes → Result Url) (t : Option Transport)
      → OpenedAs (some t) (asked parse_url) (rest_of parse_url (ok t))
  with_transport parse_url t =
      opened_by t (parse_dsn parse_url dsn) _ (new_lem version options parse_url t dsn)

  transport-OpenedAs :
      (parse_url : Bytes → Result Url) (x : Option (Option (Option Transport)))
      → OpenedAs
          (elim x [ none ↦ none | some none ↦ some none | some (some t) ↦ some t ])
          (asked parse_url)
          (rest_of parse_url (transport_of x))
  transport-OpenedAs parse_url none = refl
  transport-OpenedAs parse_url (some none) = with_transport parse_url none
  transport-OpenedAs parse_url (some (some t)) = with_transport parse_url t

  given-OpenedAs :
      (parse_url : Bytes → Result Url) (v : Option Any)
      → OpenedAs
          (asked_transport http_client v)
          (asked parse_url)
          (rest_of parse_url (given_transport http_client v))
  given-OpenedAs parse_url none = with_transport parse_url none
  given-OpenedAs parse_url (some v) = transport-OpenedAs parse_url (http_client v)

  -- NewClient fails with an error of status 400 where the HTTP client of the options is of another
  -- type, where the text is no URL, or where an option that chttp.New reads is of a wrong type, and
  -- nowhere else. Otherwise its client is that of chttp.New for the transport of the option, or for
  -- none where the option is missing or nil: with the cookie authentication, the path, the compression
  -- and the agents that the URL and the options ask for. Whether the server has a scheduler is not
  -- known yet.
  pub new_client-OpenedAs :
      (parse_url : Bytes → Result Url)
      → OpenedAs
          (asked_transport http_client (lookup option_http_client options))
          (asked_url parse_url dsn)
          (new_client http_client version parse_url dsn options)
  unfolding new_client
  new_client-OpenedAs parse_url =
      subst
        (λ u.
          OpenedAs (asked_transport http_client (lookup option_http_client options)) u
            (new_client http_client version parse_url dsn options))
        (asked_url-parse_dsn parse_url dsn)
        (given-OpenedAs parse_url (lookup option_http_client options))

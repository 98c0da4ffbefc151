-- ===== src/Driver.antt =====
-- couchdb.go: NewClient and DB; how the methods of the driver go through the HTTP client of
-- chttp/chttp.go.
pub mod Opened
pub mod Composed
use couchdb.Common.{ℕ, Bytes, str, is_empty, Bool, List, [], ◌∷◌, Option, none, some, ◌≡◌}
use couchdb.Common.Assoc.{lookup}
use couchdb.Errors.{Error, missing_arg, Result, ok, err, ◌>>=◌}
use couchdb.Chttp.Options.{Any, other, OptionMap, option_http_client}
use couchdb.Chttp.Headers.{Request}
use couchdb.Chttp.Response.{Response}
use couchdb.Chttp.Client.{Url, Transport, Client, bad_option, new}
use couchdb.Chttp.Send.{do_req}
use couchdb.Wire.{Payload, no_payload, Call, Net}
use couchdb.Params.{Values}

-- client; `detected` is schedulerDetected
pub record DriverClient : Type 0 where
  pub http : Client
  pub detected : Option Bool

-- db
pub record Db : Type 0 where
  pub client : DriverClient
  pub db_name : Bytes

-- the transport of the option's HTTP client; a nil pointer is replaced by a client without one
abbrev pub transport_of : Option (Option (Option Transport)) → Result (Option Transport)
transport_of none = err (bad_option (str "OptionHTTPClient"))
transport_of (some none) = ok none
transport_of (some (some t)) = ok t

-- NewClient: `http_client` says which values are an *http.Client: none of another type, `some none`
-- the nil pointer, and otherwise one with its transport
module _ (http_client : Any → Option (Option (Option Transport))) where
  abbrev pub given_transport : Option Any → Result (Option Transport)
  given_transport none = ok none
  given_transport (some v) = transport_of (http_client v)

  unfoldable pub new_client : Bytes → (Bytes → Result Url) → Bytes → OptionMap → Result DriverClient
  unfolding lookup new
  new_client version parse_url dsn options =
      given_transport (lookup option_http_client options) >>= (λ transport.
        new version parse_url transport dsn options
        >>= (λ c. ok (record { http = c; detected = none })))

-- DB
unfoldable pub open_db : (Bytes → Bytes) → DriverClient → Bytes → Result Db
open_db path_escape c [] = err (missing_arg (str "dbName"))
open_db path_escape c (b ∷ name) = ok (record { client = c; db_name = path_escape (b ∷ name) })

-- The body of a call, as far as NewRequest looks at it: whether there is one. What it holds is read
-- by the transport alone.
abbrev pub body_of : Payload → Option (Result Bytes)
body_of no_payload = none
body_of p = some (ok [])

module _ (runtime_agent : Bytes) (parse_url : Bytes → Result Url) (url_string : Url → Bytes)
    (http_request : Bytes → Bytes → Result Request) {World : Type 0}
    (perform : Payload → Request → World → Result Response × World) (http_status : Error → ℕ)
    (media_type : Bytes → Bytes) where
  -- the client's DoReq with the arguments of a call
  unfoldable pub send : Client → Call → World → Result Response × World
  unfolding do_req
  send c call w =
      do_req runtime_agent parse_url url_string http_request (perform call.payload) http_status
        media_type c call.method call.path call.opts (body_of call.payload) w

  -- what the methods are given, where the requests go through the client
  abbrev pub through_client : Client → Net World → Net World
  through_client c n = record n { request = send c }

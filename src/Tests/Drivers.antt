-- ===== src/Tests/Drivers.antt =====
-- A driver's client at concrete inputs: how it is made, and what it sends.
use couchdb.Common.{
  Bytes, str, List, [], ◌∷◌, ◌++◌, Option, none, some, ◌≡◌, refl, true, false, arith,
}
use couchdb.Common.Assoc.{Assoc, lookup}
use couchdb.Errors.{failure, Result, ok, err}
use couchdb.Chttp.Options.{Any, other, OptionMap, option_http_client}
use couchdb.Chttp.Headers.{Request}
use couchdb.Chttp.Response.{Response}
use couchdb.Chttp.Client.{Url, Transport, Client}
use couchdb.Chttp.Streams.{Body, source, read_all}
use couchdb.Chttp.Encoder.Compressed.{compress_body, read_all-compress_body}
use couchdb.Wire.{Payload, Net}
use couchdb.Methods.{ServerMethod}
use couchdb.Driver.{new_client}
use couchdb.Driver.Opened.{OpenedAs, asked_url, asked_transport, new_client-OpenedAs}
use couchdb.Driver.Composed.{on_server, Performed, run, run-Performed}
use couchdb.Tests.Methods.{answer}
use couchdb.Tests.Requests.{bare_request}

-- every value of another type is an HTTP client with its own transport
abbrev is_client : Any → Option (Option (Option Transport))
is_client (other k) = some (some (some (Transport.custom k)))
is_client v = none

abbrev as_path : Bytes → Result Url
as_path s = ok (record { host = []; user = some (str "bob", str "pw"); path = s; query = [] })

abbrev with_client : OptionMap
with_client = (option_http_client, other 7) ∷ []

new_client-OpenedAs_example :
    OpenedAs is_client
      (str "4")
      (str "db")
      with_client
      (asked_transport is_client (lookup option_http_client with_client))
      (asked_url as_path (str "db"))
      (new_client is_client (str "4") as_path (str "db") with_client)
new_client-OpenedAs_example = new_client-OpenedAs is_client (str "4") (str "db") with_client as_path

abbrev client : Client
client = record {
  user_agents = [];
  transport = none;
  raw_dsn = str "http://h/";
  dsn = record { host = str "http://h"; user = none; path = str "/"; query = [] };
  base_path = [];
  auth = none;
  no_gzip = false;
}

abbrev url_text : Url → Bytes
url_text u = u.host ++ u.path

abbrev make_request : Bytes → Bytes → Result Request
make_request method target = ok (record bare_request { method = method })

-- the network writes the requests down
abbrev written : Payload → Request → List Request → Result Response × List Request
written p req w = (ok (answer 200 [] none (str "HEAD")), req ∷ w)

abbrev no_net : Net (List Request)
no_net = record {
  request = λ c w. (err (failure 1), w);
  normal_path = λ p. ok p;
  join_path = λ ps. [];
  path_escape = λ p. p;
  encode_values = λ vs. [];
  media_type = λ t. t;
  marshal = λ v. ok (str "null");
  parse_json = λ s. err (failure 1);
  http_status = λ e. 500;
}

run-Performed_example :
    Performed
      (str "go")
      as_path
      url_text
      make_request
      written
      (λ e. 500)
      (λ t. t)
      client
      []
      (run
        (str "go")
        as_path
        url_text
        make_request
        written
        (λ e. 500)
        (λ t. t)
        client
        no_net
        (λ raw. err (failure 1))
        (on_server (ServerMethod.db_exists (str "db")))
        []).1
run-Performed_example =
    run-Performed (str "go") as_path url_text make_request written (λ e. 500) (λ t. t) client no_net
      (λ raw. err (failure 1)) (on_server (ServerMethod.db_exists (str "db"))) []

-- two maps, of which the later one wins
abbrev renamed : List (Assoc Bytes)
renamed =
    ((str "X-Auth-CouchDB-Roles", str "X-A") ∷ [])
    ∷ ((str "X-Auth-CouchDB-Roles", str "X-B") ∷ [])
    ∷ []

-- a stand-in for gzip: a byte before the text
abbrev mark : Bytes → Bytes
mark s = 31 ∷ s

abbrev unmark : Bytes → Bytes
unmark [] = []
unmark (c ∷ s) = s

abbrev hello : Body
hello = source (str "he" ∷ str "llo" ∷ []) (failure 4) none

read_all-compress_body_example :
    (c : Body) × (compress_body mark (λ i. 2) true (some hello) ≡ (true, some c))
    × (unmark (read_all (λ i. 3) c).0 ≡ str "hello")
    × ((read_all (λ i. 3) c).1 ≡ some (failure 4))
read_all-compress_body_example =
    read_all-compress_body mark unmark (λ i. 2) (λ i. 3) hello (λ s. refl) (λ i. omega arith)
      (λ i. omega arith)

-- ===== src/Tests/Clients.antt =====
-- The client, its authentication and its calls at concrete inputs.
use couchdb.Common.{
  ℕ, Bytes, str, trim_prefix, equal, List, [], ◌∷◌, ◌++◌, none, some, ◌≡◌, refl, true, false,
  length, if◌then◌else◌,
}
use couchdb.Common.Int.{negsuc}
use couchdb.Common.Assoc.{lookup, delete, insert}
use couchdb.Errors.{Err, Result, ok}
use couchdb.Chttp.DocId.{encode_doc_id}
use couchdb.Chttp.Options.{Any, bool, OptionMap}
use couchdb.Chttp.Headers.{Request, before_query, client_path}
use couchdb.Chttp.Headers.Sent.{or_first, default_headers}
use couchdb.Chttp.Cookie.{
  Cookie, CookieRequest, State, find_cookie, session_cookie, should_auth, authenticate, after_login,
  round_trip,
}
use couchdb.Chttp.Cookie.Login.{is_bare, authenticate-refused}
use couchdb.Chttp.Client.{Url, Client}
use couchdb.Chttp.Send.{prepare}
use couchdb.Chttp.Send.Prepared.{encoding, compressed, prepare_lem}
use couchdb.Database.{RowsCall, rows_call}
use couchdb.Params.Encoded.{wrapped, encoding_of, is_in, lookup-encode_keys}
use couchdb.Params.{encode_key, encode_keys, json_keys, decimal, options_to_params}
use couchdb.Tests.Requests.{bare_request, keyed}

abbrev session : Bytes
session = str "AuthSession"

-- a jar that drops what is set with an expiry in the past, and holds one cookie at most
abbrev keep : List Cookie → List Cookie → List Cookie
keep [] jar = jar
keep (c ∷ cs) jar = []

abbrev held : List Cookie → List Cookie
held jar = jar

abbrev refuse : CookieRequest → State ℕ (List Cookie) → Result ℕ × State ℕ (List Cookie)
refuse req s = (ok 401, s)

abbrev grant : State ℕ (List Cookie) → Err × State ℕ (List Cookie)
grant s = (none, record s { jar = record { name = session; value = str "v"; expires = none } ∷ [] })

abbrev plain_request : CookieRequest
plain_request = record { cookies = []; in_progress = false }

abbrev fresh_state : State ℕ (List Cookie)
fresh_state = record { world = 0; jar = [] }

-- a session that has half a minute left, in a jar that the transport leaves alone
abbrev short_cookie : Cookie
short_cookie = record { name = session; value = str "v"; expires = some 40 }

abbrev in_session : State ℕ (List Cookie)
in_session = record { world = 0; jar = short_cookie ∷ [] }

abbrev accept : CookieRequest → State ℕ (List Cookie) → Result ℕ × State ℕ (List Cookie)
accept req s = (ok 200, record s { world = length req.cookies })

refused_once :
    (round_trip session held grant 7 refuse keep (λ t. 0) plain_request fresh_state).0 ≡ ok 401
unfolding round_trip authenticate should_auth session_cookie find_cookie equal
refused_once = refl

keep_forgets :
    (jar : List Cookie) (c : Cookie)
    → find_cookie session (held jar) ≡ some c
    → find_cookie session (held (keep (record c { expires = some 0 } ∷ []) jar)) ≡ none
unfolding find_cookie
keep_forgets jar c h = refl

bare_again : is_bare session held plain_request ≡ true
unfolding find_cookie
bare_again = refl

authenticate-refused_example :
    authenticate session held grant 9 plain_request
      (round_trip session held grant 7 refuse keep (λ t. 0) plain_request fresh_state).1
    ≡ after_login session held grant 9 plain_request
        (grant (round_trip session held grant 7 refuse keep (λ t. 0) plain_request fresh_state).1)
authenticate-refused_example =
    authenticate-refused session held grant 7 refuse keep (λ t. 0) plain_request plain_request
      fresh_state 9 keep_forgets refused_once bare_again

-- a URL parser that takes every text as a path
abbrev as_path : Bytes → Result Url
as_path s = ok (record { host = []; user = some (str "bob", str "pw"); path = s; query = [] })

abbrev root_url : Url
root_url = record { host = str "http://h"; user = none; path = str "/"; query = [] }

abbrev client : Client
client = record {
  user_agents = [];
  transport = none;
  raw_dsn = str "http://h/";
  dsn = root_url;
  base_path = [];
  auth = none;
  no_gzip = false;
}

abbrev host_and_path : Url → Bytes
host_and_path u = u.host ++ u.path

abbrev make_request : Bytes → Bytes → Result Request
make_request method target = ok (record bare_request { method = method })

abbrev parse_path : Bytes → Result Url
parse_path s = ok (record root_url { path = s })

parses :
    parse_path (client_path client.base_path (str "db/doc?rev=1"))
    ≡ ok (record root_url { path = str "db/doc?rev=1" })
unfolding client_path
parses = refl

prepare_lem_example :
    (req : Request) × (prepare
        (str "agent")
        parse_path
        host_and_path
        make_request
        client
        (str "PUT")
        (str "db/doc?rev=1")
        (some keyed)
        (some (ok (str "{}")))
      ≡ ok req)
    × (req.raw_path ≡ str "/" ++ trim_prefix (before_query (str "db/doc?rev=1")) (str "/"))
    × (lookup encoding req.header
        ≡ or_first
            (if compressed
                (str "agent")
                parse_path
                host_and_path
                make_request
                client
                (record root_url { path = str "db/doc?rev=1" })
                true
                (some keyed)
              then some (str "gzip" ∷ [])
              else none)
            (lookup encoding (default_headers (some keyed))))
prepare_lem_example =
    prepare_lem (str "agent") parse_path host_and_path make_request client (str "PUT")
      (str "db/doc?rev=1") (str "{}") (some keyed) (record root_url { path = str "db/doc?rev=1" })
      (record bare_request { method = str "PUT" }) refl parses refl refl

abbrev marshal : Any → Result Bytes
marshal v = ok (str "[]")

abbrev first_path : List Bytes → Bytes
first_path [] = []
first_path (p ∷ ps) = p

abbrev key_options : OptionMap
key_options = (str "keys", bool true) ∷ []

abbrev keys_call : RowsCall
keys_call = record {
  path = str "_all_docs";
  payload = (str "keys", bool true) ∷ [];
  query = [];
  multi = false;
}

keys_called : rows_call marshal first_path (str "_all_docs") key_options ≡ ok keys_call
unfolding rows_call lookup delete equal options_to_params
keys_called = refl

encode_design : encode_doc_id (str "_design/foo bar/b+z") ≡ str "_design/foo%20bar%2Fb%2Bz"
unfolding encode_doc_id
encode_design = refl

decimal_minus : decimal (negsuc 41) ≡ str "-42"
unfolding decimal
decimal_minus = refl

keys_encoded : (encode_keys marshal key_options).0 ≡ ok tt
unfolding encode_keys lookup equal encode_key insert
keys_encoded = refl

lookup-encode_keys_example :
    wrapped marshal (lookup (str "keys") (encode_keys marshal key_options).1)
    ≡ encoding_of marshal (is_in (str "keys") json_keys) (lookup (str "keys") key_options)
lookup-encode_keys_example = lookup-encode_keys marshal key_options (str "keys") keys_encoded

-- ===== src/Chttp/Send.antt =====
-- chttp/chttp.go: how `Client` makes a request of a call and sends it: NewRequest,
-- shouldCompressBody, DoReq and DoError. Parameters stand for net/url (`parse_url`, `url_string`), for
-- http.NewRequest, for `http.Client.Do`, for kivik.HTTPStatus, for mime.ParseMediaType and for the
-- text that userAgent makes of the Go runtime. Its trace callbacks are in Chttp/Trace.
pub mod Prepared
use couchdb.Common.{
  ℕ, Bytes, str, is_empty, equal, Bool, true, false, ◌||◌, List, [], ◌∷◌, ◌++◌, Option, none, some,
  if◌then◌else◌,
}
use couchdb.Errors.{
  Error, message, kivik, full_error, status_bad_request, bad_gateway, Err, Result, ok, err, ◌>>=◌,
}
use couchdb.Json.{Raw, Decoder}
use couchdb.Json.Into.{decode_into}
use couchdb.Chttp.Options.{Options}
use couchdb.Chttp.Headers.{
  Request, Header, add_header, set_headers, set_query, fix_path, client_path,
}
use couchdb.Chttp.Response.{Response, response_error, net_error}
use couchdb.Chttp.Client.{Url, Client}

-- userAgent
unfoldable pub join_words : Bytes → List Bytes → Bytes
join_words s [] = s
join_words s (w ∷ ws) = join_words (s ++ (str " " ++ w)) ws

abbrev pub opts_no_gzip : Option Options → Bool
opts_no_gzip none = false
opts_no_gzip (some o) = o.no_gzip

abbrev pub method_required : Error
method_required = message (str "chttp: method required")

-- the first two headers of a request
abbrev pub add_first : Bytes → Client → Bool → Request → Request
add_first runtime_agent c compress req = record req {
  header = add_header (str "User-Agent") (join_words runtime_agent c.user_agents) (
      if compress then add_header (str "Content-Encoding") (str "gzip") req.header else req.header);
}

-- fixPath, setHeaders and setQuery
abbrev pub finished : Bytes → Option Options → Request → Request
finished path opts req = set_query (set_headers (fix_path req path) opts) opts

module _ (runtime_agent : Bytes) (parse_url : Bytes → Result Url) (url_string : Url → Bytes)
    (http_request : Bytes → Bytes → Result Request) where
  -- fullPathMatches
  abbrev pub same_url : Client → Bytes → Result Url → Bool
  same_url c target (err e) = false
  same_url c target (ok p) =
      equal (url_string (record c.dsn { path = client_path c.base_path target; query = [] }))
        (url_string (record p { query = [] }))

  unfoldable pub full_path_matches : Client → Bytes → Bytes → Bool
  unfolding client_path equal
  full_path_matches c path target = same_url c target (parse_url path)

  -- shouldCompressBody
  unfoldable pub should_compress : Client → Bytes → Bool → Option Options → Bool
  unfolding full_path_matches
  should_compress c path has_body opts =
      if c.no_gzip || opts_no_gzip opts
      then false
      else if full_path_matches c path (str "/_session")
      then false
      else has_body

  -- NewRequest
  abbrev pub started : Client → Bool → Result Request → Result Request
  started c compress (err e) = err (kivik status_bad_request e)
  started c compress (ok req) = ok (add_first runtime_agent c compress req)

  abbrev pub at_url : Client → Url → Url
  at_url c u = record c.dsn { path = u.path; query = u.query }

  abbrev pub request_at : Client → Bytes → Bool → Option Options → Result Url → Result Request
  request_at c method has_body opts (err e) = err (full_error status_bad_request e)
  request_at c method has_body opts (ok u) =
      started c (should_compress c (url_string (at_url c u)) has_body opts)
        (http_request method (url_string (at_url c u)))

  unfoldable pub new_request : Client → Bytes → Bytes → Bool → Option Options → Result Request
  unfolding full_error should_compress join_words client_path
  new_request c method path has_body opts =
      request_at c method has_body opts (parse_url (client_path c.base_path path))

  -- The part of DoReq before the request is sent. `body` is what GetBody returns, none where there
  -- is no body.
  abbrev pub with_body : Option (Result Bytes) → (Bool → Result Request) → Result Request
  with_body none k = k false
  with_body (some (err e)) k = err e
  with_body (some (ok b)) k = k true

  unfoldable pub prepare :
      Client → Bytes → Bytes → Option Options → Option (Result Bytes) → Result Request
  unfolding new_request fix_path set_headers set_query
  prepare c method path opts body =
      if is_empty method
      then err method_required
      else with_body body (λ has_body.
        new_request c method path has_body opts >>= (λ req. ok (finished path opts req)))

  module _ {World : Type 0} (perform : Request → World → Result Response × World)
      (http_status : Error → ℕ) (media_type : Bytes → Bytes) where
    -- DoReq
    abbrev pub as_net_error : Result Response × World → Result Response × World
    as_net_error (ok r, w) = (ok r, w)
    as_net_error (err e, w) =
        (elim (net_error http_status (some e)) [ none ↦ err e | some x ↦ err x ], w)

    abbrev pub sent : World → Result Request → Result Response × World
    sent w (err e) = (err e, w)
    sent w (ok req) = as_net_error (perform req w)

    unfoldable pub do_req :
        Client
        → Bytes
        → Bytes
        → Option Options
        → Option (Result Bytes)
        → World
        → Result Response × World
    unfolding prepare net_error
    do_req c method path opts body w = sent w (prepare c method path opts body)

    -- DoError
    abbrev pub checked : Result Response × World → Err × World
    checked (err e, w) = (some e, w)
    checked (ok r, w) = (response_error media_type r, w)

    unfoldable pub do_error :
        Client → Bytes → Bytes → Option Options → Option (Result Bytes) → World → Err × World
    unfolding do_req response_error
    do_error c method path opts body w = checked (do_req c method path opts body w)

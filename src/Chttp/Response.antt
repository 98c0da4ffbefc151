-- ===== src/Chttp/Response.antt =====
-- chttp/errors.go and the readers of a response in chttp/chttp.go: ResponseError, netError, ETag,
-- GetRev, extractRev and readRev. Two functions of other packages are parameters: `media_type`, the
-- first result of mime.ParseMediaType, and `http_status`, kivik.HTTPStatus.
pub mod Ends
pub mod Rev
pub mod Status
use couchdb.Common.{
  ℕ, zero, suc, ltb, ◌==◌, Bytes, str, equal, trim, Bool, true, false, ◌&&◌, not, List, [], ◌∷◌,
  Option, none, some, length, if◌then◌else◌,
}
use couchdb.Common.Int.{ℤ}
use couchdb.Common.Assoc.{Assoc, lookup}
use couchdb.Errors.{
  open_obj, Error, message, stuck, panic, kivik, http, curl, url, full_error,
  status_internal_server_error, status_bad_gateway, Err, Result, ok, err,
}
use couchdb.Json.{Raw, Token, delim_token, string_token, literal_token, Decoder}
use couchdb.Json.Read.{more, token, decode}
use couchdb.Json.Into.{member, into_string, into_raw, decode_into}
use couchdb.Chttp.Headers.{Header, first_value, values, type_json, is_zero}

-- *http.Response: `request` is the method of its request, if it has one, and `body` the decoder
-- over its body, none where the body is nil.
pub record Response : Type 0 where
  pub status : ℕ
  pub header : Header
  pub content_length : ℤ
  pub request : Option Bytes
  pub body : Option Decoder

abbrev pub is_request_but_head : Option Bytes → Bool
is_request_but_head none = false
is_request_but_head (some method) = not (equal method (str "HEAD"))

-- the reason in a JSON error body; what cannot be decoded leaves it empty
abbrev pub reason_of : Result Raw → Bytes
reason_of (err e) = []
reason_of (ok raw) = elim (member (str "reason") raw) [ none ↦ [] | some v ↦ (into_string v []).1 ]

abbrev pub body_reason : Option Decoder → Result Bytes
body_reason none = err panic
body_reason (some d) = ok (reason_of (decode d).0)

abbrev pub http_error : ℕ → Result Bytes → Error
http_error status (ok reason) = http status reason
http_error status (err e) = e

module _ (media_type : Bytes → Bytes) where
  -- ResponseError
  unfoldable pub response_error : Response → Err
  unfolding equal member into_string
  response_error r =
      if ltb r.status 400
      then none
      else if is_request_but_head r.request
          && (not (is_zero r.content_length)
              && equal (media_type (first_value (values (lookup (str "Content-Type") r.header))))
                  type_json)
      then some (http_error r.status (body_reason r.body))
      else some (http r.status [])

-- ETag
abbrev pub etag_key : Option (List Bytes) → Header → Option (List Bytes)
etag_key (some vs) h = some vs
etag_key none h = lookup (str "ETag") h

unfoldable pub etag : Response → Option Bytes
unfolding trim
etag r = elim (etag_key (lookup (str "Etag") r.header) r.header) [
  | none ↦ none
  | some vs ↦ some (trim b'"' (first_value vs))
]

-- readRev: the loop over the tokens, on fuel
abbrev pub rev_value : Result Token × Decoder → Result Bytes
rev_value (err e, d) = err e
rev_value (ok (string_token v), d) = ok v
rev_value (ok t, d) = err (message (str "found another token in place of _rev value"))

abbrev pub is_rev : Token → Bool
is_rev (string_token s) = equal s (str "_rev")
is_rev t = false

abbrev pub rev_if : Bool → (Decoder → Result Bytes) → Decoder → Result Bytes
rev_if true k d = rev_value (token d)
rev_if false k d = k d

-- one round of the loop, by the outcome of its token
abbrev pub rev_round : (Decoder → Result Bytes) → Result Token × Decoder → Result Bytes
rev_round k (err e, d) = err e
rev_round k (ok tk, d) = rev_if (is_rev tk) k d

unfoldable pub rev_loop : ℕ → Decoder → Result Bytes
unfolding more token
rev_loop zero d = err stuck
rev_loop (suc f) d = elim (more d.input) [
  | false ↦ err (message (str "_rev key not found in response body"))
  | true ↦ rev_round (rev_loop f) (token d)
]

-- what readRev makes of the first token
abbrev pub rev_from : Result Token × Decoder → Result Bytes
rev_from (err e, d) = err e
rev_from (ok (delim_token open_obj), d) = rev_loop (suc (length d.input)) d
rev_from (ok t, d) = err (message (str "Expected '{' token"))

unfoldable pub read_rev : Decoder → Result Bytes
unfolding rev_loop token
read_rev d = rev_from (token d)

-- extractRev; afterwards the body reads from its start again
abbrev pub undetermined : Result Bytes → Result Bytes
undetermined (ok rev) = ok rev
undetermined (err e) = err (message (str "unable to determine document revision"))

abbrev pub rev_of_body : Option Decoder → Result Bytes
rev_of_body none = err panic
rev_of_body (some d) = undetermined (read_rev d)

unfoldable pub extract_rev : Response → Result Bytes
unfolding read_rev equal
extract_rev r =
    if is_request_but_head r.request
    then rev_of_body r.body
    else err (message (str "unable to determine document revision"))

-- GetRev
unfoldable pub get_rev : (Bytes → Bytes) → Response → Result Bytes
unfolding response_error etag extract_rev
get_rev media_type r = elim (response_error media_type r) [
  | some e ↦ err e
  | none ↦ elim (etag r) [ some rev ↦ ok rev | none ↦ extract_rev r ]
]

-- netError
abbrev pub not_internal : ℕ → ℕ
not_internal status = if status == status_internal_server_error then status_bad_gateway else status

unfoldable pub net_error : (Error → ℕ) → Err → Err
unfolding full_error
net_error http_status none = none
net_error http_status (some (url e)) = some (full_error (not_internal (http_status e)) (url e))
net_error http_status (some e) =
    if http_status e == status_internal_server_error
    then some (full_error status_bad_gateway e)
    else some e

-- ===== src/Errors.antt =====
-- Error values: errors.go, `HTTPError` and `curlError` of chttp/errors.go, `unexpectedDelim` of
-- iter.go, and the errors that the driver takes from `io`, `net/url`, `encoding/json`, `context` and
-- kivik. A formatted message is kept as its text without the formatted values.
use couchdb.Common.{ℕ, Bytes, str, ◌++◌, Option, none, some}

-- json.Delim
pub data Delim : Type 0 where
  open_obj close_obj open_arr close_arr : Delim

pub data Error : Type 0 where
  eof unexpected_eof syntax unmarshal_type canceled end_of_query : Error
  message : Bytes → Error
  -- no error of the program: a loop of the model that ran out of fuel
  stuck : Error
  -- no error value: the call does not return, it panics
  panic : Error
  -- *BulkGetError with ID, Rev, Err and Reason
  bulk_get : (id rev kind reason : Bytes) → Error
  -- an error of a reader, of the network or of a file, by number
  failure : ℕ → Error
  unexpected_delim : Delim → Error
  -- &kivik.Error{Status, Err}, *HTTPError, *curlError, *url.Error
  kivik : ℕ → Error → Error
  http : ℕ → Bytes → Error
  curl : ℕ → Error → Error
  url : Error → Error
  -- *replicationError
  replication : ℕ → Bytes → Error

-- A call that returns a value and an error returns exactly one of them.
pub data Result {ℓ} (A : Type ℓ) : Type ℓ where
  ok : A → Result A
  err : Error → Result A

infixl 5 ◌>>=◌ ◌>>◌
abbrev pub ◌>>=◌ {ℓ κ} : {A : Type ℓ} {B : Type κ} → Result A → (A → Result B) → Result B
ok a >>= f = f a
err e >>= f = err e

abbrev pub ◌>>◌ {ℓ κ} : {A : Type ℓ} {B : Type κ} → Result A → Result B → Result B
m >> k = m >>= λ _. k

-- an error value that may be nil
abbrev pub Err : Type 0
Err = Option Error

abbrev pub status_ok : ℕ
status_ok = 200

abbrev pub status_created : ℕ
status_created = 201

abbrev pub status_bad_request : ℕ
status_bad_request = 400

abbrev pub status_unauthorized : ℕ
status_unauthorized = 401

abbrev pub status_not_found : ℕ
status_not_found = 404

abbrev pub status_request_timeout : ℕ
status_request_timeout = 408

abbrev pub status_conflict : ℕ
status_conflict = 409

abbrev pub status_expectation_failed : ℕ
status_expectation_failed = 417

abbrev pub status_internal_server_error : ℕ
status_internal_server_error = 500

abbrev pub status_bad_gateway : ℕ
status_bad_gateway = 502

-- errors.go
unfoldable pub missing_arg : Bytes → Error
missing_arg arg = kivik status_bad_request (message (str "kivik: " ++ arg ++ str " required"))

-- `&kivik.Error{Status: http.StatusBadGateway, Err: err}`
abbrev pub bad_gateway : Error → Error
bad_gateway e = kivik status_bad_gateway e

-- fullError
unfoldable pub full_error : ℕ → Error → Error
full_error status e = curl status e

-- `if err != nil { return err }` behind a call that changes the state `S`
abbrev pub and_then {ℓ} : {S : Type ℓ} → Err × S → (S → Err × S) → Err × S
and_then (some e, s) k = (some e, s)
and_then (none, s) k = k s

-- the methods HTTPStatus() of unexpectedDelim, *HTTPError, *curlError and *replicationError
unfoldable pub status_method : Error → Option ℕ
status_method (unexpected_delim d) = some status_bad_gateway
status_method (http status reason) = some status
status_method (curl status e) = some status
status_method (replication status reason) = some status
status_method e = none

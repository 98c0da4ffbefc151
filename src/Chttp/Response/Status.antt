-- ===== src/Chttp/Response/Status.antt =====
-- The status codes that the errors of the HTTP layer carry.
use couchdb.Common.{ℕ, none, some, ◌≡◌, ◌≢◌, arith}
use couchdb.Errors.{Error, Err, curl, url}
use couchdb.Chttp.Response.{net_error}

-- the status of an error, and 0 for nil
abbrev pub reported : (Error → ℕ) → Err → ℕ
reported http_status none = 0
reported http_status (some e) = http_status e

net_error-url :
    (http_status : Error → ℕ) (e : Error)
    → ((status : ℕ) (cause : Error) → http_status (curl status cause) ≡ status)
    → (net_error http_status (some (url e)) ≢ none)
      × (reported http_status (net_error http_status (some (url e))) ≢ 500)
unfolding net_error
net_error-url http_status e law =
    (λ h. cc, λ h. ground (arith, law 502 (url e), law (http_status e) (url e)))

-- For any error, netError returns an error, and one that does not count as status 500, the
-- server's own; the assumption is that kivik.HTTPStatus reads the status of a curlError.
pub net_error-ne-internal :
    (http_status : Error → ℕ) (e : Error)
    → ((status : ℕ) (cause : Error) → http_status (curl status cause) ≡ status)
    → (net_error http_status (some e) ≢ none)
      × (reported http_status (net_error http_status (some e)) ≢ 500)
unfolding net_error
net_error-ne-internal http_status (url e) law = net_error-url http_status e law
net_error-ne-internal http_status e law = (λ h. ground arith, λ h. ground (arith, law 502 e))

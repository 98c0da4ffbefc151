-- ===== src/Driver/Composed.antt =====
-- The methods over the HTTP client: what of their requests reaches the network.
use couchdb.Common.{ℕ, Bytes, str, ◌++◌, trim_prefix, ◌≡◌, ◌⊎◌, inl, inr, refl, sym, subst}
use couchdb.Errors.{Error, Result, ok, err}
use couchdb.Json.{Raw}
use couchdb.Chttp.Headers.{Request, before_query}
use couchdb.Chttp.Response.{Response}
use couchdb.Chttp.Client.{Url, Client}
use couchdb.Chttp.Send.{prepare, do_req, sent, as_net_error}
use couchdb.Chttp.Send.Prepared.{prepare-path}
use couchdb.Wire.{Payload, Call, Net, M}
use couchdb.Wire.Sends.{Sent}
use couchdb.Server.Stats.{DbStats}
use couchdb.Methods.{DbMethod, ServerMethod, call_db, call_server}
use couchdb.Methods.Once.{call_db-SendsOnce, call_server-SendsOnce}
use couchdb.Driver.{body_of, send, through_client}

-- a method of one call on a database, by its escaped name, or on the server
pub data Method : Type 0 where
  on_db : Bytes → DbMethod → Method
  on_server : ServerMethod → Method

module _ (runtime_agent : Bytes) (parse_url : Bytes → Result Url) (url_string : Url → Bytes)
    (http_request : Bytes → Bytes → Result Request) {World : Type 0}
    (perform : Payload → Request → World → Result Response × World) (http_status : Error → ℕ)
    (media_type : Bytes → Bytes) (c : Client) where
  -- the world is as before, or as one HTTP request leaves it that the client prepared for a call
  abbrev pub Performed : World → World → Type 0
  Performed w w' =
      (w' ≡ w)
      ⊎ ((call : Call) × (req : Request) × (prepare runtime_agent parse_url url_string http_request
              c call.method call.path call.opts (body_of call.payload)
            ≡ ok req)
          × (req.raw_path ≡ str "/" ++ trim_prefix (before_query call.path) (str "/"))
          × (w' ≡ (perform call.payload req w).1))

  as_net_error-world :
      (call : Call) (x : Result Response × World)
      → (as_net_error runtime_agent parse_url url_string http_request
          (perform call.payload)
          http_status
          media_type
          x).1
        ≡ x.1
  as_net_error-world call (ok r, w) = refl
  as_net_error-world call (err e, w) = refl

  sent-Performed :
      (call : Call) (w : World) (r : Result Request)
      → prepare runtime_agent parse_url url_string http_request c call.method call.path call.opts
          (body_of call.payload)
        ≡ r
      → Performed w
          (sent runtime_agent parse_url url_string http_request
            (perform call.payload)
            http_status
            media_type
            w
            r).1
  sent-Performed call w (err e) h = inl refl
  sent-Performed call w (ok req) h = inr (
    call,
    req,
    h,
    prepare-path runtime_agent parse_url url_string http_request c call.method call.path call.opts
        (body_of call.payload) req h,
    as_net_error-world call (perform call.payload req w),
  )

  send-Performed :
      (call : Call) (w : World)
      → Performed w
          (send runtime_agent parse_url url_string http_request perform http_status media_type c
            call w).1
  unfolding send do_req
  send-Performed call w = sent-Performed call w _ refl

  abbrev pub over : Net World → Net World
  over n =
      through_client runtime_agent parse_url url_string http_request perform http_status media_type
        c n

  Sent-Performed : (n : Net World) (w w' : World) → Sent (over n) w w' → Performed w w'
  Sent-Performed n w w' (inl same) = inl same
  Sent-Performed n w w' (inr (call, eq)) = subst (Performed w) (sym eq) (send-Performed call w)

  unfoldable pub run : Net World → (Raw → Result DbStats) → Method → M World (Unit {0})
  unfolding call_db call_server
  run n base_stats (on_db db m) = call_db (over n) base_stats db m
  run n base_stats (on_server m) = call_server (over n) base_stats m

  -- Whatever the arguments and the answer: each of the listed methods on a database (the constructors
  -- of DbMethod) or on the server (those of ServerMethod) changes the world outside either not at all,
  -- or as the transport does with one HTTP request, which the client has prepared for the method, the
  -- path, the options and the body of one call, and whose raw path is that of the call up to the first
  -- "?", behind one slash. The methods on replications, which send several requests, are not listed.
  pub run-Performed :
      (n : Net World) (base_stats : Raw → Result DbStats) (m : Method) (w : World)
      → Performed w (run n base_stats m w).1
  unfolding run
  run-Performed n base_stats (on_db db m) w =
      Sent-Performed n w _ (call_db-SendsOnce (over n) base_stats db m w)
  run-Performed n base_stats (on_server m) w =
      Sent-Performed n w _ (call_server-SendsOnce (over n) base_stats m w)

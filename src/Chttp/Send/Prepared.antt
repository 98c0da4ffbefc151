-- ===== src/Chttp/Send/Prepared.antt =====
-- The request that DoReq sends.
use couchdb.Common.{
  Bytes, str, is_empty, equal, trim_prefix, Bool, true, false, [], ◌∷◌, ◌++◌, Option, none, some,
  if◌then◌else◌, ◌≡◌, refl, sym, ap, ◌∙◌, arith,
}
use couchdb.Common.Assoc.{lookup, insert}
use couchdb.Errors.{Result, ok, err, ◌>>=◌}
use couchdb.Chttp.Options.{Options}
use couchdb.Chttp.Headers.{Request, set_headers, set_query, fix_path, client_path, before_query}
use couchdb.Chttp.Headers.Sent.{
  Untouched, lookup-add_header, lookup-set_headers, default_headers, or_first,
}
use couchdb.Chttp.Client.{Url, Client}
use couchdb.Chttp.Send.{
  should_compress, new_request, at_url, add_first, finished, prepare, with_body,
}

set_query-keeps :
    (req : Request) (opts : Option Options)
    → ((set_query req opts).header ≡ req.header) × ((set_query req opts).raw_path ≡ req.raw_path)
unfolding set_query
set_query-keeps req none = (refl, refl)
set_query-keeps req (some o) = ground arith

set_headers-path :
    (req : Request) (opts : Option Options) → (set_headers req opts).raw_path ≡ req.raw_path
unfolding set_headers
set_headers-path req none = refl
set_headers-path req (some o) = refl

finished_lem :
    (path k : Bytes) (opts : Option Options) (req : Request)
    → Untouched k
    → ((finished path opts req).raw_path ≡ str "/" ++ trim_prefix (before_query path) (str "/"))
      × (lookup k (finished path opts req).header
          ≡ or_first (lookup k req.header) (lookup k (default_headers opts)))
finished_lem path k opts req free =
    let fixed = fix_path req path in
    let with_headers = set_headers fixed opts in
    (
      (set_query-keeps with_headers opts).1
          ∙ (set_headers-path fixed opts ∙ (unfold fix_path in refl)),
      ap (lookup k) (set_query-keeps with_headers opts).0
          ∙ (lookup-set_headers fixed opts k free ∙ (unfold fix_path in refl)),
    )

abbrev pub encoding : Bytes
encoding = str "Content-Encoding"

encoding_free : Untouched encoding
unfolding equal
encoding_free = (refl, refl, refl, refl)

agent_ne : equal (str "User-Agent") encoding ≡ false
unfolding equal
agent_ne = refl

first_encoding :
    (agent : Bytes) (c : Client) (compress : Bool) (req : Request)
    → req.header ≡ []
    → lookup encoding (add_first agent c compress req).header
      ≡ (if compress then some (str "gzip" ∷ []) else none)
first_encoding agent c true req h =
    lookup-add_header (str "User-Agent") encoding _ _ agent_ne
    ∙ rw h (unfold lookup insert equal in refl)
first_encoding agent c false req h =
    lookup-add_header (str "User-Agent") encoding _ _ agent_ne ∙ rw h (unfold lookup in refl)

module _ (agent : Bytes) (parse_url : Bytes → Result Url) (url_string : Url → Bytes)
    (http_request : Bytes → Bytes → Result Request) where
  abbrev pub compressed : Client → Url → Bool → Option Options → Bool
  compressed c u has_body opts =
      should_compress agent parse_url url_string http_request c
        (url_string (at_url agent parse_url url_string http_request c u)) has_body opts

  -- A call with a method and a body, whose path and whose request net/url and net/http accept, makes
  -- a request: its raw path is the path of the call up to the first "?", behind one slash; its
  -- Content-Encoding is gzip where the body is to be compressed, and otherwise what the default
  -- headers of the options say.
  pub prepare_lem :
      (c : Client) (method path body : Bytes) (opts : Option Options) (u : Url) (raw : Request)
      → is_empty method ≡ false
      → parse_url (client_path c.base_path path) ≡ ok u
      → http_request method (url_string (at_url agent parse_url url_string http_request c u))
        ≡ ok raw
      → raw.header ≡ []
      → (req : Request) × (prepare agent parse_url url_string http_request c method path opts
            (some (ok body))
          ≡ ok req)
        × (req.raw_path ≡ str "/" ++ trim_prefix (before_query path) (str "/"))
        × (lookup encoding req.header
            ≡ or_first
                (if compressed c u true opts then some (str "gzip" ∷ []) else none)
                (lookup encoding (default_headers opts)))
  prepare_lem c method path body opts u raw named parses made bare =
      let first = add_first agent c (compressed c u true opts) raw in
      let shape = finished_lem path encoding opts first encoding_free in
      (
        finished path opts first,
        (unfold prepare new_request in rw (named, parses, made) refl),
        shape.0,
        shape.1
            ∙ ap (λ q. or_first q (lookup encoding (default_headers opts)))
                (first_encoding agent c (compressed c u true opts) raw bare),
      )

  finished-path :
      (path : Bytes) (opts : Option Options) (req : Request)
      → (finished path opts req).raw_path ≡ str "/" ++ trim_prefix (before_query path) (str "/")
  finished-path path opts req = (finished_lem path encoding opts req encoding_free).0

  abbrev path_of : Result Request → Bytes
  path_of (ok req) = req.raw_path
  path_of (err e) = []

  -- every request that is made has the path of its call
  made-path :
      (path : Bytes) (opts : Option Options) (r : Result Request) (req : Request)
      → (r >>= (λ q. ok (finished path opts q))) ≡ ok req
      → req.raw_path ≡ str "/" ++ trim_prefix (before_query path) (str "/")
  made-path path opts (ok q) req h = ap path_of (sym h) ∙ finished-path path opts q
  made-path path opts (err e) req h = ground arith

  with_body-path :
      (path : Bytes) (opts : Option Options) (body : Option (Result Bytes))
      (k : Bool → Result Request) (req : Request)
      → with_body agent parse_url url_string http_request body
          (λ b. k b >>= (λ q. ok (finished path opts q)))
        ≡ ok req
      → req.raw_path ≡ str "/" ++ trim_prefix (before_query path) (str "/")
  with_body-path path opts none k req h = made-path path opts (k false) req h
  with_body-path path opts (some (ok b)) k req h = made-path path opts (k true) req h
  with_body-path path opts (some (err e)) k req h = ground arith

  pub prepare-path :
      (c : Client) (method path : Bytes) (opts : Option Options) (body : Option (Result Bytes))
      (req : Request)
      → prepare agent parse_url url_string http_request c method path opts body ≡ ok req
      → req.raw_path ≡ str "/" ++ trim_prefix (before_query path) (str "/")
  unfolding prepare
  prepare-path c [] path opts body req h = ground arith
  prepare-path c (m ∷ method) path opts body req h =
      with_body-path path opts body
        (λ b. new_request agent parse_url url_string http_request c (m ∷ method) path b opts) req h

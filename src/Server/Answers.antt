-- ===== src/Server/Answers.antt =====
-- What DBExists and Ping make of the status of an answer.
use couchdb.Common.{
  ℕ, Bytes, str, ltb, equal, has_prefix, ◌==◌, Bool, true, false, [], ◌∷◌, none, some, ◌≡◌, refl,
  arith, if◌then◌else◌,
}
use couchdb.Errors.{http, Result, ok, err}
use couchdb.Chttp.Response.{Response, response_error}
use couchdb.Documents.{header_value}
use couchdb.Wire.{Net, ask, do_error}
use couchdb.Server.{bare, db_exists, ping}

-- the status alone decides; any other status of an error is handed on in that error
abbrev pub exists_by : ℕ → Result Bool
exists_by status =
    if ltb status 400 then ok true else if status == 404 then ok false else err (http status [])

-- status 400 is that of a server before 2.0, if its header says so
abbrev pub up_by : ℕ → Bytes → Result Bool
up_by status server =
    if ltb status 400
    then ok true
    else if status == 400
    then ok (has_prefix server (str "CouchDB/1."))
    else if status == 404
    then ok false
    else err (http status [])

head_error :
    (media_type : Bytes → Bytes) (r : Response)
    → r.request ≡ some (str "HEAD")
    → response_error media_type r ≡ (if ltb r.status 400 then none else some (http r.status []))
unfolding response_error equal
head_error media_type r h = rw h refl

module _ {World : Type 0} (n : Net World)
    (law : (status : ℕ) (reason : Bytes) → n.http_status (http status reason) ≡ status) where
  pub db_exists-answer :
      (c : ℕ) (name : Bytes) (w w' : World) (r : Response)
      → n.request (bare (str "HEAD") (c ∷ name)) w ≡ (ok r, w')
      → r.request ≡ some (str "HEAD")
      → db_exists n (c ∷ name) w ≡ (exists_by r.status, w')
  unfolding db_exists do_error ask
  db_exists-answer c name w w' r hr head =
      rw (hr, head_error n.media_type r head) (ground (arith, law r.status []))

  pub ping-answer :
      (w w' : World) (r : Response)
      → n.request (bare (str "HEAD") (str "/_up")) w ≡ (ok r, w')
      → r.request ≡ some (str "HEAD")
      → ping n w ≡ (up_by r.status (header_value (str "Server") r), w')
  unfolding ping
  ping-answer w w' r hr head =
      rw (hr, head_error n.media_type r head) (ground (arith, law r.status []))

-- What a server answers to the two probes: DBExists gives true below status 400, false at 404, and
-- otherwise an error with the status; Ping does the same, but gives whether the Server header
-- begins with "CouchDB/1." at 400. The name is not empty, the requests are answered, with the method
-- HEAD on the response, and kivik.HTTPStatus reads the status of an HTTPError.
pub probes_lem :
    {World : Type 0} (n : Net World) (c : ℕ) (name : Bytes) (w w' v : World) (exists up : Response)
    → ((status : ℕ) (reason : Bytes) → n.http_status (http status reason) ≡ status)
    → n.request (bare (str "HEAD") (c ∷ name)) w ≡ (ok exists, w')
    → exists.request ≡ some (str "HEAD")
    → n.request (bare (str "HEAD") (str "/_up")) w ≡ (ok up, v)
    → up.request ≡ some (str "HEAD")
    → (db_exists n (c ∷ name) w ≡ (exists_by exists.status, w'))
      × (ping n w ≡ (up_by up.status (header_value (str "Server") up), v))
probes_lem n c name w w' v exists up law he re hu ru =
    (db_exists-answer n law c name w w' exists he re, ping-answer n law w v up hu ru)

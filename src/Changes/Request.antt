-- ===== src/Changes/Request.antt =====
-- changes.go: the request of Changes, and what the iterator over its answer is made from.
use couchdb.Common.{Bytes, str, [], ◌∷◌}
use couchdb.Chttp.Options.{OptionMap, no_options}
use couchdb.Chttp.Response.{Response, etag}
use couchdb.Params.{options_to_params}
use couchdb.Wire.{Net, M, pure, lift, ◌>>=◌, ask, db_path}
use couchdb.Documents.{plain}
use couchdb.Documents.Get.{rev_or_empty}
use couchdb.Changes.{feed_key}

-- the arguments of newChangesRows; the reader is the body of the response
pub record Feed : Type 0 where
  pub key : Bytes
  pub response : Response
  pub etag : Bytes

module _ {World : Type 0} (n : Net World) (db_name : Bytes) where
  unfoldable pub changes : OptionMap → M World Feed
  unfolding feed_key options_to_params db_path ask etag
  changes opts = do
    key ← lift (feed_key opts)
    query ← lift (options_to_params n.marshal (opts ∷ [])).0
    path ← lift (db_path n db_name (str "_changes"))
    r ← ask n (plain (str "GET") path (record no_options { query = query }))
    pure (record { key = key; response = r; etag = rev_or_empty (etag r) })

-- ===== src/Replication/Calls/Deleted.antt =====
-- The two requests of Delete.
use couchdb.Common.{ℕ, Bytes, str, equal, [], ◌∷◌, ◌≡◌, refl, ap}
use couchdb.Common.Assoc.{lookup, insert}
use couchdb.Errors.{missing_arg, Result, ok, err}
use couchdb.Chttp.DocId.{encode_doc_id}
use couchdb.Chttp.Options.{text, Options, no_options}
use couchdb.Chttp.Response.{get_rev}
use couchdb.Wire.{Net, and_go, pure, db_path}
use couchdb.Documents.{plain, rev_of, delete_doc}
use couchdb.Replication.Calls.{delete_replication}

module _ {World : Type 0} (n : Net World) (db_name : Bytes) (c : ℕ) (doc_id : Bytes) where
  abbrev pub doc : Bytes
  doc = c ∷ doc_id

  -- the options of the second request
  abbrev pub rev_options : Bytes → Options
  rev_options rev = record no_options { query = (str "rev", rev ∷ []) ∷ [] }

  delete_doc-given :
      (d : ℕ) (s : Bytes) (path : Bytes) (w : World)
      → db_path n db_name (encode_doc_id doc) ≡ ok path
      → delete_doc n db_name doc ((str "rev", text (d ∷ s)) ∷ []) w
        ≡ and_go
            (n.request (plain (str "DELETE") path (rev_options (d ∷ s))) w)
            (λ r v. (get_rev n.media_type r, v))
  unfolding delete_doc lookup insert equal
  delete_doc-given d s path w hp = rw hp refl

  -- what Delete is to do with the outcome of the first request
  abbrev pub second : Bytes → Result Bytes × World → Result (Unit {0}) × World
  second path (err e, w) = (err e, w)
  second path (ok [], w) = (err (missing_arg (str "rev")), w)
  second path (ok (d ∷ s), w) =
      and_go
        (and_go (n.request (plain (str "DELETE") path (rev_options (d ∷ s))) w)
          (λ r v. (get_rev n.media_type r, v)))
        (λ gone. pure tt)

  given_rev :
      (rev : Result Bytes) (path : Bytes) (w w' : World)
      → rev_of n db_name doc [] w ≡ (rev, w')
      → db_path n db_name (encode_doc_id doc) ≡ ok path
      → delete_replication n db_name doc w ≡ second path (rev, w')
  unfolding delete_replication delete_doc lookup equal
  given_rev (err e) path w w' h hp = rw h refl
  given_rev (ok []) path w w' h hp = rw h refl
  given_rev (ok (d ∷ s)) path w w' h hp =
      rw h (ap (λ x. and_go x (λ gone. pure tt)) (delete_doc-given d s path w' hp))

  -- Delete of a replication with an ID: where the first request gives an error instead of a revision,
  -- or no revision, there is an error and nothing more is sent; where it gives a revision, the second
  -- request deletes exactly that one, and Delete succeeds if its answer names a new revision.
  pub delete_replication-rev :
      (path : Bytes) (w : World)
      → db_path n db_name (encode_doc_id doc) ≡ ok path
      → delete_replication n db_name doc w ≡ second path (rev_of n db_name doc [] w)
  delete_replication-rev path w hp =
      given_rev (rev_of n db_name doc [] w).0 path w (rev_of n db_name doc [] w).1 refl hp

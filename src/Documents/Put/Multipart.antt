-- ===== src/Documents/Put/Multipart.antt =====
-- What Put sends for a document with attachments.
use couchdb.Common.{ℕ, Bytes, str, List, [], ◌∷◌, ◌++◌, map, none, some, ◌≡◌, refl, ap, ◌∙◌, All}
use couchdb.Common.Assoc.{Assoc, lookup}
use couchdb.Errors.{eof, ok}
use couchdb.Json.{Raw, Lexeme, Decoder, new_decoder}
use couchdb.Json.Print.{Value, obj, Fields, print}
use couchdb.Iter.Response.{Member}
use couchdb.Chttp.DocId.{encode_doc_id}
use couchdb.Chttp.Options.{Any, OptionMap, option_no_multipart_put, Options, new_options}
use couchdb.Wire.{Net, multipart, do_json, db_path, parsed_options, ◌>>?◌}
use couchdb.Documents.{created}
use couchdb.Documents.Stubs.{attachments_key}
use couchdb.Documents.Stubs.Copied.{with_member, unescaped, Other, copy_with_stubs-source}
use couchdb.Documents.Put.{
  Upload, Writer, reader_of, sized_all, sorted, stub_fields, readers, first_error, copy_all,
  related_options, create_multipart, no_failure, new_multipart, put,
}

-- the contents of the attachments, in the order of their names
abbrev pub contents : Assoc Upload → List ℕ
contents atts = map (λ x. reader_of x.1.content) (sorted atts)

module _ (wr : Writer) (v : Value) (raw : Bytes) (post : Fields) (rest : List Lexeme)
    (pre : List Member) where
  -- the stubs of attachments whose sizes are known
  abbrev pub stubs_of : Assoc Upload → Value
  stubs_of atts = obj (stub_fields wr (sorted atts))

  -- the document as it is sent
  abbrev pub body : Assoc Upload → Raw
  body atts =
      print (obj (with_member (stubs_of atts) attachments_key post (map unescaped pre))) ++ rest

  -- the document as it is given
  abbrev pub document : Decoder
  document = new_decoder (print (obj (with_member v raw post pre)) ++ rest) eof

  readers-map : (atts : Assoc Upload) → readers wr atts ≡ map (λ x. reader_of x.1.content) atts
  readers-map [] = refl
  readers-map ((name, a) ∷ atts) = ap (λ ks. reader_of a.content ∷ ks) (readers-map atts)

  -- the reader can be read to its end, and what it gives be written
  abbrev pub Copies : ℕ → Type 0
  Copies k = wr.copied k ≡ none

  copy_all-none : (ks : List ℕ) → All Copies ks → copy_all wr ks ≡ none
  unfolding copy_all
  copy_all-none [] h = refl
  copy_all-none (k ∷ ks) (hk, h) = ap (λ e. first_error e (copy_all wr ks)) hk ∙ copy_all-none ks h

  create_multipart-source :
      (atts sized : Assoc Upload)
      → All Copies (contents sized)
      → All Other pre
      → sized_all atts ≡ ok sized
      → create_multipart wr document atts ≡ ok (body sized, contents sized)
  unfolding create_multipart
  create_multipart-source atts sized hc h hs =
      rw
        (
          hs,
          copy_with_stubs-source (stubs_of sized) v raw post rest eof pre h,
          readers-map (sorted sized),
          copy_all-none (contents sized) hc,
        )
        refl

  new_multipart-source :
      (atts sized : Assoc Upload)
      → wr.temp ≡ no_failure
      → All Copies (contents sized)
      → All Other pre
      → sized_all atts ≡ ok sized
      → new_multipart wr document atts ≡ ok (body sized, contents sized)
  unfolding new_multipart
  new_multipart-source atts sized ht hc h hs =
      rw (ht, create_multipart-source atts sized hc h hs) refl

  -- A document with attachments and a member _attachments: Put makes the call whose body is the same
  -- document with the stubs of the attachments in the place of that member, the keys before it
  -- written without escapes, and then the readers of the attachments in the order of their names,
  -- with the length and the boundary of that body in the options; it returns the revision. The
  -- document ID is not empty, the options can be read and do not forbid a multipart body, the
  -- temporary file does not fail, the size of every attachment can be found, and every attachment can
  -- be read to its end.
  pub put-document :
      {World : Type 0} (n : Net World) (db_name : Bytes) (c : ℕ) (doc_id : Bytes) (doc : Any)
      (atts sized : Assoc Upload) (options : OptionMap) (o : Options) (path : Bytes) (w : World)
      → parsed_options n options ≡ ok o
      → lookup option_no_multipart_put (new_options options).1 ≡ none
      → wr.temp ≡ no_failure
      → wr.json_of doc ≡ document
      → All Other pre
      → sized_all atts ≡ ok sized
      → All Copies (contents sized)
      → db_path n db_name (encode_doc_id (c ∷ doc_id)) ≡ ok path
      → put wr n db_name (c ∷ doc_id) doc (some atts) options w
        ≡ do_json n
            (record {
              method = str "PUT";
              path = path;
              opts = some (related_options wr o (body sized, contents sized)).0;
              payload = multipart (body sized) (contents sized);
            })
            (λ answer. created n db_name answer >>? (λ r. ok r.1))
            w
  unfolding put
  put-document n db_name c doc_id doc atts sized options o path w ho hm ht hd h hs hc hp =
      rw (ho, hm, hd, new_multipart-source atts sized ht hc h hs, hp) refl

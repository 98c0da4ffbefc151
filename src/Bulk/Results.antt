-- ===== src/Bulk/Results.antt =====
-- What BulkDocs makes of the answers of the server.
use couchdb.Common.{
  ℕ, Bool, true, false, Bytes, str, equal, if◌then◌else◌, List, [], ◌∷◌, ◌++◌, map, none, some, ◌≡◌,
  refl, ap,
}
use couchdb.Common.Assoc.{insert}
use couchdb.Errors.{Error, message, kivik, http, Err, ok}
use couchdb.Json.{Lexeme, Decoder, new_decoder}
use couchdb.Json.Print.{Value, text, atom, arr, obj, Fields, end, field, print}
use couchdb.Json.Elements.{decode-arr}
use couchdb.Chttp.Options.{Any, OptionMap, Options, new_options}
use couchdb.Chttp.Response.{Response}
use couchdb.Wire.{object, Net, and_go, pure, decode_json, slice, db_path}
use couchdb.Wire.Structs.{listed, slice-print}
use couchdb.Bulk.{BulkResult, document_error, bulk_result, bulk_docs}

-- a string and its spelling
pub record Text : Type 0 where
  pub decoded : Bytes
  pub raw : Bytes

-- the answer to one document
pub data Answer : Type 0 where
  stored : (id rev : Text) → Answer
  refused : (id kind reason : Text) → Answer

abbrev member_text : Bytes → Text → Fields → Fields
member_text name t fs = field name name (text t.decoded t.raw) fs

abbrev pub answer_value : Answer → Value
answer_value (stored id rev) = obj (
    field (str "ok") (str "ok") (atom (str "true"))
      (member_text (str "id") id (member_text (str "rev") rev end)))
answer_value (refused id kind reason) = obj (
    member_text (str "id") id
      (member_text (str "error") kind (member_text (str "reason") reason end)))

-- the error of a refused document, with the status of net/http
abbrev pub refusal : Bytes → Bytes → Err
refusal [] reason = none
refusal (c ∷ kind) reason =
    if equal (c ∷ kind) (str "conflict")
    then some (kivik 409 (message reason))
    else some (kivik 500 (message reason))

abbrev pub answer_result : Answer → BulkResult
answer_result (stored id rev) = record { id = id.decoded; rev = rev.decoded; error = none }
answer_result (refused id kind reason) = record {
  id = id.decoded;
  rev = [];
  error = refusal kind.decoded reason.decoded;
}

document_error-refusal : (kind reason : Bytes) → document_error kind reason ≡ refusal kind reason
unfolding document_error
document_error-refusal [] reason = refl
document_error-refusal (c ∷ kind) reason = refl

bulk_result-answer : (a : Answer) → bulk_result (print (answer_value a)) ≡ ok (answer_result a)
unfolding bulk_result print
bulk_result-answer (stored id rev) = refl
bulk_result-answer (refused id kind reason) =
    rw (document_error-refusal kind.decoded reason.decoded) refl

abbrev pub rejected_error : Bool → Err
rejected_error false = none
rejected_error true = some (http 417 (str "one or more document was rejected"))

abbrev pub answer_status : Bool → ℕ
answer_status false = 201
answer_status true = 417

abbrev pub answers_body : List Answer → List Lexeme → Error → Decoder
answers_body answers rest e = new_decoder (print (arr (listed answer_value answers)) ++ rest) e

module _ {World : Type 0} (n : Net World) (db_name : Bytes) where
  decode_json-answers :
      (answers : List Answer) (rest : List Lexeme) (e : Error) (r : Response) (w : World)
      → r.body ≡ some (answers_body answers rest e)
      → decode_json n (slice bulk_result) r w ≡ (ok (map answer_result answers), w)
  unfolding decode_json
  decode_json-answers answers rest e r w body =
      rw
        (
          body,
          decode-arr (listed answer_value answers) rest e,
          slice-print bulk_result answer_value answer_result answers bulk_result-answer,
        )
        refl

  -- Whatever the documents: where the server answers 201 or 417 with an array of results, BulkDocs
  -- gives the result of each document in order, the error of a refused one with status 409 for a
  -- conflict and 500 for any other kind of error that is not empty, which is none; with 417 it gives an error beside them. The options must be ones
  -- that NewOptions takes.
  pub bulk_docs-answers :
      (docs : Any) (options : OptionMap) (o : Options) (path : Bytes) (w w' : World) (r : Response)
      (rejected : Bool) (answers : List Answer) (rest : List Lexeme) (e : Error)
      → (new_options options).0 ≡ ok o
      → db_path n db_name (str "/_bulk_docs") ≡ ok path
      → n.request
          (record {
            method = str "POST";
            path = path;
            opts = some o;
            payload = object (insert (str "docs") docs (new_options options).1);
          })
          w
        ≡ (ok r, w')
      → r.status ≡ answer_status rejected
      → r.body ≡ some (answers_body answers rest e)
      → bulk_docs n db_name docs options w
        ≡ (ok (map answer_result answers, rejected_error rejected), w')
  unfolding bulk_docs
  bulk_docs-answers docs options o path w w' r false answers rest e ho hp hr hs body =
      rw (ho, hp, hr, hs)
        (ap (λ x. and_go x (λ results. pure (results, rejected_error false)))
          (decode_json-answers answers rest e r w' body))
  bulk_docs-answers docs options o path w w' r true answers rest e ho hp hr hs body =
      rw (ho, hp, hr, hs)
        (ap (λ x. and_go x (λ results. pure (results, rejected_error true)))
          (decode_json-answers answers rest e r w' body))

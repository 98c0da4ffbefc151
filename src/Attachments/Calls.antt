-- ===== src/Attachments/Calls.antt =====
-- attachments.go: the methods on one attachment of a document.
use couchdb.Common.{ℕ, Bytes, str, List, [], ◌∷◌, ◌++◌, Option, none, some}
use couchdb.Common.Int.{ℤ}
use couchdb.Common.Assoc.{lookup}
use couchdb.Errors.{Error, message, missing_arg, bad_gateway, Result, ok, err}
use couchdb.Json.{Decoder}
use couchdb.Chttp.DocId.{encode_doc_id}
use couchdb.Chttp.Headers.{first_value}
use couchdb.Chttp.Options.{OptionMap}
use couchdb.Chttp.Response.{Response, etag}
use couchdb.Wire.{
  stream, Net, M, lift, ◌>>=◌, ◌>>◌, require, only_string, ask, do_json, db_path, parsed_options,
}
use couchdb.Documents.{plain, rev_text}

-- the attachment that PutAttachment is given; its content is a reader, by number, or nil
pub record NewAttachment : Type 0 where
  pub filename : Bytes
  pub content_type : Bytes
  pub content : Option ℕ

-- the attachment that is returned; its content is the body of the response
pub record Fetched : Type 0 where
  pub content_type : Bytes
  pub digest : Bytes
  pub size : ℤ
  pub content : Option Decoder

abbrev pub no_content_type : Error
no_content_type = bad_gateway (message (str "no Content-Type in response"))

abbrev pub no_etag : Error
no_etag = bad_gateway (message (str "ETag header not found"))

-- getContentType
abbrev pub content_type_of : Option (List Bytes) → Result Bytes
content_type_of none = err no_content_type
content_type_of (some vs) = ok (first_value vs)

-- getDigest
abbrev pub digest_of : Option Bytes → Result Bytes
digest_of none = err no_etag
digest_of (some tag) = ok tag

-- decodeAttachment
unfoldable pub decode_attachment : Response → Result Fetched
unfolding etag
decode_attachment r = elim (content_type_of (lookup (str "Content-Type") r.header)) [
  | err e ↦ err e
  | ok kind ↦ elim (digest_of (etag r)) [
    | err e ↦ err e
    | ok digest ↦
        ok (record {
          content_type = kind;
          digest = digest;
          size = r.content_length;
          content = r.body;
        })
  ]
]

abbrev pub given {ℓ} : {A : Type ℓ} → Bytes → Option A → Result A
given name none = err (missing_arg name)
given name (some a) = ok a

abbrev pub method_given : Bytes → Result (Unit {0})
method_given [] = err (message (str "method required"))
method_given (c ∷ s) = ok tt

module _ {World : Type 0} (n : Net World) (db_name : Bytes) where
  -- the path of an attachment: the file name is not escaped
  abbrev pub file_path : Bytes → Bytes → Result Bytes
  file_path doc_id filename = db_path n db_name (encode_doc_id doc_id ++ (str "/" ++ filename))

  -- PutAttachment
  unfoldable pub put_attachment : Bytes → Option NewAttachment → OptionMap → M World Bytes
  unfolding parsed_options encode_doc_id db_path do_json only_string
  put_attachment doc_id attachment options = do
    require (str "docID") doc_id
    att ← lift (given (str "att") attachment)
    require (str "att.Filename") att.filename
    content ← lift (given (str "att.Content") att.content)
    o ← lift (parsed_options n options)
    path ← lift (file_path doc_id att.filename)
    do_json n
        (record {
          method = str "PUT";
          path = path;
          opts = some (record o { content_type = att.content_type });
          payload = stream content;
        })
        (only_string (str "rev"))

  -- fetchAttachment
  unfoldable pub fetch_attachment : Bytes → Bytes → Bytes → OptionMap → M World Response
  unfolding parsed_options encode_doc_id db_path ask
  fetch_attachment method doc_id filename options = do
    lift (method_given method)
    require (str "docID") doc_id
    require (str "filename") filename
    o ← lift (parsed_options n options)
    path ← lift (file_path doc_id filename)
    ask n (plain method path o)

  -- GetAttachmentMeta and GetAttachment
  unfoldable pub get_attachment_meta : Bytes → Bytes → OptionMap → M World Fetched
  unfolding fetch_attachment decode_attachment
  get_attachment_meta doc_id filename options = do
    r ← fetch_attachment (str "HEAD") doc_id filename options
    lift (decode_attachment r)

  unfoldable pub get_attachment : Bytes → Bytes → OptionMap → M World Fetched
  unfolding fetch_attachment decode_attachment
  get_attachment doc_id filename options = do
    r ← fetch_attachment (str "GET") doc_id filename options
    lift (decode_attachment r)

  -- DeleteAttachment
  unfoldable pub delete_attachment : Bytes → Bytes → OptionMap → M World Bytes
  unfolding lookup parsed_options encode_doc_id db_path do_json only_string
  delete_attachment doc_id filename options = do
    require (str "docID") doc_id
    require (str "rev") (rev_text (lookup (str "rev") options))
    require (str "filename") filename
    o ← lift (parsed_options n options)
    path ← lift (file_path doc_id filename)
    do_json n (plain (str "DELETE") path o) (only_string (str "rev"))

-- ===== src/Documents/Put.antt =====
-- db.go: Put with its attachments, and NewAttachment. What Documents/Put/Extract finds in a document
-- is given with it; what the operations on the temporary file return is given with the writer.
pub mod Multipart
pub mod Extract
use couchdb.Common.{
  ℕ, ltb, ◌==◌, Bytes, str, equal, Bool, true, false, List, [], ◌∷◌, ◌++◌, Option, none, some,
  if◌then◌else◌, is_some,
}
use couchdb.Common.Int.{ℤ, pos, is_positive}
use couchdb.Common.Assoc.{Assoc, lookup}
use couchdb.Errors.{Error, Err, Result, ok, err}
use couchdb.Json.{Raw, Decoder}
use couchdb.Json.Print.{Value, text, atom, obj, Fields, end, field, print}
use couchdb.Chttp.DocId.{encode_doc_id}
use couchdb.Chttp.Options.{Any, OptionMap, option_no_multipart_put, Options, new_options}
use couchdb.Params.{decimal}
use couchdb.Wire.{
  Payload, encoded, multipart, Net, M, lift, ◌>>=◌, ◌>>◌, ◌>>?◌, require, do_json, db_path,
  parsed_options,
}
use couchdb.Documents.{created}
use couchdb.Documents.Get.{type_related}
use couchdb.Documents.Stubs.{Written, copy_with_stubs}

-- the content of an attachment, a reader by number: one that knows its length, a file with what its
-- Stat gives, or any other with what reading it to its end gives
pub data Content : Type 0 where
  buffer : ℕ → ℕ → Content
  file : ℕ → Result ℕ → Content
  reader : ℕ → Result ℕ → Content

-- kivik.Attachment
pub record Upload : Type 0 where
  pub filename : Bytes
  pub content_type : Bytes
  pub size : ℤ
  pub content : Content

abbrev pub reader_of : Content → ℕ
reader_of (buffer k n) = k
reader_of (file k r) = k
reader_of (reader k r) = k

abbrev pub sized : (ℕ → Content) → Result ℕ → Result (ℤ × Content)
sized f (err e) = err e
sized f (ok n) = ok (pos n, f n)

-- readerSize; what was read is replayed from a buffer
abbrev pub reader_size : Content → Result (ℤ × Content)
reader_size (buffer k n) = ok (pos n, buffer k n)
reader_size (file k r) = sized (λ n. file k r) r
reader_size (reader k r) = sized (λ n. reader k (ok n)) r

-- attachmentSize
abbrev pub attachment_size : Upload → Result Upload
attachment_size a =
    if is_positive a.size
    then ok a
    else reader_size a.content >>? (λ x. ok (record a { size = x.0; content = x.1 }))

-- NewAttachment; of the sizes only the first counts
abbrev pub new_attachment : Bytes → Bytes → Content → List ℤ → Result Upload
new_attachment name kind content [] =
    reader_size content
    >>? (λ x. ok (record { filename = name; content_type = kind; size = x.0; content = x.1 }))
new_attachment name kind content (n ∷ sizes) =
    ok (record { filename = name; content_type = kind; size = n; content = content })

-- attachmentStubs: the attachments with their sizes
unfoldable pub sized_all : Assoc Upload → Result (Assoc Upload)
sized_all [] = ok []
sized_all ((name, a) ∷ atts) = attachment_size a >>? (λ a. sized_all_rest name a (sized_all atts))
  where
    sized_all_rest : Bytes → Upload → Result (Assoc Upload) → Result (Assoc Upload)
    sized_all_rest name a rest = rest >>? (λ sized. ok ((name, a) ∷ sized))

-- sort.Strings on the names
unfoldable pub before : Bytes → Bytes → Bool
before [] t = true
before (c ∷ s) [] = false
before (c ∷ s) (d ∷ t) = let rest = before s t in if c == d then rest else ltb c d

unfoldable pub insert_sorted : Bytes × Upload → Assoc Upload → Assoc Upload
insert_sorted x [] = x ∷ []
insert_sorted x (y ∷ ys) =
    let rest = insert_sorted x ys in if before x.0 y.0 then x ∷ (y ∷ ys) else y ∷ rest

unfoldable pub sorted : Assoc Upload → Assoc Upload
sorted [] = []
sorted (x ∷ xs) = insert_sorted x (sorted xs)

-- the errors of what newMultipartAttachments does with its temporary file, and of closing the document
pub record TempFile : Type 0 where
  pub created : Err
  pub closed : Err
  pub synced : Err
  pub stated : Err
  pub sought : Err

abbrev pub no_failure : TempFile
no_failure = record { created = none; closed = none; synced = none; stated = none; sought = none }

abbrev pub unless_error : {A : Type 0} → Err → Result A → Result A
unless_error none r = r
unless_error (some e) r = err e

abbrev pub first_error : Err → Err → Err
first_error none later = later
first_error (some e) later = some e

-- what other packages write: `quote` is the spelling of a string in JSON, `json_of` the JSON text of a
-- document with the error that ends it, `copied` what reading an attachment to its end and writing it
-- to the file returns, by the attachment's reader, `wrapped` the boundary and the length of the multipart body of
-- a document and its attachments, and `temp` the file that holds it
pub record Writer : Type 0 where
  pub quote : Bytes → Bytes
  pub json_of : Any → Decoder
  pub copied : ℕ → Err
  pub wrapped : Raw → List ℕ → Bytes × ℤ
  pub temp : TempFile

module _ (wr : Writer) where
  -- stub.MarshalJSON, and the object of all stubs, whose keys json.Marshal sorts
  abbrev pub stub_value : Upload → Value
  stub_value a = obj (
      field (str "content_type") (str "content_type")
        (text a.content_type (wr.quote a.content_type))
        (field (str "length") (str "length") (atom (decimal a.size))
          (field (str "follows") (str "follows") (atom (str "true")) end)))

  abbrev pub stub_fields : Assoc Upload → Fields
  stub_fields [] = end
  stub_fields ((name, a) ∷ atts) = field name (wr.quote name) (stub_value a) (stub_fields atts)

  abbrev pub readers : Assoc Upload → List ℕ
  readers [] = []
  readers ((name, a) ∷ atts) = reader_of a.content ∷ readers atts

  -- the loop of io.Copy over the attachments: the first error ends it
  unfoldable pub copy_all : List ℕ → Err
  copy_all [] = none
  copy_all (k ∷ ks) = first_error (wr.copied k) (copy_all ks)

  abbrev pub written : Written → Result Raw
  written (none, raw) = ok raw
  written (some e, raw) = err e

  -- createMultipart: the document with its stubs, then the attachments in the order of their names, as
  -- long as they can be copied
  unfoldable pub create_multipart : Decoder → Assoc Upload → Result (Raw × List ℕ)
  unfolding sized_all sorted decimal print copy_with_stubs copy_all
  create_multipart doc atts = sized_all atts >>? (λ atts.
      written (copy_with_stubs (print (obj (stub_fields (sorted atts)))) doc) >>? (λ raw.
        unless_error (copy_all (readers (sorted atts))) (ok (raw, readers (sorted atts)))))

  -- newMultipartAttachments: the first error counts
  unfoldable pub new_multipart : Decoder → Assoc Upload → Result (Raw × List ℕ)
  unfolding create_multipart
  new_multipart doc atts = unless_error wr.temp.created (
      create_multipart doc atts >>? (λ x. unless_error wr.temp.closed (
        unless_error wr.temp.synced
          (unless_error wr.temp.stated (unless_error wr.temp.sought (ok x))))))

  abbrev pub related_options : Options → Raw × List ℕ → Options × Payload
  related_options o (raw, contents) = (
    record o {
      content_length = (wr.wrapped raw contents).1;
      content_type =
          type_related ++ (str "; boundary=\"" ++ ((wr.wrapped raw contents).0 ++ str "\""));
    },
    multipart raw contents,
  )

  -- putOpts, behind the options
  abbrev pub body_of : Any → Option (Assoc Upload) → Bool → Options → Result (Options × Payload)
  body_of doc (some atts) false o =
      new_multipart (wr.json_of doc) atts >>? (λ x. ok (related_options o x))
  body_of doc atts plain o = ok (o, encoded doc)

  module _ {World : Type 0} (n : Net World) (db_name : Bytes) where
    -- Put
    unfoldable pub put : Bytes → Any → Option (Assoc Upload) → OptionMap → M World Bytes
    unfolding parsed_options new_options lookup new_multipart db_path encode_doc_id do_json
    put doc_id doc atts options = do
      require (str "docID") doc_id
      o ← lift (parsed_options n options)
      x ←
          lift
            (body_of doc atts (is_some (lookup option_no_multipart_put (new_options options).1)) o)
      path ← lift (db_path n db_name (encode_doc_id doc_id))
      do_json n (record { method = str "PUT"; path = path; opts = some x.0; payload = x.1 })
          (λ raw. created n db_name raw >>? (λ r. ok r.1))

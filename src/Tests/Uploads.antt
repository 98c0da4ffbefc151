-- ===== src/Tests/Uploads.antt =====
-- Put at a concrete document with an attachment, and the deletion of a replication.
use couchdb.Common.{str, trim_prefix, equal, [], ◌∷◌, none, some, ◌≡◌, refl}
use couchdb.Common.Int.{pos}
use couchdb.Common.Assoc.{Assoc, lookup}
use couchdb.Errors.{eof, ok}
use couchdb.Json.{new_decoder}
use couchdb.Json.Print.{atom, end}
use couchdb.Iter.Response.{Member}
use couchdb.Chttp.DocId.{encode_doc_id}
use couchdb.Chttp.Options.{text, no_options, new_options}
use couchdb.Wire.{◌>>?◌, multipart, db_path, do_json, parsed_options}
use couchdb.Documents.{created}
use couchdb.Documents.Stubs.{attachments_key}
use couchdb.Documents.Put.{
  no_failure, buffer, Upload, Writer, sized_all, insert_sorted, sorted, related_options, put,
}
use couchdb.Documents.Put.Multipart.{contents, body, document, put-document}
use couchdb.Documents.Put.Extract.{Value, pointer, attachments, std_map, entry, no_entry, extract}
use couchdb.Documents.{rev_of}
use couchdb.Replication.Calls.{delete_replication}
use couchdb.Replication.Calls.Deleted.{second, delete_replication-rev}
use couchdb.Tests.Methods.{answer, net}

abbrev first_member : Member
first_member = record { name = str "a"; raw = str "a"; value = atom (str "1") }

abbrev no_writer : Writer
no_writer = record {
  quote = λ s. s;
  json_of = λ doc. new_decoder [] eof;
  copied = λ k. none;
  wrapped = λ raw contents. (str "xyz", pos 100);
  temp = no_failure;
}

abbrev writer : Writer
writer = record no_writer {
  json_of = λ doc. document no_writer (atom (str "2")) attachments_key end [] (first_member ∷ []);
}

abbrev upload : Upload
upload = record {
  filename = str "a.txt";
  content_type = str "text/plain";
  size = pos 0;
  content = buffer 1 3;
}

abbrev uploads : Assoc Upload
uploads = (str "a.txt", upload) ∷ []

abbrev sized_uploads : Assoc Upload
sized_uploads = (str "a.txt", record upload { size = pos 3 }) ∷ []

sizes : sized_all uploads ≡ ok sized_uploads
unfolding sized_all
sizes = refl

no_query : parsed_options (net (answer 201 [] none (str "PUT"))) [] ≡ ok no_options
unfolding parsed_options lookup
no_query = refl

put_path :
    db_path (net (answer 201 [] none (str "PUT"))) (str "db") (encode_doc_id (str "doc"))
    ≡ ok (str "db/doc")
unfolding db_path encode_doc_id trim_prefix
put_path = refl

put-document_example :
    put writer
      (net (answer 201 [] none (str "PUT")))
      (str "db")
      (str "doc")
      (text (str "doc"))
      (some uploads)
      []
      []
    ≡ do_json
        (net (answer 201 [] none (str "PUT")))
        (record {
          method = str "PUT";
          path = str "db/doc";
          opts =
              some
                (related_options writer no_options (
                  body writer
                      (atom (str "2"))
                      attachments_key
                      end
                      []
                      (first_member ∷ [])
                      sized_uploads,
                  contents sized_uploads,
                )).0;
          payload =
              multipart
                (body writer
                  (atom (str "2"))
                  attachments_key
                  end
                  []
                  (first_member ∷ [])
                  sized_uploads)
                (contents sized_uploads);
        })
        (λ answer'.
          created (net (answer 201 [] none (str "PUT"))) (str "db") answer' >>? (λ r. ok r.1))
        []
put-document_example =
    put-document writer (atom (str "2")) attachments_key end [] (first_member ∷ [])
      (net (answer 201 [] none (str "PUT"))) (str "db") b'd' (str "oc") (text (str "doc")) uploads
      sized_uploads [] no_options (str "db/doc") [] no_query (unfold new_options lookup in refl)
      refl refl (unfold equal in (refl, tt)) sizes (unfold sorted insert_sorted in (refl, tt))
      put_path

-- a replication whose document cannot be read
delete_replication-rev_example :
    delete_replication (net (answer 404 [] none (str "HEAD"))) (str "_replicator") (str "doc") []
    ≡ second
        (net (answer 404 [] none (str "HEAD")))
        (str "_replicator")
        b'd'
        (str "oc")
        (str "_replicator/doc")
        (rev_of (net (answer 404 [] none (str "HEAD"))) (str "_replicator") (str "doc") [] [])
delete_replication-rev_example =
    delete_replication-rev (net (answer 404 [] none (str "HEAD"))) (str "_replicator") b'd'
      (str "oc") (str "_replicator/doc") [] (unfold db_path encode_doc_id trim_prefix in refl)

-- a pointer to a map with attachments
abbrev with_uploads : Value
with_uploads =
    pointer (std_map (entry (str "_attachments") (pointer (attachments uploads)) no_entry))

uploads_moved :
    extract with_uploads
    ≡ ok (
      some uploads,
      pointer (std_map (entry (str "_attachments") (pointer (attachments [])) no_entry)),
    )
unfolding extract
uploads_moved = refl

-- ===== src/Methods/Refused.antt =====
-- The arguments that a method asks for: without them it sends nothing.
use couchdb.Common.{ℕ, Bytes, str, List, [], ◌∷◌, Option, none, some, ◌≡◌, arith}
use couchdb.Common.Assoc.{lookup}
use couchdb.Errors.{Result, err, missing_arg}
use couchdb.Json.{Raw}
use couchdb.Chttp.Options.{OptionMap}
use couchdb.Wire.{Net}
use couchdb.Documents
use couchdb.Documents.{rev_text}
use couchdb.Documents.Get
use couchdb.Documents.Put
use couchdb.Attachments.Calls
use couchdb.Attachments.Calls.{NewAttachment}
use couchdb.Find
use couchdb.Server.Stats.{DbStats}
use couchdb.Methods.{DbMethod, call_db}

-- the first of the named arguments that is empty
abbrev pub first_missing : List (Bytes × Bytes) → Option Bytes
first_missing [] = none
first_missing ((name, []) ∷ args) = some name
first_missing ((name, c ∷ s) ∷ args) = first_missing args

abbrev pub rev_option : OptionMap → Bytes
rev_option options = rev_text (lookup (str "rev") options)

abbrev pub missing_content : Option ℕ → Option Bytes
missing_content none = some (str "att.Content")
missing_content (some content) = none

abbrev pub or_content : Option Bytes → Option ℕ → Option Bytes
or_content (some name) content = some name
or_content none content = missing_content content

abbrev pub missing_of_att : Bytes → Option NewAttachment → Option Bytes
missing_of_att doc_id none = first_missing ((str "docID", doc_id) ∷ (str "att", []) ∷ [])
missing_of_att doc_id (some att) =
    or_content (first_missing ((str "docID", doc_id) ∷ (str "att.Filename", att.filename) ∷ []))
      att.content

-- the argument that a method on a database misses, in the order in which they are asked for
abbrev pub missing : DbMethod → Option Bytes
missing (DbMethod.rev_of doc_id opts) = first_missing ((str "docID", doc_id) ∷ [])
missing (DbMethod.get mp doc_id opts) = first_missing ((str "docID", doc_id) ∷ [])
missing (DbMethod.put wr doc_id doc atts opts) = first_missing ((str "docID", doc_id) ∷ [])
missing (DbMethod.delete_doc doc_id opts) =
    first_missing ((str "docID", doc_id) ∷ (str "rev", rev_option opts) ∷ [])
missing (DbMethod.copy target source opts) =
    first_missing ((str "sourceID", source) ∷ (str "targetID", target) ∷ [])
missing (DbMethod.compact_view ddoc) = first_missing ((str "ddocID", ddoc) ∷ [])
missing (DbMethod.put_attachment doc_id att opts) = missing_of_att doc_id att
missing (DbMethod.get_attachment_meta doc_id name opts) =
    first_missing ((str "docID", doc_id) ∷ (str "filename", name) ∷ [])
missing (DbMethod.get_attachment doc_id name opts) =
    first_missing ((str "docID", doc_id) ∷ (str "filename", name) ∷ [])
missing (DbMethod.delete_attachment doc_id name opts) =
    first_missing
      ((str "docID", doc_id) ∷ (str "rev", rev_option opts) ∷ (str "filename", name) ∷ [])
missing (DbMethod.delete_index ddoc name opts) =
    first_missing ((str "ddoc", ddoc) ∷ (str "name", name) ∷ [])
missing m = none

-- A method on a database that misses an argument returns the error with the first missing name, of
-- status 400, and sends nothing, whatever its other arguments and its options are.
pub call_db-missing :
    {World : Type 0} (n : Net World) (base_stats : Raw → Result DbStats) (db : Bytes) (m : DbMethod)
    (w : World) (name : Bytes)
    → missing m ≡ some name
    → call_db n base_stats db m w ≡ (err (missing_arg name), w)
unfolding call_db Documents.rev_of Get.get Put.put Documents.fetch Documents.delete_doc
    Documents.copy Documents.compact_view Calls.put_attachment Calls.get_attachment_meta
    Calls.get_attachment Calls.fetch_attachment Calls.delete_attachment Find.delete_index
call_db-missing n base_stats db (DbMethod.compact_view ddoc) w name h = ground arith
call_db-missing n base_stats db m w name h = ground arith

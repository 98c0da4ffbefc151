-- ===== src/Documents/Put/Extract.antt =====
-- db.go: extractAttachments and interfaceToAttachments, which take the attachments out of a document,
-- and Put of a document with what they find.
pub mod Twice
use couchdb.Common.{
  Bytes, str, equal, Bool, true, false, List, [], ◌∷◌, Option, none, some, if◌then◌else◌, is_some,
}
use couchdb.Common.Assoc.{Assoc, lookup}
use couchdb.Errors.{Error, panic, Result, ok, err}
use couchdb.Chttp.Options.{Any, OptionMap, option_no_multipart_put, new_options}
use couchdb.Wire.{Net, M, lift, ◌>>=◌, ◌>>◌, ◌>>?◌, require, parsed_options}
use couchdb.Documents.Stubs.{attachments_key}
use couchdb.Documents.Put.{Upload, Writer, put}

-- A Go value, as far as reflection looks at it: a map is map[string]interface{}, a struct has its
-- fields with their json tags, and those that are not exported are marked so; kivik.Attachments is a
-- map of its own, a pointer to it is a pointer like any other, and `nil_attachments` is the nil one.
mutual
  pub data Value : Type 0 where
    nil_value nil_pointer nil_attachments : Value
    other_value : Any → Value
    attachments : Assoc Upload → Value
    pointer : Value → Value
    std_map : Entries → Value
    struct : Fields → Value

  pub data Entries : Type 0 where
    no_entry : Entries
    entry : Bytes → Value → Entries → Entries

  pub data Fields : Type 0 where
    no_field : Fields
    tagged : (tag : Bytes) (exported : Bool) → Value → Fields → Fields

-- the attachments that were found, and the document as it is afterwards
abbrev pub Found : Type 0 → Type 0
Found A = Option (Assoc Upload) × A

-- interfaceToAttachments: what it finds is moved out, the original is left empty
unfoldable pub take_attachments : Value → Result (Found Value)
take_attachments (attachments atts) = ok (some atts, attachments [])
take_attachments (pointer (attachments atts)) = ok (some atts, pointer (attachments []))
take_attachments nil_attachments = err panic
take_attachments v = ok (none, v)

-- the value of the first entry with the key; a missing one is nil
abbrev pub in_entry : Bytes → Entries → Result (Found Value) → Result (Found Entries)
in_entry k es (ok (atts, v)) = ok (atts, entry k v es)
in_entry k es (err e) = err e

abbrev pub behind_entry : Bytes → Value → Result (Found Entries) → Result (Found Entries)
behind_entry k v (ok (atts, es)) = ok (atts, entry k v es)
behind_entry k v (err e) = err e

unfoldable pub from_entries : Entries → Result (Found Entries)
unfolding equal take_attachments
from_entries no_entry = ok (none, no_entry)
from_entries (entry k v es) =
    let rest = from_entries es in
    if equal k attachments_key then in_entry k es (take_attachments v) else behind_entry k v rest

-- the first field with the tag; Interface panics for a field that is not exported
abbrev pub in_field : Bytes → Bool → Fields → Result (Found Value) → Result (Found Fields)
in_field t false fs r = err panic
in_field t true fs (ok (atts, v)) = ok (atts, tagged t true v fs)
in_field t true fs (err e) = err e

abbrev pub behind_field : Bytes → Bool → Value → Result (Found Fields) → Result (Found Fields)
behind_field t x v (ok (atts, fs)) = ok (atts, tagged t x v fs)
behind_field t x v (err e) = err e

unfoldable pub from_fields : Fields → Result (Found Fields)
unfolding equal take_attachments
from_fields no_field = ok (none, no_field)
from_fields (tagged t x v fs) =
    let rest = from_fields fs in
    if equal t attachments_key
    then in_field t x fs (take_attachments v)
    else behind_field t x v rest

abbrev pub within : {A : Type 0} → (A → Value) → Result (Found A) → Result (Found Value)
within f (ok (atts, a)) = ok (atts, f a)
within f (err e) = err e

-- extractAttachments; a nil pointer has no element, and the use of it panics
unfoldable pub extract : Value → Result (Found Value)
unfolding from_entries from_fields
extract nil_pointer = err panic
extract nil_attachments = err panic
extract (pointer v) = within pointer (extract v)
extract (std_map es) = within std_map (from_entries es)
extract (struct fs) = within struct (from_fields fs)
extract v = ok (none, v)

module _ (wr : Writer) (any_of : Value → Any) {World : Type 0} (n : Net World)
    (db_name : Bytes) where
  -- Put of a document: putOpts looks for attachments where the options do not forbid it. `any_of` is the
  -- document as json.Marshal sees it.
  abbrev pub put_found : Bytes → OptionMap → Result (Found Value) → M World Bytes
  put_found doc_id options (ok (atts, v)) = put wr n db_name doc_id (any_of v) atts options
  put_found doc_id options (err e) =
      require (str "docID") doc_id
      >>= (λ u. lift (parsed_options n options) >>= (λ o. lift (err e)))

  abbrev pub unless_forbidden : Bool → Value → Result (Found Value)
  unless_forbidden true v = ok (none, v)
  unless_forbidden false v = extract v

  unfoldable pub put_value : Bytes → Value → OptionMap → M World Bytes
  unfolding put new_options lookup extract parsed_options
  put_value doc_id v options =
      put_found doc_id options
        (unless_forbidden (is_some (lookup option_no_multipart_put (new_options options).1)) v)

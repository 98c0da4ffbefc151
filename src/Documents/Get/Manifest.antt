-- ===== src/Documents/Get/Manifest.antt =====
-- What Get returns for a document with attachments.
use couchdb.Common.{
  ℕ, equal_iff, Bytes, str, equal, Bool, true, false, List, [], ◌∷◌, Option, none, some,
  if◌then◌else◌, ◌≡◌, refl, ap, ◌∙◌, arith, All,
}
use couchdb.Common.Int.{ℤ, pos}
use couchdb.Common.Assoc.{Assoc, lookup, lookup-insert}
use couchdb.Errors.{Error, ok}
use couchdb.Json.{literal, Decoder, new_decoder}
use couchdb.Json.Print.{Value, text, obj, Fields, end, field, print}
use couchdb.Json.Into.{find_member, is_null, into_int64, into_string, equal_fold}
use couchdb.Json.Elements.{named, object_members-print, decode-whole_obj}
use couchdb.Iter.Response.{Member, members}
use couchdb.Attachments.{AttMeta}
use couchdb.Json.Read.{decode}
use couchdb.Chttp.Options.{OptionMap}
use couchdb.Chttp.Response.{Response, etag}
use couchdb.Wire.{Net}
use couchdb.Wire.Structs.{member-obj, string_field-obj}
use couchdb.Documents.{header_value, fetch}
use couchdb.Documents.Get.{
  Multipart, type_related, boundary_of, rev_or_empty, only_value, related_document, document_of,
  get, bool_value, att_meta_of, unless_later, metas_of, manifest_of,
}

-- an entry of the manifest: the name and its spelling, its members, and what three of them say, where
-- `kind_raw` is the spelling of the content type
pub record Entry : Type 0 where
  pub name : Bytes
  pub raw : Bytes
  pub fields : Fields
  pub kind : Bytes
  pub kind_raw : Bytes
  pub length : Bytes
  pub size : ℤ
  pub follows : Bool

abbrev pub entry_value : Entry → Value
entry_value x = obj x.fields

abbrev pub entry_meta : Entry → AttMeta
entry_meta x = record { content_type = x.kind; size = some x.size; follows = x.follows }

abbrev pub entry_fields : List Entry → Fields
entry_fields [] = end
entry_fields (x ∷ xs) = field x.name x.raw (entry_value x) (entry_fields xs)

abbrev pub or_this : Option AttMeta → Bool → AttMeta → Option AttMeta
or_this (some m) same new = some m
or_this none same new = if same then some new else none

-- the last entry with that name
abbrev pub last_of : Bytes → List Entry → Option AttMeta
last_of k [] = none
last_of k (x ∷ xs) = or_this (last_of k xs) (equal x.name k) (entry_meta x)

-- Among its members, whatever their order and the others, are a text as the content type, the text of
-- its size as the length, and, if it follows, a member that says so.
abbrev pub Fits : Entry → Type 0
Fits x =
    (find_member (str "content_type") (named x.fields) ≡ some (print (text x.kind x.kind_raw)))
    × (find_member (str "length") (named x.fields) ≡ some (literal x.length ∷ []))
    × (is_null (literal x.length ∷ []) ≡ false)
    × (into_int64 (literal x.length ∷ []) (pos 0) ≡ (none, x.size))
    × (find_member (str "follows") (named x.fields)
        ≡ (if x.follows then some (literal (str "true") ∷ []) else none))

bool_value-follows :
    (b : Bool) → bool_value (if b then some (literal (str "true") ∷ []) else none) ≡ ok b
unfolding equal
bool_value-follows true = refl
bool_value-follows false = refl

att_meta_of-entry : (x : Entry) → Fits x → att_meta_of (print (entry_value x)) ≡ ok (entry_meta x)
unfolding att_meta_of print into_string
att_meta_of-entry x (hk, hl, ne, h, hf) =
    rw
      (
        string_field-obj (str "content_type") x.fields,
        hk,
        member-obj (str "length") x.fields,
        hl,
        ne,
        h,
        member-obj (str "follows") x.fields,
        hf,
        bool_value-follows x.follows,
      )
      refl

abbrev pub metas : List Entry → Assoc AttMeta
metas [] = []
metas (x ∷ xs) = unless_later x.name (entry_meta x) (metas xs)

metas_of-entries :
    (xs : List Entry) → All Fits xs → metas_of (named (entry_fields xs)) ≡ ok (metas xs)
unfolding metas_of
metas_of-entries [] h = refl
metas_of-entries (x ∷ xs) (hx, h) = rw (att_meta_of-entry x hx, metas_of-entries xs h) refl

lookup-set_if_none :
    (k name : Bytes) (m : AttMeta) (ms : Assoc AttMeta)
    → lookup k (unless_later name m ms) ≡ or_this (lookup k ms) (equal name k) m
unfolding unless_later
lookup-set_if_none k name m ms = ground (arith, equal_iff name k, lookup-insert name k m ms)

lookup-metas : (k : Bytes) (xs : List Entry) → lookup k (metas xs) ≡ last_of k xs
unfolding lookup
lookup-metas k [] = refl
lookup-metas k (x ∷ xs) =
    lookup-set_if_none k x.name (entry_meta x) (metas xs)
    ∙ ap (λ o. or_this o (equal x.name k) (entry_meta x)) (lookup-metas k xs)

find_member-last :
    (k : Bytes) (v : Value) (pre : List Member)
    → equal_fold k k ≡ true
    → find_member k (named (members pre (field k k v end))) ≡ some (print v)
unfolding find_member
find_member-last k v [] h = rw h refl
find_member-last k v (x ∷ pre) h = rw (find_member-last k v pre h) refl

-- a document whose last member is the manifest
abbrev pub attachments_name : Bytes
attachments_name = str "_attachments"

abbrev pub with_manifest : List Member → List Entry → Fields
with_manifest pre xs =
    members pre (field attachments_name attachments_name (obj (entry_fields xs)) end)

manifest_of-with_manifest :
    (pre : List Member) (xs : List Entry)
    → All Fits xs
    → manifest_of (print (obj (with_manifest pre xs))) ≡ ok (metas xs)
unfolding manifest_of print
manifest_of-with_manifest pre xs h =
    rw
      (
        member-obj attachments_name (with_manifest pre xs),
        find_member-last attachments_name (obj (entry_fields xs)) pre refl,
      )
      (ap metas_of (object_members-print (entry_fields xs)) ∙ metas_of-entries xs h)

decode-document :
    (fs : Fields) (e : Error)
    → only_value (decode (new_decoder (print (obj fs)) e)) ≡ ok (print (obj fs))
decode-document fs e = ap only_value (decode-whole_obj fs e)

module _ {World : Type 0} (n : Net World) (mp : Multipart) where
  -- A multipart answer: Get returns the text of the first part as the document, the revision of the
  -- ETag header, and a manifest that has for every name the last entry of the member _attachments.
  -- The boundary is not empty, the first part can be read, its JSON object has the manifest as its
  -- last member, and every entry has, among any others, the members content_type, a text, length, a
  -- number, and, where the attachment follows, follows, which is true.
  pub get-related :
      (db_name doc_id : Bytes) (options : OptionMap) (w w' : World) (r : Response)
      (params : Assoc Bytes) (c : ℕ) (boundary : Bytes) (part : Decoder) (e : Error)
      (pre : List Member) (xs : List Entry)
      → fetch n db_name (str "GET") doc_id options w ≡ (ok r, w')
      → mp.parse_media (header_value (str "Content-Type") r) ≡ ok (type_related, params)
      → boundary_of (lookup (str "boundary") params) ≡ c ∷ boundary
      → mp.first_part r.body (c ∷ boundary) ≡ ok part
      → mp.read_part part ≡ ok (new_decoder (print (obj (with_manifest pre xs))) e)
      → All Fits xs
      → (get n mp db_name doc_id options w ≡ (
        ok (record {
          rev = rev_or_empty (etag r);
          body = some (new_decoder (print (obj (with_manifest pre xs))) e);
          attachments = some (metas xs);
        }),
        w',
      ))
        × ((name : Bytes) → lookup name (metas xs) ≡ last_of name xs)
  unfolding get document_of related_document
  get-related db_name doc_id options w w' r params c boundary part e pre xs hr hm hb hp hc h = (
    rw
        (
          hr,
          hm,
          hb,
          hp,
          hc,
          decode-document (with_manifest pre xs) e,
          manifest_of-with_manifest pre xs h,
        )
        refl,
    λ name. lookup-metas name xs,
  )

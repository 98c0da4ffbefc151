-- ===== src/Documents/Get.antt =====
-- db.go: Get, whose answer is a JSON document or a multipart one with its attachments.
pub mod Manifest
use couchdb.Common.{
  Bytes, str, equal, trim, is_empty, Bool, true, false, List, [], ◌∷◌, Option, none, some,
  if◌then◌else◌,
}
use couchdb.Common.Int.{ℤ, pos}
use couchdb.Common.Assoc.{Assoc, lookup, insert}
use couchdb.Errors.{
  open_obj, Error, message, bad_gateway, unmarshal_type, syntax, Err, Result, ok, err,
}
use couchdb.Json.{delim, literal, Lexeme, Raw, Decoder, new_decoder}
use couchdb.Json.Read.{decode}
use couchdb.Json.Into.{member, object_members, is_null, into_int64}
use couchdb.Chttp.Headers.{type_json}
use couchdb.Chttp.Options.{OptionMap}
use couchdb.Chttp.Response.{Response, etag, get_rev}
use couchdb.Wire.{Net, M, lift, ◌>>=◌, ◌>>?◌, gateway, as_struct, string_field}
use couchdb.Documents.{header_value, fetch}
use couchdb.Attachments.{AttMeta}

-- what other packages do with a multipart body: `parse_media` is mime.ParseMediaType, a type and its
-- parameters; `first_part` is NextPart of a multipart.Reader with a boundary, and `read_part` is
-- io.ReadAll of that part, up to the lexemes of its JSON text
pub record Multipart : Type 0 where
  pub parse_media : Bytes → Result (Bytes × Assoc Bytes)
  pub first_part : Option Decoder → Bytes → Result Decoder
  pub read_part : Decoder → Result Decoder

-- driver.Document; the attachments are those that the manifest lists
pub record Document : Type 0 where
  pub rev : Bytes
  pub body : Option Decoder
  pub attachments : Option (Assoc AttMeta)

abbrev pub type_related : Bytes
type_related = str "multipart/related"

-- the members of attMeta
abbrev pub size_result : Err × ℤ → Result (Option ℤ)
size_result (none, i) = ok (some i)
size_result (some e, i) = err e

abbrev pub size_value : Option Raw → Result (Option ℤ)
size_value none = ok none
size_value (some v) = if is_null v then ok none else size_result (into_int64 v (pos 0))

abbrev pub bool_of : Raw → Result Bool
bool_of (literal b ∷ []) =
    if equal b (str "true")
    then ok true
    else if equal b (str "false")
    then ok false
    else if equal b (str "null")
    then ok false
    else err unmarshal_type
bool_of raw = err unmarshal_type

abbrev pub bool_value : Option Raw → Result Bool
bool_value none = ok false
bool_value (some v) = bool_of v

unfoldable pub att_meta_of : Raw → Result AttMeta
unfolding as_struct string_field member into_int64 equal
att_meta_of raw = as_struct raw >>? (λ raw. string_field (str "content_type") raw >>? (λ kind.
    size_value (member (str "length") raw) >>? (λ size.
      bool_value (member (str "follows") raw)
      >>? (λ follows. ok (record { content_type = kind; size = size; follows = follows })))))

-- of two members with one name the later one counts
abbrev pub set_if_none : Bytes → AttMeta → Assoc AttMeta → Option AttMeta → Assoc AttMeta
set_if_none name m ms none = insert name m ms
set_if_none name m ms (some later) = ms

unfoldable pub unless_later : Bytes → AttMeta → Assoc AttMeta → Assoc AttMeta
unfolding lookup insert
unless_later name m ms = set_if_none name m ms (lookup name ms)

unfoldable pub metas_of : List (Bytes × Raw) → Result (Assoc AttMeta)
unfolding att_meta_of unless_later
metas_of [] = ok []
metas_of ((name, raw) ∷ rest) =
    att_meta_of raw >>? (λ m. metas_of rest >>? (λ ms. ok (unless_later name m ms)))

-- json.Unmarshal wants one value and nothing behind it
abbrev pub nothing_behind : List Lexeme → Raw → Result Raw
nothing_behind [] raw = ok raw
nothing_behind (l ∷ ls) raw = err syntax

abbrev pub only_value : Result Raw × Decoder → Result Raw
only_value (err e, d) = err e
only_value (ok raw, d) = nothing_behind d.input raw

-- metaDoc: the member _attachments
abbrev pub manifest_value : Option Raw → Result (Assoc AttMeta)
manifest_value none = ok []
manifest_value (some v) = as_struct v >>? (λ v. metas_of (object_members v))

unfoldable pub manifest_of : Raw → Result (Assoc AttMeta)
unfolding as_struct member metas_of object_members
manifest_of raw = as_struct raw >>? (λ raw. manifest_value (member (str "_attachments") raw))

abbrev pub boundary_of : Option Bytes → Bytes
boundary_of none = []
boundary_of (some s) = trim b'"' s

abbrev pub some_boundary : Bytes → Result Bytes
some_boundary [] =
    err (bad_gateway (message (str "kivik: boundary missing for multipart/related response")))
some_boundary (c ∷ s) = ok (c ∷ s)

abbrev pub rev_or_empty : Option Bytes → Bytes
rev_or_empty none = []
rev_or_empty (some rev) = rev

abbrev pub bad_type : Error
bad_type = bad_gateway (message (str "kivik: invalid content type in response"))

module _ {World : Type 0} (n : Net World) (mp : Multipart) where
  unfoldable pub json_document : Response → Result Document
  unfolding get_rev
  json_document r =
      get_rev n.media_type r
      >>? (λ rev. ok (record { rev = rev; body = r.body; attachments = none }))

  -- the first part is the document, which is read to its end
  unfoldable pub related_document : Response → Assoc Bytes → Result Document
  unfolding lookup trim etag decode manifest_of
  related_document r params =
      some_boundary (boundary_of (lookup (str "boundary") params)) >>? (λ boundary.
        gateway (mp.first_part r.body boundary) >>? (λ part.
          gateway (mp.read_part part) >>? (λ content.
            gateway (only_value (decode content) >>? manifest_of) >>? (λ manifest. ok (record {
              rev = rev_or_empty (etag r);
              body = some content;
              attachments = some manifest;
            })))))

  -- the switch over the content type
  unfoldable pub document_of : Response → Bytes × Assoc Bytes → Result Document
  unfolding json_document related_document equal
  document_of r (kind, params) =
      if equal kind type_json
      then json_document r
      else if equal kind type_related
      then related_document r params
      else err bad_type

  unfoldable pub get : Bytes → Bytes → OptionMap → M World Document
  unfolding fetch document_of
  get db_name doc_id options = do
    r ← fetch n db_name (str "GET") doc_id options
    lift (gateway (mp.parse_media (header_value (str "Content-Type") r)) >>? document_of r)

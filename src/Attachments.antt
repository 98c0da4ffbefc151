-- ===== src/Attachments.antt =====
-- db.go: `multipartAttachments`, the attachments of a multipart/related document, one part each.
-- `parse_media` is mime.ParseMediaType: a type and its parameters, or an error.
pub mod Manifest
pub mod Calls
use couchdb.Common.{
  Bytes, str, equal, Bool, true, false, not, List, [], ◌∷◌, ℕ, Option, none, some, if◌then◌else◌,
  ◌≡◌, ◌⊎◌, inl, inr, arith, refl,
}
use couchdb.Common.Int.{ℤ, pos, negsuc, parse_int64}
use couchdb.Common.Assoc.{Assoc, lookup}
use couchdb.Errors.{Error, eof, message, bad_gateway, Err, Result, ok, err}

-- attMeta; `size` is none where it is nil
pub record AttMeta : Type 0 where
  pub content_type : Bytes
  pub size : Option ℤ
  pub follows : Bool

-- the headers of a part that the code reads, and its content by number
pub record Part : Type 0 where
  pub disposition : Bytes
  pub content_length : Bytes
  pub content_type : Option Bytes
  pub content_encoding : Bytes
  pub content : ℕ

-- driver.Attachment
pub record Attachment : Type 0 where
  pub filename : Bytes
  pub size : ℤ
  pub content_type : Bytes
  pub content_encoding : Bytes
  pub content : ℕ

-- a map's zero value stands for a missing key
abbrev pub found_meta : Option AttMeta → AttMeta
found_meta none = record { content_type = []; size = none; follows = false }
found_meta (some m) = m

abbrev pub found_name : Option Bytes → Bytes
found_name none = []
found_name (some s) = s

-- the size of the manifest, that of the header, or -1
abbrev pub size_of : Option ℤ → Option ℤ → ℤ
size_of (some n) header = n
size_of none (some n) = n
size_of none none = negsuc 0

abbrev pub not_attachment : Error
not_attachment = bad_gateway (message (str "Unexpected Content-Disposition"))

abbrev pub not_in_manifest : Error
not_in_manifest = bad_gateway (message (str "File not in manifest"))

module _ (parse_media : Bytes → Result (Bytes × Assoc Bytes)) (manifest : Assoc AttMeta) where
  abbrev pub kind_of : Result (Bytes × Assoc Bytes) → Result Bytes
  kind_of (err e) = err (bad_gateway e)
  kind_of (ok (kind, params)) = ok kind

  abbrev pub content_kind : AttMeta → Option Bytes → Result Bytes
  content_kind m none = ok m.content_type
  content_kind m (some header) = kind_of (parse_media header)

  abbrev pub filled : Bytes → AttMeta → Part → Result Bytes → Attachment → Err × Attachment
  filled name m p (err e) att = (some e, att)
  filled name m p (ok kind) att = (
    none,
    record {
      filename = name;
      size = size_of m.size (parse_int64 p.content_length);
      content_type = kind;
      content_encoding = p.content_encoding;
      content = p.content;
    },
  )

  abbrev pub named : Bytes → Part → Attachment → Err × Attachment
  named name p att =
      let m = found_meta (lookup name manifest) in
      if m.follows
      then filled name m p (content_kind m p.content_type) att
      else (some not_in_manifest, att)

  abbrev pub disposed : Result (Bytes × Assoc Bytes) → Part → Attachment → Err × Attachment
  disposed (err e) p att = (some (bad_gateway (message (str "Content-Disposition"))), att)
  disposed (ok (kind, params)) p att =
      if equal kind (str "attachment")
      then named (found_name (lookup (str "filename") params)) p att
      else (some not_attachment, att)

  -- Next: `part` is what NextPart gives
  unfoldable pub next : Result Part → Attachment → Err × Attachment
  unfolding equal lookup parse_int64
  next (err eof) att = (some eof, att)
  next (err e) att = (some (bad_gateway e), att)
  next (ok p) att = disposed (parse_media p.disposition) p att

-- ===== src/Attachments/Manifest.antt =====
-- What Next promises of an attachment and of its errors.
use couchdb.Common.{
  Bytes, str, equal, true, Bool-cases, Option, none, some, if◌then◌else◌, ◌≡◌, inl, inr, arith,
  refl,
}
use couchdb.Common.Int.{ℤ}
use couchdb.Common.Assoc.{Assoc, lookup}
use couchdb.Errors.{Error, eof, kivik, Err, Result, ok, err}
use couchdb.Attachments.{
  AttMeta, Part, Attachment, found_meta, found_name, kind_of, content_kind, filled, disposed,
  not_in_manifest, next,
}

-- io.EOF, or an error of status 502
abbrev pub IsEnd : Error → Type 0
IsEnd eof = Unit
IsEnd (kivik status e) = status ≡ 502
IsEnd e = ⊥

-- an attachment of the manifest, with the size that the manifest gives
abbrev pub IsListed : Assoc AttMeta → Attachment → Type 0
IsListed manifest att =
    (m : AttMeta) × (lookup att.filename manifest ≡ some m)
    × (m.follows ≡ true)
    × ((n : ℤ) → m.size ≡ some n → att.size ≡ n)

abbrev pub Fair : Assoc AttMeta → Attachment → Err × Attachment → Type 0
Fair manifest att (none, new) = IsListed manifest new
Fair manifest att (some e, new) = IsEnd e × (new ≡ att)

module _ (parse_media : Bytes → Result (Bytes × Assoc Bytes)) (manifest : Assoc AttMeta) where
  content_kind-Fair :
      (name : Bytes) (m : AttMeta) (p : Part) (att : Attachment) (q : Result (Bytes × Assoc Bytes))
      → lookup name manifest ≡ some m
      → m.follows ≡ true
      → Fair manifest att
          (filled parse_media manifest name m p (kind_of parse_media manifest q) att)
  content_kind-Fair name m p att (err e) found follows = (refl, refl)
  content_kind-Fair name m p att (ok (kind, params)) found follows =
      (m, found, follows, λ n h. rw h refl)

  filled-Fair :
      (name : Bytes) (m : AttMeta) (p : Part) (att : Attachment) (header : Option Bytes)
      → lookup name manifest ≡ some m
      → m.follows ≡ true
      → Fair manifest att
          (filled parse_media manifest name m p (content_kind parse_media manifest m header) att)
  filled-Fair name m p att none found follows = (m, found, follows, λ n h. rw h refl)
  filled-Fair name m p att (some header) found follows =
      content_kind-Fair name m p att (parse_media header) found follows

  meta-Fair :
      (name : Bytes) (p : Part) (att : Attachment) (q : Option AttMeta)
      → lookup name manifest ≡ q
      → Fair manifest att (
          if (found_meta q).follows
          then filled parse_media manifest name
              (found_meta q)
              p
              (content_kind parse_media manifest (found_meta q) p.content_type)
              att
          else (some not_in_manifest, att))
  meta-Fair name p att none found = (refl, refl)
  meta-Fair name p att (some m) found = elim (Bool-cases m.follows) [
    | inl h ↦ rw h (filled-Fair name m p att p.content_type found h)
    | inr h ↦ rw h (refl, refl)
  ]

  disposed-Fair :
      (q : Result (Bytes × Assoc Bytes)) (p : Part) (att : Attachment)
      → Fair manifest att (disposed parse_media manifest q p att)
  disposed-Fair (err e) p att = (refl, refl)
  disposed-Fair (ok (kind, params)) p att = elim (Bool-cases (equal kind (str "attachment"))) [
    | inl h ↦ rw h (meta-Fair (found_name (lookup (str "filename") params)) p att _ refl)
    | inr h ↦ rw h (refl, refl)
  ]

  -- Next gives an attachment that the document's manifest announces, with the manifest's size if it
  -- has one; or it leaves the attachment as it was and returns io.EOF or an error of status 502.
  pub next-Fair :
      (q : Result Part) (att : Attachment) → Fair manifest att (next parse_media manifest q att)
  unfolding next
  next-Fair (ok p) att = disposed-Fair (parse_media p.disposition) p att
  next-Fair (err e) att = ground arith

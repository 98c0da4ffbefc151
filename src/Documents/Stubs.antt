-- ===== src/Documents/Stubs.antt =====
-- db.go: copyWithAttachmentStubs, which copies a JSON document and puts the stubs of the attachments
-- in the place of its member _attachments. Writing does not fail here.
pub mod Copied
use couchdb.Common.{
  ℕ, zero, suc, Bytes, str, equal, Bool, true, false, List, [], ◌∷◌, ◌++◌, length, none, some,
  if◌then◌else◌,
}
use couchdb.Errors.{
  open_obj, close_obj, Error, kivik, message, status_bad_request, stuck, Err, Result, ok, err,
}
use couchdb.Json.{
  Lexeme, delim, comma, colon, string, literal, Raw, Token, delim_token, string_token, Decoder,
}
use couchdb.Json.Read.{is_eof, token, decode}

-- what is written, behind what has been written before
abbrev pub Written : Type 0
Written = Err × Raw

abbrev pub write : Raw → Written → Written
write raw (e, rest) = (e, raw ++ rest)

-- io.Copy of the rest, up to the error that ends it
abbrev pub copied : Decoder → Written
copied d = (if is_eof d.tail then none else some d.tail, d.input)

abbrev pub attachments_key : Bytes
attachments_key = str "_attachments"

-- the key is written between quotes as it is, without escapes
abbrev pub key_of : Bool → Bytes → Raw
key_of true key = string key key ∷ (colon ∷ [])
key_of false key = comma ∷ (string key key ∷ (colon ∷ []))

module _ (stubs : Raw) where
  abbrev pub after_key : Bool → Raw → (Decoder → Written) → Decoder → Written
  after_key true val k d = write stubs (copied d)
  after_key false val k d = write val (k d)

  -- the value behind a key; behind the attachments the rest is copied as it is
  abbrev pub after_value : Bytes → (Decoder → Written) → Result Raw × Decoder → Written
  after_value key k (err e, d) = (some e, [])
  after_value key k (ok val, d) = after_key (equal key attachments_key) val k d

  -- the loop, on fuel
  unfoldable pub copy_loop : ℕ → Bool → Decoder → Written
  unfolding token decode equal
  copy_loop zero first d = (some stuck, [])
  copy_loop (suc f) first d =
      let (t, d1) = token d in
      elim t [
        | err e ↦ (if is_eof e then none else some (kivik status_bad_request e), [])
        | ok (string_token key) ↦
            write (key_of first key) (after_value key (copy_loop f false) (decode d1))
        | ok (delim_token close_obj) ↦ write (delim close_obj ∷ []) (copy_loop f first d1)
        | ok (delim_token other) ↦ (some (message (str "expected '}'")), [])
        | ok t' ↦ copy_loop f first d1
      ]

  -- the first token: the nil token of an empty input is written as "<nil>"
  unfoldable pub copy_with_stubs : Decoder → Written
  unfolding token copy_loop
  copy_with_stubs d =
      let (t, d1) = token d in
      elim t [
        | ok (delim_token open_obj) ↦
            write (delim open_obj ∷ []) (copy_loop (suc (length d1.input)) true d1)
        | ok t' ↦ (some (kivik status_bad_request (message (str "expected '{'"))), [])
        | err e ↦
            (if is_eof e
              then write (literal (str "<nil>") ∷ []) (copy_loop 1 true d1)
              else (some e, []))
      ]

-- ===== src/Documents/Stubs/Copied.antt =====
-- What a document with attachments is sent as.
use couchdb.Common.{
  ℕ, zero, suc, ◌<◌, Bytes, equal, true, false, List, [], ◌∷◌, ◌++◌, map, length, length-append,
  none, some, ◌≡◌, refl, ap, ◌∙◌, arith, append_assoc, All, if◌then◌else◌,
}
use couchdb.Errors.{open_obj, Error}
use couchdb.Json.{Lexeme, delim, TokenState, top_value, Decoder, new_decoder}
use couchdb.Json.Print.{Value, obj, Fields, field, print, print_fields, more_fields}
use couchdb.Json.Read.{is_eof, token, decode}
use couchdb.Json.Read.Values.{reading}
use couchdb.Json.Elements.{decode-member}
use couchdb.Iter.Response.{Member, members, length-members}
use couchdb.Documents.Stubs.{
  Written, write, copied, attachments_key, key_of, after_value, copy_loop, copy_with_stubs,
}

-- a member whose key is written without escapes
abbrev pub unescaped : Member → Member
unescaped m = record m { raw = m.name }

abbrev pub Other : Member → Type 0
Other m = equal m.name attachments_key ≡ false

-- a document with that value as its attachments
abbrev pub with_member : Value → Bytes → Fields → List Member → Fields
with_member v raw post pre = members pre (field attachments_key raw v post)

module _ (stubs v : Value) (raw : Bytes) (post : Fields) (rest : List Lexeme) (e : Error) where
  -- the document, and what is to be written for it
  abbrev source : List Member → Fields
  source pre = with_member v raw post pre

  abbrev target : List Member → Fields
  target pre = with_member stubs attachments_key post (map unescaped pre)

  abbrev inside : TokenState → List Lexeme → Decoder
  inside s ls = reading (ls ++ rest) e s (top_value ∷ [])

  abbrev rest_error : Written
  rest_error = copied (inside TokenState.object_comma (more_fields post))

  loop-first :
      (f : ℕ)
      → copy_loop
          (print stubs)
          (suc f)
          true
          (inside TokenState.object_start (print_fields (source [])))
        ≡ (rest_error.0, print_fields (target []) ++ rest)
  unfolding copy_loop token print decode equal
  loop-first f =
      ap
        (λ x.
          write (key_of true attachments_key)
            (after_value (print stubs) attachments_key (copy_loop (print stubs) f false) x))
        (decode-member v post rest e (top_value ∷ []))
      ∙ rw append_assoc refl

  loop-comma :
      (f : ℕ)
      → copy_loop
          (print stubs)
          (suc f)
          false
          (inside TokenState.object_comma (more_fields (source [])))
        ≡ (rest_error.0, more_fields (target []) ++ rest)
  unfolding copy_loop token print decode equal
  loop-comma f =
      ap
        (λ x.
          write (key_of false attachments_key)
            (after_value (print stubs) attachments_key (copy_loop (print stubs) f false) x))
        (decode-member v post rest e (top_value ∷ []))
      ∙ rw append_assoc refl

  -- the members behind a first one
  loop-more :
      (pre : List Member) (f : ℕ)
      → All Other pre
      → length pre < f
      → copy_loop (print stubs) f false (inside TokenState.object_comma (more_fields (source pre)))
        ≡ (rest_error.0, more_fields (target pre) ++ rest)
  unfolding copy_loop token print
  loop-more pre zero h lt = elim lt [ ]
  loop-more [] (suc f) h lt = loop-comma f
  loop-more (x ∷ pre) (suc f) (hx, h) lt =
      ap
        (λ y.
          write (key_of false x.name)
            (after_value (print stubs) x.name (copy_loop (print stubs) f false) y))
        (decode-member x.value (source pre) rest e (top_value ∷ []))
      ∙ rw (hx, loop-more pre f h (omega arith), append_assoc) refl

  loop-start :
      (pre : List Member) (f : ℕ)
      → All Other pre
      → length pre < suc f
      → copy_loop
          (print stubs)
          (suc f)
          true
          (inside TokenState.object_start (print_fields (source pre)))
        ≡ (rest_error.0, print_fields (target pre) ++ rest)
  unfolding copy_loop token print
  loop-start [] f h lt = loop-first f
  loop-start (x ∷ pre) f (hx, h) lt =
      ap
        (λ y.
          write (key_of true x.name)
            (after_value (print stubs) x.name (copy_loop (print stubs) f false) y))
        (decode-member x.value (source pre) rest e (top_value ∷ []))
      ∙ rw (hx, loop-more pre f h (omega arith), append_assoc) refl

  members_fit : (pre : List Member) → length pre < suc (length (print_fields (source pre) ++ rest))
  unfolding print
  members_fit [] = omega arith
  members_fit (x ∷ pre) = omega (
    arith,
    length-members pre (field attachments_key raw v post) rest,
    length-append (print x.value) (more_fields (source pre)),
    length-append (print x.value ++ more_fields (source pre)) rest,
    length-append (more_fields (source pre)) rest,
  )

  -- A document with a member _attachments, at its first place of that name: what is sent is the same
  -- document with the stubs as the value of that member, the keys before it written without escapes,
  -- and everything behind it as it was; the error is that which ends the document, if it is not
  -- io.EOF.
  pub copy_with_stubs-source :
      (pre : List Member)
      → All Other pre
      → copy_with_stubs
          (print stubs)
          (new_decoder (print (obj (with_member v raw post pre)) ++ rest) e)
        ≡ (
          (if is_eof e then none else some e),
          print (obj (with_member stubs attachments_key post (map unescaped pre))) ++ rest,
        )
  unfolding copy_with_stubs token print
  copy_with_stubs-source pre h =
      ap (write (delim open_obj ∷ []))
        (loop-start pre (length (print_fields (source pre) ++ rest)) h (members_fit pre))

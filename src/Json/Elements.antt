-- ===== src/Json/Elements.antt =====
-- The elements and the members that an unmarshaller finds in the lexemes of a printed value.
use couchdb.Common.{
  ℕ, zero, suc, ◌≤◌, Bytes, false, List, [], ◌∷◌, ◌++◌, length, length-append, ◌≡◌, refl, sym,
  append-nil, append_assoc, ap, ◌∙◌, arith,
}
use couchdb.Errors.{Error, close_obj, ok}
use couchdb.Json.{
  TokenState, Lexeme, delim, comma, colon, string, Raw, top_value, new_decoder, value_end,
}
use couchdb.Json.Print.{
  Value, arr, obj, Items, nil, cons, Fields, end, field, print, print_items, more_items,
  print_fields, more_fields, scan-print,
}
use couchdb.Json.Read.{decode, read_value, needs_lookahead}
use couchdb.Json.Read.Values.{reading, decode-colon}
use couchdb.Json.Into.{elements_from, array_elements, members_from, object_members}

abbrev pub elements : Items → List Raw
elements nil = []
elements (cons v vs) = print v ∷ elements vs

abbrev pub named : Fields → List (Bytes × Raw)
named end = []
named (field n r v fs) = (n, print v) ∷ named fs

-- an element takes one step of the fuel, and one lexeme at least
elements_from-more :
    (v : Value) (vs : Items) (f : ℕ)
    → length (more_items vs) ≤ f
    → elements_from f (print v ++ more_items vs) ≡ elements (cons v vs)
unfolding elements_from print
elements_from-more v nil zero h = absurd (omega arith)
elements_from-more v nil (suc f) h = rw (elements_from, scan-print v (more_items nil)) refl
elements_from-more v (cons v' vs) zero h = absurd (omega arith)
elements_from-more v (cons v' vs) (suc f) h =
    rw (elements_from, scan-print v (more_items (cons v' vs)))
      (ap (λ xs. print v ∷ xs)
        (elements_from-more v' vs f (omega (arith, length-append (print v') (more_items vs)))))

pub array_elements-print : (xs : Items) → array_elements (print (arr xs)) ≡ elements xs
unfolding array_elements elements_from print
array_elements-print nil = refl
array_elements-print (cons v vs) =
    elements_from-more v vs (length (print_items (cons v vs)))
      (omega (arith, length-append (print v) (more_items vs)))

members_from-more :
    (n r : Bytes) (v : Value) (fs : Fields) (f : ℕ)
    → length (more_fields fs) ≤ f
    → members_from f (string n r ∷ (colon ∷ (print v ++ more_fields fs))) ≡ named (field n r v fs)
unfolding members_from print
members_from-more n r v end zero h = absurd (omega arith)
members_from-more n r v end (suc f) h = rw (members_from, scan-print v (more_fields end)) refl
members_from-more n r v (field n' r' v' fs) zero h = absurd (omega arith)
members_from-more n r v (field n' r' v' fs) (suc f) h =
    rw (members_from, scan-print v (more_fields (field n' r' v' fs)))
      (ap (λ xs. (n, print v) ∷ xs)
        (members_from-more n' r' v' fs f
          (omega (arith, length-append (print v') (more_fields fs)))))

pub object_members-print : (fs : Fields) → object_members (print (obj fs)) ≡ named fs
unfolding object_members members_from print
object_members-print end = refl
object_members-print (field n r v fs) =
    members_from-more n r v fs (length (print_fields (field n r v fs)))
      (omega (arith, length-append (print v) (more_fields fs)))

read_value-print :
    (v : Value) (rest : List Lexeme) (e : Error)
    → needs_lookahead (print v) rest e ≡ false
    → read_value (new_decoder (print v ++ rest) e)
      ≡ (ok (print v), reading rest e (value_end top_value) [])
unfolding read_value
read_value-print v rest e h = rw (scan-print v rest, h, read_value) refl

-- a printed object at the start of a body, or a printed array
pub decode-obj :
    (fs : Fields) (rest : List Lexeme) (e : Error)
    → (decode (new_decoder (print (obj fs) ++ rest) e)).0 ≡ ok (print (obj fs))
unfolding decode print
decode-obj fs rest e = ap (λ x. x.0) (read_value-print (obj fs) rest e refl)

pub decode-arr :
    (xs : Items) (rest : List Lexeme) (e : Error)
    → (decode (new_decoder (print (arr xs) ++ rest) e)).0 ≡ ok (print (arr xs))
unfolding decode print
decode-arr xs rest e = ap (λ x. x.0) (read_value-print (arr xs) rest e refl)

-- the decoder at its end behind a whole object
pub decode-whole_obj :
    (fs : Fields) (e : Error)
    → decode (new_decoder (print (obj fs)) e)
      ≡ (ok (print (obj fs)), reading [] e (value_end top_value) [])
unfolding decode print
decode-whole_obj fs e =
    ap (λ ls. decode (new_decoder ls e)) (sym (append-nil (print (obj fs))))
    ∙ read_value-print (obj fs) [] e refl

-- the value of a member, up to the comma or the brace behind it
pub decode-member :
    (v : Value) (fs : Fields) (rest : List Lexeme) (e : Error) (k : List TokenState)
    → decode (reading ((colon ∷ (print v ++ more_fields fs)) ++ rest) e TokenState.object_colon k)
      ≡ (ok (print v), reading (more_fields fs ++ rest) e TokenState.object_comma k)
unfolding print
decode-member v end rest e k = rw append_assoc (decode-colon v (delim close_obj) rest e k)
decode-member v (field n r v' fs) rest e k = rw append_assoc (decode-colon v comma _ e k)

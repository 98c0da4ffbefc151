-- ===== src/Wire/Structs.antt =====
-- What the unmarshallers find in a printed object or array.
use couchdb.Common.{Bytes, List, [], ◌∷◌, map, ◌≡◌, refl, ap, ◌∙◌}
use couchdb.Errors.{Result, ok}
use couchdb.Json.{Raw}
use couchdb.Json.Print.{Value, arr, obj, Items, nil, cons, Fields, print}
use couchdb.Json.Into.{member, find_member}
use couchdb.Json.Elements.{elements, named, array_elements-print, object_members-print}
use couchdb.Wire.{each, slice, string_of, string_field}

pub member-obj :
    (name : Bytes) (fs : Fields) → member name (print (obj fs)) ≡ find_member name (named fs)
unfolding member
member-obj name fs = ap (find_member name) (object_members-print fs)

pub string_field-obj :
    (name : Bytes) (fs : Fields)
    → string_field name (print (obj fs)) ≡ string_of name (find_member name (named fs))
unfolding string_field
string_field-obj name fs = ap (string_of name) (member-obj name fs)

-- the elements that `v` makes of a list
abbrev pub listed {ℓ} : {B : Type ℓ} → (B → Value) → List B → Items
listed v [] = nil
listed v (b ∷ bs) = cons (v b) (listed v bs)

module _ {ℓ} {A B : Type ℓ} (f : Raw → Result A) (v : B → Value) (g : B → A) where
  each-elements :
      (bs : List B)
      → ((b : B) → f (print (v b)) ≡ ok (g b))
      → each f (elements (listed v bs)) ≡ ok (map g bs)
  unfolding each
  each-elements [] h = refl
  each-elements (b ∷ bs) h = rw (h b, each-elements bs h) refl

  -- a slice has a target for each element, in order
  pub slice-print :
      (bs : List B)
      → ((b : B) → f (print (v b)) ≡ ok (g b))
      → slice f (print (arr (listed v bs))) ≡ ok (map g bs)
  unfolding slice print
  slice-print bs h = ap (each f) (array_elements-print (listed v bs)) ∙ each-elements bs h

-- ===== src/Json/Print.antt =====
-- JSON values as trees, their lexemes, and the scanner on those lexemes.
use couchdb.Common.{Bytes, List, [], ◌∷◌, ◌++◌, ◌≡◌, refl, ap, ◌∙◌, append_assoc, append-nil}
use couchdb.Errors.{open_obj, close_obj, open_arr, close_arr}
use couchdb.Json.{Lexeme, delim, colon, comma, string, literal, Raw}
use couchdb.Json.Scan.{
  Place, in_arr, in_obj, value, value_or_end, key_or_end, after_value, Scanned, complete, prepend,
  scan, prepend_all, prepend_all-append, prepend_all-complete,
}

mutual
  pub data Value : Type 0 where
    text : (decoded raw : Bytes) → Value
    atom : Bytes → Value
    arr : Items → Value
    obj : Fields → Value

  pub data Items : Type 0 where
    nil : Items
    cons : Value → Items → Items

  pub data Fields : Type 0 where
    end : Fields
    field : (name raw : Bytes) → Value → Fields → Fields

-- The tails print the closing bracket too; the `more` forms stand behind a first element.
unfoldable mutual
  pub print : Value → Raw
  print (text t r) = string t r ∷ []
  print (atom b) = literal b ∷ []
  print (arr xs) = delim open_arr ∷ print_items xs
  print (obj fs) = delim open_obj ∷ print_fields fs

  pub print_items : Items → Raw
  print_items nil = delim close_arr ∷ []
  print_items (cons v vs) = print v ++ more_items vs

  pub more_items : Items → Raw
  more_items nil = delim close_arr ∷ []
  more_items (cons v vs) = comma ∷ (print v ++ more_items vs)

  pub print_fields : Fields → Raw
  print_fields end = delim close_obj ∷ []
  print_fields (field n r v fs) = string n r ∷ (colon ∷ (print v ++ more_fields fs))

  pub more_fields : Fields → Raw
  more_fields end = delim close_obj ∷ []
  more_fields (field n r v fs) = comma ∷ (string n r ∷ (colon ∷ (print v ++ more_fields fs)))

-- the scanner behind a whole value
abbrev resume : List Place → List Lexeme → Scanned
resume [] rest = complete [] rest
resume (p ∷ ps) rest = scan after_value (p ∷ ps) rest

-- a first element is read as a value where the array might also end
scan-first :
    (v : Value) (ps : List Place) (rest : List Lexeme)
    → scan value_or_end (in_arr ∷ ps) (print v ++ rest) ≡ scan value (in_arr ∷ ps) (print v ++ rest)
unfolding scan print
scan-first (text t r) ps rest = refl
scan-first (atom b) ps rest = refl
scan-first (arr xs) ps rest = refl
scan-first (obj fs) ps rest = refl

as_value :
    (v : Value) (ps : List Place) (b rest : Raw) {s : Scanned}
    → scan value (in_arr ∷ ps) ((print v ++ b) ++ rest) ≡ s
    → scan value_or_end (in_arr ∷ ps) ((print v ++ b) ++ rest) ≡ s
as_value v ps b rest h = rw append_assoc (scan-first v ps (b ++ rest)) ∙ h

-- one element and what follows it
scan_chain :
    (ps : List Place) (a b rest : Raw) (s : Scanned)
    → scan value ps (a ++ (b ++ rest)) ≡ prepend_all a (resume ps (b ++ rest))
    → resume ps (b ++ rest) ≡ prepend_all b s
    → scan value ps ((a ++ b) ++ rest) ≡ prepend_all (a ++ b) s
scan_chain ps a b rest s h k = rw (append_assoc, h, k, prepend_all-append)

mutual
  unfolding scan print

  scan_value :
      (v : Value) (ps : List Place) (rest : List Lexeme)
      → scan value ps (print v ++ rest) ≡ prepend_all (print v) (resume ps rest)
  scan_value (text t r) [] rest = refl
  scan_value (text t r) (p ∷ ps) rest = refl
  scan_value (atom b) [] rest = refl
  scan_value (atom b) (p ∷ ps) rest = refl
  scan_value (arr xs) ps rest = ap (prepend (delim open_arr)) (scan_items xs ps rest)
  scan_value (obj fs) ps rest = ap (prepend (delim open_obj)) (scan_fields fs ps rest)

  scan_items :
      (xs : Items) (ps : List Place) (rest : List Lexeme)
      → scan value_or_end (in_arr ∷ ps) (print_items xs ++ rest)
        ≡ prepend_all (print_items xs) (resume ps rest)
  scan_items nil [] rest = refl
  scan_items nil (p ∷ ps) rest = refl
  scan_items (cons v vs) ps rest = as_value v ps (more_items vs) rest (
      scan_chain (in_arr ∷ ps) (print v) (more_items vs) rest (resume ps rest)
        (scan_value v (in_arr ∷ ps) (more_items vs ++ rest)) (scan-more_items vs ps rest))

  scan-more_items :
      (xs : Items) (ps : List Place) (rest : List Lexeme)
      → scan after_value (in_arr ∷ ps) (more_items xs ++ rest)
        ≡ prepend_all (more_items xs) (resume ps rest)
  scan-more_items nil [] rest = refl
  scan-more_items nil (p ∷ ps) rest = refl
  scan-more_items (cons v vs) ps rest = ap (prepend comma) (
      scan_chain (in_arr ∷ ps) (print v) (more_items vs) rest (resume ps rest)
        (scan_value v (in_arr ∷ ps) (more_items vs ++ rest)) (scan-more_items vs ps rest))

  scan_fields :
      (fs : Fields) (ps : List Place) (rest : List Lexeme)
      → scan key_or_end (in_obj ∷ ps) (print_fields fs ++ rest)
        ≡ prepend_all (print_fields fs) (resume ps rest)
  scan_fields end [] rest = refl
  scan_fields end (p ∷ ps) rest = refl
  scan_fields (field n r v fs) ps rest =
      ap (λ s. prepend (string n r) (prepend colon s))
        (scan_chain (in_obj ∷ ps) (print v) (more_fields fs) rest (resume ps rest)
          (scan_value v (in_obj ∷ ps) (more_fields fs ++ rest)) (scan-more_fields fs ps rest))

  scan-more_fields :
      (fs : Fields) (ps : List Place) (rest : List Lexeme)
      → scan after_value (in_obj ∷ ps) (more_fields fs ++ rest)
        ≡ prepend_all (more_fields fs) (resume ps rest)
  scan-more_fields end [] rest = refl
  scan-more_fields end (p ∷ ps) rest = refl
  scan-more_fields (field n r v fs) ps rest =
      ap (λ s. prepend comma (prepend (string n r) (prepend colon s)))
        (scan_chain (in_obj ∷ ps) (print v) (more_fields fs) rest (resume ps rest)
          (scan_value v (in_obj ∷ ps) (more_fields fs ++ rest)) (scan-more_fields fs ps rest))

-- The scanner takes exactly the lexemes of a printed value, whatever follows.
pub scan-print :
    (v : Value) (rest : List Lexeme) → scan value [] (print v ++ rest) ≡ complete (print v) rest
scan-print v rest = scan_value v [] rest ∙ whole
  where
    whole : prepend_all (print v) (complete [] rest) ≡ complete (print v) rest
    whole = rw (prepend_all-complete, append-nil)

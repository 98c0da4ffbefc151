-- ===== src/Json/Scan.antt =====
-- The scanner behind `Decoder.Decode`: it finds the end of the next whole value.
use couchdb.Common.{List, [], ◌∷◌, ◌++◌, ◌≡◌, refl, ap}
use couchdb.Errors.{open_obj, close_obj, open_arr, close_arr}
use couchdb.Json.{Lexeme, delim, colon, comma, string, literal, Raw}

-- the open arrays and objects around the scanner
pub data Place : Type 0 where
  in_arr in_obj : Place

pub data Want : Type 0 where
  value value_or_end key key_or_end colon_next after_value : Want

pub data Verdict : Type 0 where
  proceed : Want → List Place → Verdict
  finish fault : Verdict

-- what follows a value inside `ps`
abbrev pub ended : List Place → Verdict
ended [] = finish
ended (p ∷ ps) = proceed after_value (p ∷ ps)

abbrev pub begin_value : List Place → Lexeme → Verdict
begin_value ps (delim open_obj) = proceed key_or_end (in_obj ∷ ps)
begin_value ps (delim open_arr) = proceed value_or_end (in_arr ∷ ps)
begin_value ps (string t r) = ended ps
begin_value ps (literal b) = ended ps
begin_value ps _ = fault

abbrev pub judge : Want → List Place → Lexeme → Verdict
judge value ps l = begin_value ps l
judge value_or_end (p ∷ ps) (delim close_arr) = ended ps
judge value_or_end ps l = begin_value ps l
judge key_or_end (p ∷ ps) (delim close_obj) = ended ps
judge key_or_end ps (string t r) = proceed colon_next ps
judge key ps (string t r) = proceed colon_next ps
judge colon_next ps colon = proceed value ps
judge after_value (in_arr ∷ ps) comma = proceed value (in_arr ∷ ps)
judge after_value (in_arr ∷ ps) (delim close_arr) = ended ps
judge after_value (in_obj ∷ ps) comma = proceed key (in_obj ∷ ps)
judge after_value (in_obj ∷ ps) (delim close_obj) = ended ps
judge _ _ _ = fault

-- A whole value and what follows it, a syntax error, or the end of the input inside the value.
pub data Scanned : Type 0 where
  complete : Raw → List Lexeme → Scanned
  broken short : Scanned

abbrev pub prepend : Lexeme → Scanned → Scanned
prepend l (complete raw rest) = complete (l ∷ raw) rest
prepend l broken = broken
prepend l short = short

unfoldable pub scan : Want → List Place → List Lexeme → Scanned
scan want ps [] = short
scan want ps (l ∷ ls) = elim (judge want ps l) [
  | proceed w qs ↦ prepend l (scan w qs ls)
  | finish ↦ complete (l ∷ []) ls
  | fault ↦ broken
]

abbrev pub prepend_all : Raw → Scanned → Scanned
prepend_all [] s = s
prepend_all (l ∷ ls) s = prepend l (prepend_all ls s)

pub prepend_all-append :
    (a b : Raw) (s : Scanned) → prepend_all (a ++ b) s ≡ prepend_all a (prepend_all b s)
prepend_all-append [] b s = refl
prepend_all-append (l ∷ a) b s = ap (prepend l) (prepend_all-append a b s)

pub prepend_all-complete :
    (a b : Raw) (rest : List Lexeme) → prepend_all a (complete b rest) ≡ complete (a ++ b) rest
prepend_all-complete [] b rest = refl
prepend_all-complete (l ∷ a) b rest = ap (prepend l) (prepend_all-complete a b rest)

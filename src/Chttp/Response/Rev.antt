-- ===== src/Chttp/Response/Rev.antt =====
-- Where readRev finds the revision in a document body, and where it is misled.
use couchdb.Common.{
  ℕ, zero, suc, ◌*◌, ◌<◌, Bytes, str, equal, equal_refl, false, List, [], ◌∷◌, ◌++◌, ◌≡◌, refl, ◌∙◌,
  All, length, length-append, arith,
}
use couchdb.Errors.{Error, ok}
use couchdb.Json.{Lexeme, TokenState, top_value, object_start, object_comma, object_colon, colon}
use couchdb.Json.Print.{
  Value, text, atom, arr, obj, Fields, end, field, print, print_fields, more_fields,
}
use couchdb.Json.Read.{token}
use couchdb.Json.Read.Values.{reading}
use couchdb.Iter.Response.{Member, members}
use couchdb.Chttp.Response.{rev_loop, read_rev}

-- a scalar that is not the string "_rev"
abbrev pub IsOther : Value → Type 0
IsOther (text t r) = equal t (str "_rev") ≡ false
IsOther (atom b) = Unit
IsOther (arr xs) = ⊥
IsOther (obj fs) = ⊥

-- a member that readRev passes over
abbrev pub IsPassed : Member → Type 0
IsPassed x = (equal x.name (str "_rev") ≡ false) × IsOther x.value

module _ (rest : List Lexeme) (e : Error) (k : List TokenState) where
  -- one round for the value of a member
  value_round :
      (v : Value) (fs : Fields) (f : ℕ)
      → IsOther v
      → rev_loop (suc f) (reading (colon ∷ ((print v ++ more_fields fs) ++ rest)) e object_colon k)
        ≡ rev_loop f (reading (more_fields fs ++ rest) e object_comma k)
  unfolding rev_loop print
  value_round (text t r) end f h = rw (h, rev_loop)
  value_round (text t r) (field n q v fs) f h = rw (h, rev_loop)
  value_round (atom b) end f h = refl
  value_round (atom b) (field n q v fs) f h = refl
  value_round (arr xs) fs f h = absurd h
  value_round (obj xs) fs f h = absurd h

  module _ (raw rev source : Bytes) (fs : Fields) where
    -- the member that holds the revision, and what follows it
    abbrev rev_member : Fields
    rev_member = field (str "_rev") raw (text rev source) fs

    found :
        (f : ℕ)
        → rev_loop (suc f) (reading (more_fields rev_member ++ rest) e object_comma k) ≡ ok rev
    unfolding rev_loop print equal
    found f = at_tail fs f
      where
        at_tail :
            (gs : Fields) (f : ℕ)
            → rev_loop (suc f) (
                reading
                  (more_fields (field (str "_rev") raw (text rev source) gs) ++ rest)
                  e
                  object_comma
                  k)
              ≡ ok rev
        at_tail end f = refl
        at_tail (field n q v gs) f = refl

    rev_loop-more :
        (pre : List Member) (f : ℕ)
        → All IsPassed pre
        → 2 * length pre < f
        → rev_loop f (reading (more_fields (members pre rev_member) ++ rest) e object_comma k)
          ≡ ok rev
    unfolding rev_loop print
    rev_loop-more pre zero h lt = elim lt [ ]
    rev_loop-more [] (suc f) h lt = found f
    rev_loop-more (x ∷ pre) (suc zero) h lt = absurd (omega arith)
    rev_loop-more (x ∷ pre) (suc (suc f)) ((name, other), h) lt =
        rw (name, rev_loop)
          (value_round x.value (members pre rev_member) f other
            ∙ rev_loop-more pre f h (omega arith))

    rev_loop-start :
        (n q : Bytes) (v : Value) (gs : Fields) (f : ℕ)
        → rev_loop (suc f) (reading (print_fields (field n q v gs) ++ rest) e object_start k)
          ≡ rev_loop (suc f) (reading (more_fields (field n q v gs) ++ rest) e object_comma k)
    unfolding rev_loop print
    rev_loop-start n q v gs f = refl

length-members :
    (pre : List Member) (fs : Fields) (rest : List Lexeme)
    → 2 * length pre < length (more_fields (members pre fs) ++ rest)
unfolding print
length-members [] end rest = omega arith
length-members [] (field n r v fs) rest = omega arith
length-members (x ∷ pre) fs rest = omega (
  arith,
  length-append {0} (print x.value ++ more_fields (members pre fs)) rest,
  length-append {0} (print x.value) (more_fields (members pre fs)),
  length-append {0} (more_fields (members pre fs)) rest,
  length-members pre fs rest,
)

-- A document in which only scalar members stand before `_rev`, none of them the string "_rev":
-- readRev returns the revision, whatever follows.
pub read_rev-found :
    (pre : List Member) (raw rev source : Bytes) (fs : Fields) (rest : List Lexeme) (e : Error)
    → All IsPassed pre
    → read_rev (
        reading
          (print (obj (members pre (field (str "_rev") raw (text rev source) fs))) ++ rest)
          e
          top_value
          [])
      ≡ ok rev
unfolding read_rev token print
read_rev-found [] raw rev source fs rest e h =
    let n = length (print_fields (field (str "_rev") raw (text rev source) fs) ++ rest) in
    rev_loop-start rest e (top_value ∷ []) raw rev source fs (str "_rev") raw (text rev source) fs n
    ∙ found rest e (top_value ∷ []) raw rev source fs n
read_rev-found (x ∷ pre) raw rev source fs rest e h =
    let gs = members pre (field (str "_rev") raw (text rev source) fs) in
    rev_loop-start rest e (top_value ∷ []) raw rev source fs x.name x.raw x.value gs
      (length (print_fields (field x.name x.raw x.value gs) ++ rest))
    ∙ rev_loop-more rest e (top_value ∷ []) raw rev source fs (x ∷ pre)
        (suc (length (print_fields (field x.name x.raw x.value gs) ++ rest))) h
        (omega (arith, length-members (x ∷ pre) (field (str "_rev") raw (text rev source) fs) rest))

-- The loop looks at values as it looks at keys: where the first member's value is the string
-- "_rev", the key of the second member is returned as the revision.
pub read_rev-misled :
    (name raw source name2 raw2 : Bytes) (v : Value) (fs : Fields) (rest : List Lexeme) (e : Error)
    → equal name (str "_rev") ≡ false
    → read_rev (
        reading
          (print (obj (field name raw (text (str "_rev") source) (field name2 raw2 v fs))) ++ rest)
          e
          top_value
          [])
      ≡ ok name2
unfolding read_rev token print
read_rev-misled name raw source name2 raw2 v fs rest e h =
    rw (h, rev_loop) (rw (equal_refl (str "_rev"), rev_loop))

-- ===== src/Iter/Frame.antt =====
-- `begin` and the loop of `finish` on a printed response.
use couchdb.Common.{
  ℕ, zero, suc, ◌<◌, Bytes, is_empty, true, false, List, [], ◌∷◌, ◌++◌, none, some, length, All,
  ◌≡◌, refl, ap, ◌∙◌, arith,
}
use couchdb.Errors.{Error, and_then}
use couchdb.Json.{Lexeme, TokenState, object_comma, value_allowed, value_end}
use couchdb.Json.Print.{
  Value, arr, obj, Items, Fields, end, field, print, print_fields, more_fields,
}
use couchdb.Json.Read.{token, more}
use couchdb.Json.Read.Values.{reading}
use couchdb.Iter.{Parser, begin, finish_loop}
use couchdb.Iter.Response.{
  Member, members, ReadsMember, collect, at_rows, Skipped, begin_loop-more, begin_loop-start,
  length-members, parse_meta-member,
}

-- the lexemes left where the next item or the closing bracket of the rows stands
module _ {Meta Row : Type 0} (p : Parser Meta Row) (g : Bytes → Value → Meta → Meta)
    (rest : List Lexeme) (e : Error) (s : TokenState) (k : List TokenState) where
  pub begin-response :
      (pre : List Member) (key kraw : Bytes) (xs : Items) (fs : Fields) (m : Meta)
      → value_allowed s ≡ true
      → is_empty key ≡ false
      → All (Skipped p g key) pre
      → begin p key false (record {
        meta = some m;
        dec = reading (print (obj (members pre (field key kraw (arr xs) fs))) ++ rest) e s k;
      })
        ≡ (none, at_rows p g key kraw xs fs rest e (s ∷ k) (collect p g pre m))
  unfolding begin token print
  begin-response [] key kraw xs fs m allowed ne h =
      rw (allowed, ne, begin, token)
        (begin_loop-start p key key kraw (arr xs) fs rest e (s ∷ k) m
            (length (print_fields (field key kraw (arr xs) fs) ++ rest))
          ∙ begin_loop-more p g key kraw xs fs rest e (s ∷ k) [] m
              (suc (length (print_fields (field key kraw (arr xs) fs) ++ rest))) h (omega arith))
  begin-response (x ∷ pre) key kraw xs fs m allowed ne h =
      let left = length (print_fields (members (x ∷ pre) (field key kraw (arr xs) fs)) ++ rest) in
      rw (allowed, ne, begin, token)
        (begin_loop-start p key x.name x.raw x.value (members pre (field key kraw (arr xs) fs)) rest
            e (s ∷ k) m left
          ∙ begin_loop-more p g key kraw xs fs rest e (s ∷ k) (x ∷ pre) m (suc left) h
              (omega (arith, length-members (x ∷ pre) (field key kraw (arr xs) fs) rest)))

  -- the loop behind the rows reads the members that are left, up to the closing brace
  pub finish_loop-members :
      (post : List Member) (m : Meta) (f : ℕ)
      → All (ReadsMember p g) post
      → length post < f
      → finish_loop p f (record {
        meta = some m;
        dec = reading (more_fields (members post end) ++ rest) e object_comma (s ∷ k);
      })
        ≡ (none, record { meta = some (collect p g post m); dec = reading rest e (value_end s) k })
  unfolding finish_loop token print more
  finish_loop-members [] m zero h lt = elim lt [ ]
  finish_loop-members [] m (suc f) h lt = refl
  finish_loop-members (x ∷ post) m zero h lt = elim lt [ ]
  finish_loop-members (x ∷ post) m (suc f) (reads, h) lt =
      ap (λ q. and_then q (finish_loop p f))
        (parse_meta-member p g rest e (s ∷ k) x (members post end) m reads)
      ∙ finish_loop-members post (g x.name x.value m) f h (omega arith)

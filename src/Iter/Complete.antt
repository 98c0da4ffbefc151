-- ===== src/Iter/Complete.antt =====
-- The rows of a whole response, read through a fresh iterator.
use couchdb.Common.{
  ℕ, zero, suc, ◌<◌, Bytes, is_empty, false, List, [], ◌∷◌, ◌++◌, none, some, All, ◌≡◌, ap, ◌∙◌,
  append_assoc, refl,
}
use couchdb.Errors.{Error, eof}
use couchdb.Json.{Lexeme, top_value, array_start, object_value, new_decoder}
use couchdb.Json.Print.{Value, Items, print, print_items, more_fields, end}
use couchdb.Json.Read.Values.{reading}
use couchdb.Iter.{Parser, Iter, new_iter, next, after_begin}
use couchdb.Iter.Body.{Reader, close_reader}
use couchdb.Iter.Response.{Member, members, response, ReadsMember, ReadsItem, Skipped, collect}
use couchdb.Iter.Frame.{begin-response}
use couchdb.Iter.Drain.{drain, stop_or, running, ended, fills, size, AllItems, drain-first}

module _ {Meta Row : Type 0} (p : Parser Meta Row) (g : Bytes → Value → Meta → Meta)
    (f : Row → Value → Row) (key kraw : Bytes) (b : Reader) (pre post : List Member) (xs : Items)
    (rest : List Lexeme) (e : Error) where
  abbrev fresh : Meta → Iter Meta
  fresh m = new_iter (some m) key b (new_decoder (print (response pre key kraw xs post) ++ rest) e)

  first_call :
      (m : Meta) (row : Row)
      → is_empty key ≡ false
      → All (Skipped p g key) pre
      → next p row (fresh m)
        ≡ next p row (
            running p g f key
              (some b)
              (new_decoder (print (response pre key kraw xs post) ++ rest) e)
              (collect p g pre m)
              (reading
                (print_items xs ++ (more_fields (members post end) ++ rest))
                e
                array_start
                (object_value ∷ top_value ∷ [])))
  unfolding next
  first_call m row named h =
      ap (after_begin p row (fresh m))
        (begin-response p g rest e top_value [] pre key kraw xs (members post end) m refl named h)
      ∙ rw append_assoc

-- The response `{ pre, key: [ rows ], post }`, whatever follows it: if the key of the rows is not
-- empty, none of the members before the rows has it as its name, the parser reads every other member
-- and every row without an error, closing the body gives no error, and the client calls `next` more
-- often than there are rows, then the calls give every row, in order, then io.EOF; the iterator is
-- closed, the metadata is that of all the other members, and the decoder stands behind the object.
pub drain-response :
    {Meta Row : Type 0} (p : Parser Meta Row) (g : Bytes → Value → Meta → Meta)
    (f : Row → Value → Row) (key kraw : Bytes) (b : Reader) (pre post : List Member) (xs : Items)
    (rest : List Lexeme) (e : Error) (m : Meta) (row : Row) (n : ℕ)
    → is_empty key ≡ false
    → (close_reader b).0 ≡ none
    → All (Skipped p g key) pre
    → All (ReadsMember p g) post
    → AllItems (ReadsItem p f) xs
    → size xs < n
    → drain p n row
        (new_iter (some m) key b (new_decoder (print (response pre key kraw xs post) ++ rest) e))
      ≡ (
        fills f row xs,
        some eof,
        ended p g f key
            (some b)
            (new_decoder (print (response pre key kraw xs post) ++ rest) e)
            (collect p g post (collect p g pre m))
            (reading rest e top_value []),
      )
unfolding drain
drain-response p g f key kraw b pre post xs rest e m row zero named clean hp hq hx lt = elim lt [ ]
drain-response p g f key kraw b pre post xs rest e m row (suc n) named clean hp hq hx lt =
    ap (λ q. stop_or q (drain p n)) (first_call p g f key kraw b pre post xs rest e m row named hp)
    ∙ drain-first p g f key (some b) _ rest e top_value [] post named clean hq xs
        (collect p g pre m) row (suc n) hx lt

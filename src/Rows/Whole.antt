-- ===== src/Rows/Whole.antt =====
-- A whole result read through `rows`: views and documents, mango queries, bulk documents.
use couchdb.Common.{
  ℕ, ◌<◌, Bytes, str, equal, true, false, List, ◌++◌, none, some, All, ◌≡◌, refl, ap, ◌∙◌, [], ◌∷◌,
}
use couchdb.Errors.{Error, eof, Err, ok}
use couchdb.Json.{Lexeme, new_decoder, Raw, Decoder}
use couchdb.Json.Print.{Value, Items, nil, cons, print}
use couchdb.Json.Read.{decode}
use couchdb.Json.Into.{decode_into}
use couchdb.Iter.{Parser}
use couchdb.Iter.Body.{Reader, close_reader}
use couchdb.Iter.Response.{Member, response, ReadsMember, ReadsItem, Skipped, collect}
use couchdb.Iter.Drain.{Drained, drain, fills, size, AllItems}
use couchdb.Iter.Complete.{drain-response}
use couchdb.Rows.Told.{
  set_member, told_meta, collect-told, told_row, told_rows, IsRow, fill_row-told,
}
use couchdb.Rows.{
  RowsMeta, empty_meta, meta_key, set_meta, parse_rows_meta, Row, fill_row, row_parser, fill_doc,
  find_parser, new_rows, new_find_rows,
}

-- the member's value has the type that its name asks for
abbrev pub FitsMeta : Member → Type 0
FitsMeta x = (m : RowsMeta) → (set_meta (meta_key x.name) (print x.value) m).0 ≡ none

abbrev pub Foreign : Bytes → Member → Type 0
Foreign key x = (equal x.name key ≡ false) × FitsMeta x

pub decode_into-ok :
    {A : Type 0} (f : Raw → A → Err × A) (a : A) (raw : Raw) (d d' : Decoder)
    → decode d ≡ (ok raw, d')
    → (f raw a).0 ≡ none
    → decode_into f a d ≡ (none, (f raw a).1, d')
unfolding decode_into
decode_into-ok f a raw d d' eq fine =
    rw (ap (λ q. q.0) eq, decode_into) (rw (ap (λ q. q.1) eq) (rw (fine) refl))

module _ (fill : Raw → Row → Err × Row) where
  abbrev pub parser_of : Parser RowsMeta Row
  parser_of = record {
    decode_item = λ row d. decode_into fill row d;
    parse_meta = some parse_rows_meta;
  }

  abbrev pub filled : Row → Value → Row
  filled r v = (fill (print v) r).1

  abbrev pub Fits : Value → Type 0
  Fits v = (r : Row) → (fill (print v) r).0 ≡ none

  reads_item : (v : Value) → Fits v → ReadsItem parser_of filled v
  reads_item v h r d d' eq = decode_into-ok fill r (print v) d d' eq (h r)

  pub reads_items : (xs : Items) → AllItems Fits xs → AllItems (ReadsItem parser_of filled) xs
  reads_items nil h = tt
  reads_items (cons v vs) (hv, h) = (reads_item v hv, reads_items vs h)

  reads_member : (x : Member) → FitsMeta x → ReadsMember parser_of set_member x
  unfolding parse_rows_meta
  reads_member x h m d d' eq =
      ap (λ q. (q.0, record { meta = some q.1; dec = q.2 }))
        (decode_into-ok (set_meta (meta_key x.name)) m (print x.value) d d' eq (h m))

  pub reads_members :
      (xs : List Member) → All FitsMeta xs → All (ReadsMember parser_of set_member) xs
  reads_members [] h = tt
  reads_members (x ∷ xs) (hx, h) = (reads_member x hx, reads_members xs h)

  pub skips :
      (key : Bytes) (xs : List Member)
      → All (Foreign key) xs
      → All (Skipped parser_of set_member key) xs
  skips key [] h = tt
  skips key (x ∷ xs) ((ne, hx), h) = ((ne, reads_member x hx), skips key xs h)

-- Rows that kivik unmarshals: what fills a row gives no error, and the rows are those that the result
-- tells of.
told-Fits :
    (u : Raw → Row → Err × Row) (xs : Items)
    → AllItems (IsRow u) xs
    → AllItems (Fits (fill_row u)) xs
told-Fits u nil h = tt
told-Fits u (cons v vs) (hv, h) = ((λ r. ap (λ q. q.0) (fill_row-told u v r hv)), told-Fits u vs h)

fills-told :
    (u : Raw → Row → Err × Row) (xs : Items) (row : Row)
    → AllItems (IsRow u) xs
    → fills (filled (fill_row u)) row xs ≡ told_rows u row xs
fills-told u nil row h = refl
fills-told u (cons v vs) row (hv, h) =
    rw (filled, fill_row-told u v row hv)
      (ap (λ rs. told_row u v (u (print v) row).1 ∷ rs)
        (fills-told u vs (told_row u v (u (print v) row).1) h))

-- the calls of `next` on a view's result
abbrev pub read_rows :
    (Raw → Row → Err × Row) → ℕ → Row → Reader → List Lexeme → Error → Drained RowsMeta Row
read_rows u n row b ls e = drain (row_parser u) n row (new_rows b (new_decoder ls e))

-- A view's result, or a list of documents: if every other member has the type that its name asks
-- for, none before the rows is itself named rows, kivik unmarshals every row, and closing the body
-- gives no error, then more calls of `next` than there are rows give every row in order, with the
-- texts of its members `value` and `doc`, then io.EOF; the rows are closed, and the offset, the total,
-- the sequence ID, the warning and the bookmark of their metadata are those of the last member of
-- that name.
pub drain-new_rows :
    (unmarshal_row : Raw → Row → Err × Row) (kraw : Bytes) (b : Reader) (pre post : List Member)
    (xs : Items) (rest : List Lexeme) (e : Error) (row : Row) (n : ℕ)
    → (close_reader b).0 ≡ none
    → All (Foreign (str "rows")) pre
    → All FitsMeta post
    → AllItems (IsRow unmarshal_row) xs
    → size xs < n
    → ((read_rows unmarshal_row n row b
          (print (response pre (str "rows") kraw xs post) ++ rest)
          e).0
        ≡ told_rows unmarshal_row row xs)
      × ((read_rows unmarshal_row n row b
            (print (response pre (str "rows") kraw xs post) ++ rest)
            e).1
          ≡ some eof)
      × ((read_rows unmarshal_row n row b
            (print (response pre (str "rows") kraw xs post) ++ rest)
            e).2.meta
          ≡ some (told_meta post (told_meta pre empty_meta)))
      × ((read_rows unmarshal_row n row b
            (print (response pre (str "rows") kraw xs post) ++ rest)
            e).2.closed
          ≡ true)
unfolding row_parser
drain-new_rows u kraw b pre post xs rest e row n clean hp hq hx lt =
    let p = row_parser u in
    let whole =
      drain-response p set_member (filled (fill_row u)) (str "rows") kraw b pre post xs rest e
        empty_meta row n refl clean (skips (fill_row u) (str "rows") pre hp)
        (reads_members (fill_row u) post hq) (reads_items (fill_row u) xs (told-Fits u xs hx)) lt in
    (
      ap (λ q. q.0) whole ∙ fills-told u xs row hx,
      ap (λ q. q.1) whole,
      ap (λ q. q.2.meta) whole
          ∙ ap some (
              collect-told p post (collect p set_member pre empty_meta)
              ∙ ap (told_meta post) (collect-told p pre empty_meta)),
      ap (λ q. q.2.closed) whole,
    )

pub Fits-doc : (xs : Items) → AllItems (Fits fill_doc) xs
unfolding fill_doc
Fits-doc nil = tt
Fits-doc (cons v vs) = ((λ r. refl), Fits-doc vs)

-- the documents of a result, as the rows that hold their JSON text
abbrev pub documents : Row → Items → List Row
documents row nil = []
documents row (cons v vs) =
    record row { doc = some (print v) } ∷ documents (record row { doc = some (print v) }) vs

fills-documents : (xs : Items) (row : Row) → fills (filled fill_doc) row xs ≡ documents row xs
unfolding fill_doc
fills-documents nil row = refl
fills-documents (cons v vs) row =
    ap (λ rs. record row { doc = some (print v) } ∷ rs)
      (fills-documents vs (record row { doc = some (print v) }))

-- The result of a Mango query: whatever JSON values the documents are, `next` gives the text of each
-- one in order, and then io.EOF, if the other members have the types that their names ask for, none
-- before the documents is itself named docs, closing the body gives no error, and there are more
-- calls of `next` than documents.
pub drain-new_find_rows :
    (kraw : Bytes) (b : Reader) (pre post : List Member) (xs : Items) (rest : List Lexeme)
    (e : Error) (row : Row) (n : ℕ)
    → (close_reader b).0 ≡ none
    → All (Foreign (str "docs")) pre
    → All FitsMeta post
    → size xs < n
    → ((drain find_parser n row (
          new_find_rows b
            (new_decoder (print (response pre (str "docs") kraw xs post) ++ rest) e))).0
        ≡ documents row xs)
      × ((drain find_parser n row (
            new_find_rows b
              (new_decoder (print (response pre (str "docs") kraw xs post) ++ rest) e))).1
          ≡ some eof)
unfolding find_parser
drain-new_find_rows kraw b pre post xs rest e row n clean hp hq lt =
    let whole =
      drain-response find_parser set_member (filled fill_doc) (str "docs") kraw b pre post xs rest e
        empty_meta row n refl clean (skips fill_doc (str "docs") pre hp)
        (reads_members fill_doc post hq) (reads_items fill_doc xs (Fits-doc xs)) lt in
    (ap (λ q. q.0) whole ∙ fills-documents xs row, ap (λ q. q.1) whole)

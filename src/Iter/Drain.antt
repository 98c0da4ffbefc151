-- ===== src/Iter/Drain.antt =====
-- A client that calls `next` until it gets an error, over a whole response.
use couchdb.Common.{
  ℕ, zero, suc, ◌<◌, Bytes, is_empty, true, false, List, [], ◌∷◌, ◌++◌, Option, none, some, length,
  All, ◌≡◌, refl, ap, ◌∙◌, append_assoc, arith,
}
use couchdb.Errors.{close_arr, Error, eof, Err, ok}
use couchdb.Json.{
  Lexeme, delim, comma, TokenState, array_start, array_comma, object_value, value_end, Decoder,
}
use couchdb.Json.Print.{Value, Items, nil, cons, end, print, print_items, more_items, more_fields}
use couchdb.Json.Read.{token, decode, more, closes_arr}
use couchdb.Json.Read.Values.{reading, decode-print, decode-comma, more-print}
use couchdb.Iter.{
  Parser, Iter, close_body, finish, finish_body, next, next_row, closing, ending, settle,
}
use couchdb.Iter.Body.{Reader}
use couchdb.Iter.Response.{Member, members, ReadsMember, ReadsItem, collect, length-members}
use couchdb.Iter.Frame.{finish_loop-members}

-- The rows, the error that ended them, and the iterator; no error where the calls ran out first.
abbrev pub Drained : Type 0 → Type 0 → Type 0
Drained Meta Row = List Row × Err × Iter Meta

abbrev pub add_row : {Meta Row : Type 0} → Row → Drained Meta Row → Drained Meta Row
add_row row (rows, e, i) = (row ∷ rows, e, i)

abbrev pub stop_or :
    {Meta Row : Type 0}
    → Err × Row × Iter Meta
    → (Row → Iter Meta → Drained Meta Row)
    → Drained Meta Row
stop_or (some e, row, i) k = ([], some e, i)
stop_or (none, row, i) k = add_row row (k row i)

-- `n` calls of `next` at most, each into the row of the call before
unfoldable pub drain :
    {Meta Row : Type 0} → Parser Meta Row → ℕ → Row → Iter Meta → Drained Meta Row
drain p zero row i = ([], none, i)
drain p (suc n) row i = stop_or (next p row i) (drain p n)

abbrev pub fills : {Row : Type 0} → (Row → Value → Row) → Row → Items → List Row
fills f r nil = []
fills f r (cons v vs) = f r v ∷ fills f (f r v) vs

abbrev pub size : Items → ℕ
size nil = 0
size (cons v vs) = suc (size vs)

abbrev pub AllItems : (Value → Type 0) → Items → Type 0
AllItems P nil = Unit
AllItems P (cons v vs) = P v × AllItems P vs

-- a row behind another one: `Decode` takes the comma too
decode_next :
    (v : Value) (vs : Items) (rest : List Lexeme) (e : Error) (k : List TokenState)
    → decode (reading (more_items (cons v vs) ++ rest) e array_comma k)
      ≡ (ok (print v), reading (more_items vs ++ rest) e array_comma k)
unfolding print
decode_next v nil rest e k = rw (append_assoc (print v)) (decode-comma v (delim close_arr) rest e k)
decode_next v (cons w vs) rest e k =
    rw (append_assoc (print v) (more_items (cons w vs)) rest) (decode-comma v comma _ e k)

decode_first :
    (v : Value) (vs : Items) (rest : List Lexeme) (e : Error) (k : List TokenState)
    → decode (reading (print_items (cons v vs) ++ rest) e array_start k)
      ≡ (ok (print v), reading (more_items vs ++ rest) e array_comma k)
unfolding print
decode_first v nil rest e k =
    rw (append_assoc (print v)) (decode-print v (delim close_arr) rest e k array_start refl)
decode_first v (cons w vs) rest e k =
    rw (append_assoc (print v) (more_items (cons w vs)) rest)
      (decode-print v comma _ e k array_start refl)

module _ {Meta Row : Type 0} (p : Parser Meta Row) (g : Bytes → Value → Meta → Meta)
    (f : Row → Value → Row) (key : Bytes) (b : Option Reader) (source : Decoder) where
  -- an iterator whose decoder is `d`
  abbrev pub running : Meta → Decoder → Iter Meta
  running m d = record {
    meta = some m;
    expected_key = key;
    body = b;
    source = source;
    obj_mode = false;
    dec = some d;
    closed = false;
  }

  abbrev pub ended : Meta → Decoder → Iter Meta
  ended m d = record (running m d) { body = (close_body b).1; closed = true }

  module _ (rest : List Lexeme) (e : Error) (t : TokenState) (k : List TokenState)
      (post : List Member) (named : is_empty key ≡ false) (clean : (close_body b).0 ≡ none)
      (reads : All (ReadsMember p g) post) where
    abbrev pub behind : List Lexeme
    behind = more_fields (members post end) ++ rest

    abbrev pub last : TokenState → Decoder
    last s = reading (delim close_arr ∷ behind) e s (object_value ∷ t ∷ k)

    pub next-running :
        (m : Meta) (d : Decoder) (row : Row)
        → next p row (running m d) ≡ settle p (running m d) (next_row p row d)
    unfolding next
    next-running m d row = refl

    finish_body-last :
        (s : TokenState) (m : Meta)
        → closes_arr s ≡ true
        → finish_body p key false (record { meta = some m; dec = last s }) ≡ (
          none,
          record { meta = some (collect p g post m); dec = reading rest e (value_end t) k },
        )
    unfolding finish_body token
    finish_body-last s m h =
        rw (named, h, finish_body, token)
          (finish_loop-members p g rest e t k post m (suc (length behind)) reads
            (omega (arith, length-members post end rest)))

    -- at the closing bracket `finish` reads what is left, closes the body, and reports no error
    pub finish-last :
        (s : TokenState) (m : Meta)
        → closes_arr s ≡ true
        → finish p (running m (last s)) (last s)
          ≡ (none, ended (collect p g post m) (reading rest e (value_end t) k))
    unfolding finish
    finish-last s m h = ap (closing p (running m (last s))) (finish_body-last s m h) ∙ rw clean

    next_row-last : (s : TokenState) (row : Row) → next_row p row (last s) ≡ (some eof, row, last s)
    unfolding next_row more
    next_row-last s row = refl

    pub next-last :
        (s : TokenState) (m : Meta) (row : Row)
        → closes_arr s ≡ true
        → next p row (running m (last s))
          ≡ (some eof, row, ended (collect p g post m) (reading rest e (value_end t) k))
    unfolding next
    next-last s m row h =
        ap (settle p (running m (last s))) (next_row-last s row)
        ∙ ap (ending p row) (finish-last s m h)

    next_row-more :
        (v : Value) (vs : Items) (row : Row)
        → ReadsItem p f v
        → next_row p row
            (reading (more_items (cons v vs) ++ behind) e array_comma (object_value ∷ t ∷ k))
          ≡ (none, f row v, reading (more_items vs ++ behind) e array_comma (object_value ∷ t ∷ k))
    unfolding next_row more print
    next_row-more v vs row h = h row _ _ (decode_next v vs behind e (object_value ∷ t ∷ k))

    next_row-first :
        (v : Value) (vs : Items) (row : Row)
        → ReadsItem p f v
        → next_row p row
            (reading (print_items (cons v vs) ++ behind) e array_start (object_value ∷ t ∷ k))
          ≡ (none, f row v, reading (more_items vs ++ behind) e array_comma (object_value ∷ t ∷ k))
    unfolding next_row
    next_row-first v vs row h =
        rw (starts, next_row) (h row _ _ (decode_first v vs behind e (object_value ∷ t ∷ k)))
      where
        starts : more (print_items (cons v vs) ++ behind) ≡ true
        starts =
            unfold print in rw (append_assoc (print v)) (more-print v (more_items vs ++ behind))

    pub next-more :
        (v : Value) (vs : Items) (m : Meta) (row : Row)
        → ReadsItem p f v
        → next p row (
            running m
              (reading (more_items (cons v vs) ++ behind) e array_comma (object_value ∷ t ∷ k)))
          ≡ (
            none,
            f row v,
            running m (reading (more_items vs ++ behind) e array_comma (object_value ∷ t ∷ k)),
          )
    next-more v vs m row h =
        next-running m _ row ∙ ap (settle p (running m _)) (next_row-more v vs row h)

    pub next-first :
        (v : Value) (vs : Items) (m : Meta) (row : Row)
        → ReadsItem p f v
        → next p row (
            running m
              (reading (print_items (cons v vs) ++ behind) e array_start (object_value ∷ t ∷ k)))
          ≡ (
            none,
            f row v,
            running m (reading (more_items vs ++ behind) e array_comma (object_value ∷ t ∷ k)),
          )
    next-first v vs m row h =
        next-running m _ row ∙ ap (settle p (running m _)) (next_row-first v vs row h)

    drain-more :
        (vs : Items) (m : Meta) (row : Row) (n : ℕ)
        → AllItems (ReadsItem p f) vs
        → size vs < n
        → drain p n row
            (running m (reading (more_items vs ++ behind) e array_comma (object_value ∷ t ∷ k)))
          ≡ (fills f row vs, some eof, ended (collect p g post m) (reading rest e (value_end t) k))
    unfolding drain print
    drain-more vs m row zero h lt = elim lt [ ]
    drain-more nil m row (suc n) h lt =
        ap (λ q. stop_or q (drain p n)) (next-last array_comma m row refl)
    drain-more (cons v vs) m row (suc n) (hv, h) lt =
        ap (λ q. stop_or q (drain p n)) (next-more v vs m row hv)
        ∙ ap (add_row (f row v)) (drain-more vs m (f row v) n h (omega arith))

    pub drain-first :
        (vs : Items) (m : Meta) (row : Row) (n : ℕ)
        → AllItems (ReadsItem p f) vs
        → size vs < n
        → drain p n row
            (running m (reading (print_items vs ++ behind) e array_start (object_value ∷ t ∷ k)))
          ≡ (fills f row vs, some eof, ended (collect p g post m) (reading rest e (value_end t) k))
    unfolding drain print
    drain-first vs m row zero h lt = elim lt [ ]
    drain-first nil m row (suc n) h lt =
        ap (λ q. stop_or q (drain p n)) (next-last array_start m row refl)
    drain-first (cons v vs) m row (suc n) (hv, h) lt =
        ap (λ q. stop_or q (drain p n)) (next-first v vs m row hv)
        ∙ ap (add_row (f row v)) (drain-more vs m (f row v) n h (omega arith))

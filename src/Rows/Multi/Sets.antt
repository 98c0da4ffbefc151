-- ===== src/Rows/Multi/Sets.antt =====
-- The result sets of several queries, one behind the other.
use couchdb.Common.{
  length, sym, ℕ, suc, ◌+◌, Bytes, str, true, false, List, [], ◌∷◌, ◌++◌, none, some, ◌≡◌, refl, ap,
  ◌∙◌, All, append_assoc, arith,
}
use couchdb.Errors.{Error, eof, close_arr, Err}
use couchdb.Json.{
  Lexeme, delim, comma, TokenState, top_value, array_start, array_value, array_comma, object_value,
  Decoder, value_end, value_allowed,
}
use couchdb.Json.Print.{Value, Items, nil, cons, end, print, print_items, more_items, more_fields}
use couchdb.Json.Read.{token}
use couchdb.Json.Read.Values.{reading}
use couchdb.Iter.{Parser, Iter, Work, begin, next, update}
use couchdb.Iter.Response.{members, ReadsMember, ReadsItem, Skipped, collect}
use couchdb.Iter.Frame.{begin-response}
use couchdb.Iter.Drain.{running, ended, next-more, next-first, next-last, AllItems}
use couchdb.Rows.{RowsMeta, empty_meta, Row, next_of}
use couchdb.Rows.Multi.{
  Multi, rows_over, close_multi, begun, next_query, give_row, next_in_rows, next_multi,
}
use couchdb.Rows.Multi.Spec.{
  ResultSet, set_value, items_of, Outcomes, add_outcome, add_outcomes, add_outcomes-append,
  stop_multi, drain_multi, cleared, given_rows, last_row, expected_outcomes, set_calls, all_calls,
  Readable,
}

module _ (p : Parser RowsMeta Row) (g : Bytes → Value → RowsMeta → RowsMeta) (f : Row → Value → Row)
    (quote : Bytes → Bytes) (source : Decoder) (e : Error) (tail : List Lexeme) where
  abbrev pub nested : List TokenState
  nested = object_value ∷ top_value ∷ []

  -- the iterator with the rows `i` of query `q`
  abbrev pub opened : Iter RowsMeta → ℕ → Multi
  opened i q = record {
    rows = some i;
    source = source;
    read_all = none;
    body_close = none;
    started = true;
    query_index = q;
    closed = 0;
    legacy = false;
  }

  module _ (src : Decoder) (rest : List Lexeme) (t : TokenState) (s : ResultSet) (m : RowsMeta)
      (q : ℕ) (readable : All (ReadsMember p g) s.post) where
    abbrev rows_left : TokenState → List Lexeme → Multi
    rows_left state ls =
        opened
          (running p g f (str "rows") none src m (
            reading (ls ++ (more_fields (members s.post end) ++ rest)) e state
              (object_value ∷ t ∷ nested)))
          q

    abbrev set_ended : Multi
    set_ended =
        opened
          (ended p g f (str "rows") none src (collect p g s.post m)
            (reading rest e (value_end t) nested))
          q

    next-opened :
        (row : Row) (i : Iter RowsMeta)
        → i.closed ≡ false
        → next_multi p quote row (opened i q)
          ≡ give_row p quote (opened i q) (next p (cleared row) i)
    unfolding next_multi next_in_rows next_of
    next-opened row i h = rw h refl

    -- one call of Next in the rows, by what the iterator makes of it
    calls_next :
        (row : Row) (i : Iter RowsMeta) (x : Err × Row × Iter RowsMeta) (n : ℕ)
        → i.closed ≡ false
        → next p (cleared row) i ≡ x
        → drain_multi p quote (suc n) row (opened i q)
          ≡ stop_multi (give_row p quote (opened i q) x) (drain_multi p quote n)
    unfolding drain_multi
    calls_next row i x n h eq =
        ap (λ r. stop_multi r (drain_multi p quote n))
          (next-opened row i h ∙ ap (give_row p quote (opened i q)) eq)

    drain-set_more :
        (vs : Items) (row : Row) (n : ℕ)
        → AllItems (ReadsItem p f) vs
        → drain_multi p quote (set_calls vs n) row (rows_left array_comma (more_items vs))
          ≡ add_outcomes (given_rows f row vs) (drain_multi p quote n (last_row f row vs) set_ended)
    unfolding print
    drain-set_more nil row n h = calls_next row _ _ n refl (
        next-last p g f (str "rows") none src rest e t nested s.post refl refl readable array_comma
          m (cleared row) refl)
    drain-set_more (cons v vs) row n (hv, h) =
        calls_next row _ _ (set_calls vs n) refl (
          next-more p g f (str "rows") none src rest e t nested s.post refl refl readable v vs m
            (cleared row) hv)
        ∙ ap (add_outcome (some (f (cleared row) v))) (drain-set_more vs (f (cleared row) v) n h)

    drain-set :
        (vs : Items) (row : Row) (n : ℕ)
        → AllItems (ReadsItem p f) vs
        → drain_multi p quote (set_calls vs n) row (rows_left array_start (print_items vs))
          ≡ add_outcomes (given_rows f row vs) (drain_multi p quote n (last_row f row vs) set_ended)
    unfolding print
    drain-set nil row n h = calls_next row _ _ n refl (
        next-last p g f (str "rows") none src rest e t nested s.post refl refl readable array_start
          m (cleared row) refl)
    drain-set (cons v vs) row n (hv, h) =
        calls_next row _ _ (set_calls vs n) refl (
          next-first p g f (str "rows") none src rest e t nested s.post refl refl readable v vs m
            (cleared row) hv)
        ∙ ap (add_outcome (some (f (cleared row) v))) (drain-set_more vs (f (cleared row) v) n h)

  pub calls_set :
      (vs : Items) (row : Row) (n : ℕ) (r r' : Multi)
      → next_multi p quote row r ≡ next_multi p quote row r'
      → drain_multi p quote (set_calls vs n) row r ≡ drain_multi p quote (set_calls vs n) row r'
  unfolding drain_multi
  calls_set nil row n r r' h = ap (λ x. stop_multi x (drain_multi p quote n)) h
  calls_set (cons v vs) row n r r' h =
      ap (λ x. stop_multi x (drain_multi p quote (set_calls vs n))) h

  -- the rows of a set behind its head
  abbrev pub set_head : Decoder → ResultSet → List Lexeme → TokenState → Iter RowsMeta
  set_head src s rest t = running p g f (str "rows") none src (collect p g s.pre empty_meta) (
      reading (print_items s.items ++ (more_fields (members s.post end) ++ rest)) e array_start
        (object_value ∷ t ∷ nested))

  abbrev pub head_source : ResultSet → List Lexeme → TokenState → Decoder
  head_source s rest t =
      reading (print_items s.items ++ (more_fields (members s.post end) ++ rest)) e array_start
        (object_value ∷ t ∷ nested)

  abbrev head_work : ResultSet → List Lexeme → TokenState → Work RowsMeta
  head_work s rest t = record {
    meta = some (collect p g s.pre empty_meta);
    dec = head_source s rest t;
  }

  pub begun-set :
      (s : ResultSet) (rest : List Lexeme) (t : TokenState)
      → value_allowed t ≡ true
      → All (Skipped p g (str "rows")) s.pre
      → begun p (reading (print (set_value s) ++ rest) e t nested) ≡ (none, head_work s rest t)
  begun-set s rest t allowed h =
      begin-response p g rest e t nested s.pre (str "rows") s.raw_key s.items (members s.post end)
        empty_meta allowed refl h
      ∙ rw append_assoc refl

  -- a set behind a comma
  begun-comma :
      (ls : List Lexeme)
      → begun p (reading (comma ∷ ls) e array_comma nested)
        ≡ begun p (reading ls e array_value nested)
  unfolding begin token
  begun-comma ls = refl

  reopened :
      (row : Row) (i : Iter RowsMeta) (q : ℕ) (d : Decoder) (w : Work RowsMeta)
      → i.closed ≡ true
      → i.dec ≡ some d
      → begun p d ≡ (none, w)
      → next_multi p quote row (opened i q)
        ≡ next_multi p quote row (opened (update (rows_over w.dec) w) (q + 1))
  unfolding next_multi next_query begin
  reopened row i q d w shut at head = rw (shut, at, head) refl

  closed_behind :
      (row : Row) (i : Iter RowsMeta) (q : ℕ) (n : ℕ)
      → i.closed ≡ true
      → i.dec ≡ some (reading (delim close_arr ∷ tail) e array_comma nested)
      → drain_multi p quote (suc n) row (opened i q) ≡ ([], some eof, q)
  unfolding drain_multi next_multi next_query close_multi begin token
  closed_behind row i q n shut at = rw (shut, at) refl

  -- the lexemes of the sets behind the current one
  abbrev pub sets_left : List ResultSet → List Lexeme
  sets_left ss = more_items (items_of ss) ++ tail

  -- a set behind its head, with the sets that follow it
  pub drain-head :
      (src : Decoder) (s : ResultSet) (ss : List ResultSet) (t : TokenState) (row : Row) (q n : ℕ)
      (o : Row → Outcomes)
      → value_end t ≡ array_comma
      → Readable p g f s
      → ((row : Row) (i : Iter RowsMeta)
          → i.closed ≡ true
          → i.dec ≡ some (reading (sets_left ss) e array_comma nested)
          → drain_multi p quote n row (opened i q) ≡ o row)
      → drain_multi p quote (set_calls s.items n) row (opened (set_head src s (sets_left ss) t) q)
        ≡ add_outcomes (given_rows f row s.items) (o (last_row f row s.items))
  drain-head src s ss t row q n o after (skipped, reads, items) k =
      drain-set src (sets_left ss) t s (collect p g s.pre empty_meta) q reads s.items row n items
      ∙ ap (add_outcomes (given_rows f row s.items)) (k _ _ refl (rw after refl))

  pub drain-sets :
      (ss : List ResultSet) (row : Row) (q n : ℕ) (i : Iter RowsMeta)
      → i.closed ≡ true
      → i.dec ≡ some (reading (sets_left ss) e array_comma nested)
      → All (Readable p g f) ss
      → drain_multi p quote (all_calls ss n) row (opened i q)
        ≡ add_outcomes (expected_outcomes f row ss) ([], some eof, q + length ss)
  unfolding print
  drain-sets [] row q n i shut at h =
      closed_behind row i q n shut at
      ∙ (let same : q ≡ q + 0 = omega arith in ap (λ k. ([], some eof, k)) same)
  drain-sets (s ∷ ss) row q n i shut at (h, hs) =
      calls_set s.items row (all_calls ss n) _ _ (
        reopened row i q _ _ shut at (
          begun-comma (print (set_value s) ++ more_items (items_of ss) ++ tail)
          ∙ rw (append_assoc, begun-set s (sets_left ss) array_value refl h.0) refl))
      ∙ drain-head (head_source s (sets_left ss) array_value) s ss array_value row (q + 1)
          (all_calls ss n)
          (λ row. add_outcomes (expected_outcomes f row ss) ([], some eof, (q + 1) + length ss))
          refl h (λ row i shut at. drain-sets ss row (q + 1) n i shut at hs)
      ∙ sym (add_outcomes-append (given_rows f row s.items) _ _)
      ∙ ap (λ k. add_outcomes (expected_outcomes f row (s ∷ ss)) ([], some eof, k)) (omega arith)

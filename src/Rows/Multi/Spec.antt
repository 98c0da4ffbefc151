-- ===== src/Rows/Multi/Spec.antt =====
-- What an iterator of several queries is to give: the rows of each result set, then its end.
use couchdb.Common.{
  ℕ, zero, suc, Bytes, str, List, [], ◌∷◌, ◌++◌, Option, none, some, ◌≡◌, refl, ap, All,
}
use couchdb.Errors.{end_of_query, Err}
use couchdb.Json.Print.{Value, Items, nil, cons}
use couchdb.Iter.{Parser}
use couchdb.Iter.Response.{Member, response, ReadsMember, ReadsItem, Skipped}
use couchdb.Iter.Drain.{AllItems}
use couchdb.Rows.{RowsMeta, Row}
use couchdb.Rows.Multi.{Multi, next_multi}

-- one result set of a response
pub record ResultSet : Type 0 where
  pub pre : List Member
  pub raw_key : Bytes
  pub items : Items
  pub post : List Member

abbrev pub set_value : ResultSet → Value
set_value s = response s.pre (str "rows") s.raw_key s.items s.post

abbrev pub items_of : List ResultSet → Items
items_of [] = nil
items_of (s ∷ ss) = cons (set_value s) (items_of ss)

-- the outcomes of the calls of Next, none for the end of a result set; then the error that ends
-- them, and the index of the query
abbrev pub Outcomes : Type 0
Outcomes = List (Option Row) × Err × ℕ

abbrev pub add_outcome : Option Row → Outcomes → Outcomes
add_outcome x (xs, e, q) = (x ∷ xs, e, q)

abbrev pub add_outcomes : List (Option Row) → Outcomes → Outcomes
add_outcomes [] o = o
add_outcomes (x ∷ xs) o = add_outcome x (add_outcomes xs o)

pub add_outcomes-append :
    (xs ys : List (Option Row)) (o : Outcomes)
    → add_outcomes (xs ++ ys) o ≡ add_outcomes xs (add_outcomes ys o)
add_outcomes-append [] ys o = refl
add_outcomes-append (x ∷ xs) ys o = ap (add_outcome x) (add_outcomes-append xs ys o)

abbrev pub stop_multi : Err × Row × Multi → (Row → Multi → Outcomes) → Outcomes
stop_multi (none, row, r) k = add_outcome (some row) (k row r)
stop_multi (some end_of_query, row, r) k = add_outcome none (k row r)
stop_multi (some e, row, r) k = ([], some e, r.query_index)

-- `n` calls of Next at most, each into the row of the call before
unfoldable pub drain_multi : Parser RowsMeta Row → (Bytes → Bytes) → ℕ → Row → Multi → Outcomes
drain_multi p quote zero row r = ([], none, r.query_index)
drain_multi p quote (suc n) row r = stop_multi (next_multi p quote row r) (drain_multi p quote n)

-- Next clears the error of the row that it is given
abbrev pub cleared : Row → Row
cleared row = record row { error = none }

module _ (f : Row → Value → Row) where
  abbrev pub given_rows : Row → Items → List (Option Row)
  given_rows row nil = none ∷ []
  given_rows row (cons v vs) = some (f (cleared row) v) ∷ given_rows (f (cleared row) v) vs

  abbrev pub last_row : Row → Items → Row
  last_row row nil = cleared row
  last_row row (cons v vs) = last_row (f (cleared row) v) vs

  -- the rows of each set, then its end
  abbrev pub expected_outcomes : Row → List ResultSet → List (Option Row)
  expected_outcomes row [] = []
  expected_outcomes row (s ∷ ss) =
      given_rows row s.items ++ expected_outcomes (last_row row s.items) ss

-- the calls that a set takes, and those of all sets, before `n` more
abbrev pub set_calls : Items → ℕ → ℕ
set_calls nil n = suc n
set_calls (cons v vs) n = suc (set_calls vs n)

abbrev pub all_calls : List ResultSet → ℕ → ℕ
all_calls [] n = suc n
all_calls (s ∷ ss) n = set_calls s.items (all_calls ss n)

-- every set can be read
module _ (p : Parser RowsMeta Row) (g : Bytes → Value → RowsMeta → RowsMeta)
    (f : Row → Value → Row) where
  abbrev pub Readable : ResultSet → Type 0
  Readable s =
      All (Skipped p g (str "rows")) s.pre
      × All (ReadsMember p g) s.post
      × AllItems (ReadsItem p f) s.items

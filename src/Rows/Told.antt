-- ===== src/Rows/Told.antt =====
-- What a result says of itself and of its rows, member by member: `rowsMeta` and `rowParser` of rows.go.
use couchdb.Common.{
  Bytes, str, equal, equal_eq, false, List, [], ◌∷◌, Option, none, some, if◌then◌else◌, ◌≡◌, refl,
  ap, ◌∙◌, ◌⊎◌, inl, inr, Bool-cases, arith,
}
use couchdb.Errors.{Err}
use couchdb.Json.{Raw}
use couchdb.Json.Print.{Value, Items, nil, cons, print}
use couchdb.Json.Into.{into_int64, into_string, into_raw, into_sequence_id, member}
use couchdb.Iter.{Parser}
use couchdb.Iter.Response.{Member, collect}
use couchdb.Rows.{RowsMeta, other_key, meta_key, set_meta, Row, or_old, with_parts, fill_row}

-- the members of that name, read one after another, so that the last one counts
abbrev pub told : {A : Type 0} → (Raw → A → Err × A) → Bytes → List Member → A → A
told f name [] a = a
told f name (x ∷ xs) a = told f name xs (if equal x.name name then (f (print x.value) a).1 else a)

-- the metadata that the members say
abbrev pub told_meta : List Member → RowsMeta → RowsMeta
told_meta xs m = record {
  offset = told into_int64 (str "offset") xs m.offset;
  total_rows = told into_int64 (str "total_rows") xs m.total_rows;
  update_seq = told into_sequence_id (str "update_seq") xs m.update_seq;
  warning = told into_string (str "warning") xs m.warning;
  bookmark = told into_string (str "bookmark") xs m.bookmark;
}

-- what a member of the result makes of the metadata
abbrev pub set_member : Bytes → Value → RowsMeta → RowsMeta
set_member key v m = (set_meta (meta_key key) (print v) m).1

known_or_not : (key name : Bytes) → (key ≡ name) ⊎ (equal key name ≡ false)
known_or_not key name = elim (Bool-cases (equal key name)) [
  | inl h ↦ inl (equal_eq key name h)
  | inr h ↦ inr h
]

meta_key-other :
    (key : Bytes)
    → equal key (str "update_seq") ≡ false
    → equal key (str "offset") ≡ false
    → equal key (str "total_rows") ≡ false
    → equal key (str "warning") ≡ false
    → equal key (str "bookmark") ≡ false
    → meta_key key ≡ other_key
unfolding meta_key
meta_key-other key n1 n2 n3 n4 n5 = rw (n1, n2, n3, n4, n5) refl

-- One member: the field of its name is read, and no other.
set_member-told : (x : Member) (m : RowsMeta) → set_member x.name x.value m ≡ told_meta (x ∷ []) m
unfolding set_meta meta_key equal into_raw
set_member-told x m = elim (known_or_not x.name (str "update_seq")) [
  | inl h ↦ rw h refl
  | inr n1 ↦ elim (known_or_not x.name (str "offset")) [
    | inl h ↦ rw h refl
    | inr n2 ↦ elim (known_or_not x.name (str "total_rows")) [
      | inl h ↦ rw h refl
      | inr n3 ↦ elim (known_or_not x.name (str "warning")) [
        | inl h ↦ rw h refl
        | inr n4 ↦ elim (known_or_not x.name (str "bookmark")) [
          | inl h ↦ rw h refl
          | inr n5 ↦
              ap (λ k. (set_meta k (print x.value) m).1) (meta_key-other x.name n1 n2 n3 n4 n5)
              ∙ rw (n1, n2, n3, n4, n5) refl
        ]
      ]
    ]
  ]
]

pub collect-told :
    {Row : Type 0} (p : Parser RowsMeta Row) (xs : List Member) (m : RowsMeta)
    → collect p set_member xs m ≡ told_meta xs m
collect-told p [] m = refl
collect-told p (x ∷ xs) m =
    collect-told p xs (set_member x.name x.value m) ∙ ap (told_meta xs) (set_member-told x m)

module _ (unmarshal_row : Raw → Row → Err × Row) where
  -- The row of a value: what kivik unmarshals, with the members `value` and `doc` of the row as the
  -- texts of the row's value and document.
  abbrev pub told_row : Value → Row → Row
  told_row v row = record row {
    value = elim (member (str "value") (print v)) [ none ↦ row.value | some raw ↦ some raw ];
    doc = elim (member (str "doc") (print v)) [ none ↦ row.doc | some raw ↦ some raw ];
  }

  -- the rows, each unmarshalled into the one before
  abbrev pub told_rows : Row → Items → List Row
  told_rows row nil = []
  told_rows row (cons v vs) =
      let next_row = told_row v (unmarshal_row (print v) row).1 in next_row ∷ told_rows next_row vs

  -- kivik unmarshals the value into any row
  abbrev pub IsRow : Value → Type 0
  IsRow v = (row : Row) → (unmarshal_row (print v) row).0 ≡ none

  or_old-told : (x old : Option Raw) → or_old x old ≡ elim x [ none ↦ old | some raw ↦ some raw ]
  or_old-told none old = refl
  or_old-told (some raw) old = refl

  with_parts-told :
      (v : Value) (q : Err × Row)
      → q.0 ≡ none
      → with_parts unmarshal_row (print v) q ≡ (none, told_row v q.1)
  with_parts-told v (none, row) h =
      rw
        (
          or_old-told (member (str "value") (print v)) row.value,
          or_old-told (member (str "doc") (print v)) row.doc,
        )
        refl
  with_parts-told v (some e, row) h = ground arith

  pub fill_row-told :
      (v : Value) (row : Row)
      → IsRow v
      → fill_row unmarshal_row (print v) row ≡ (none, told_row v (unmarshal_row (print v) row).1)
  unfolding fill_row
  fill_row-told v row h = with_parts-told v (unmarshal_row (print v) row) (h row)

-- ===== src/Iter/Response.antt =====
-- A whole response object, printed, and what an iterator reads from it.
use couchdb.Common.{
  ℕ, zero, suc, ◌<◌, Bytes, equal, equal_refl, false, List, [], ◌∷◌, ◌++◌, none, some, length,
  length-append, All, ◌≡◌, refl, ap, ◌∙◌, append_assoc, arith,
}
use couchdb.Errors.{close_obj, Error, ok, and_then}
use couchdb.Json.{
  Lexeme, delim, comma, colon, TokenState, array_start, object_start, object_comma, object_colon,
  object_value, Decoder,
}
use couchdb.Json.Print.{
  Value, arr, obj, Items, Fields, end, field, print, print_items, print_fields, more_fields,
}
use couchdb.Json.Read.{token, decode}
use couchdb.Json.Read.Values.{reading, decode-colon}
use couchdb.Iter.{Parser, Work, begin_loop, parse_meta, run_meta}

-- a member of the result object before or behind the rows
pub record Member : Type 0 where
  pub name : Bytes
  pub raw : Bytes
  pub value : Value

abbrev pub members : List Member → Fields → Fields
members [] fs = fs
members (m ∷ ms) fs = field m.name m.raw m.value (members ms fs)

-- `{ pre …, "key": [ items … ], post … }`
abbrev pub response : List Member → Bytes → Bytes → Items → List Member → Value
response pre key raw items post = obj (members pre (field key raw (arr items) (members post end)))

module _ {Meta Row : Type 0} (p : Parser Meta Row) where
  -- `parse_meta` reads the value of a member with one `Decode`, and changes the metadata by `g`.
  abbrev pub ReadsMember : (Bytes → Value → Meta → Meta) → Member → Type 0
  ReadsMember g mem =
      (m : Meta) (d d' : Decoder)
      → decode d ≡ (ok (print mem.value), d')
      → run_meta p.parse_meta (some m) mem.name d
        ≡ (none, record { meta = some (g mem.name mem.value m); dec = d' })

  -- `decode_item` reads one value with one `Decode`, and makes the row `f`.
  abbrev pub ReadsItem : (Row → Value → Row) → Value → Type 0
  ReadsItem f v =
      (r : Row) (d d' : Decoder)
      → decode d ≡ (ok (print v), d')
      → p.decode_item r d ≡ (none, f r v, d')

  -- a member before the rows: it is read, and its name is not the expected key
  abbrev pub Skipped : (Bytes → Value → Meta → Meta) → Bytes → Member → Type 0
  Skipped g key x = (equal x.name key ≡ false) × ReadsMember g x

  abbrev pub collect : (Bytes → Value → Meta → Meta) → List Member → Meta → Meta
  collect g [] m = m
  collect g (x ∷ xs) m = collect g xs (g x.name x.value m)

-- a member's value, behind its key
pub decode_member :
    (v : Value) (fs : Fields) (rest : List Lexeme) (e : Error) (k : List TokenState)
    → decode (reading (colon ∷ ((print v ++ more_fields fs) ++ rest)) e object_colon k)
      ≡ (ok (print v), reading (more_fields fs ++ rest) e object_comma k)
unfolding print
decode_member v end rest e k = rw append_assoc (decode-colon v (delim close_obj) rest e k)
decode_member v (field n r w fs) rest e k =
    rw (append_assoc (print v) (more_fields (field n r w fs)) rest) (decode-colon v comma _ e k)

module _ {Meta Row : Type 0} (p : Parser Meta Row) (g : Bytes → Value → Meta → Meta)
    (rest : List Lexeme) (e : Error) (k : List TokenState) where
  -- one member is read by `parse_meta`
  pub parse_meta-member :
      (x : Member) (fs : Fields) (m : Meta)
      → ReadsMember p g x
      → parse_meta p x.name (record {
        meta = some m;
        dec = reading (colon ∷ ((print x.value ++ more_fields fs) ++ rest)) e object_colon k;
      })
        ≡ (
          none,
          record {
            meta = some (g x.name x.value m);
            dec = reading (more_fields fs ++ rest) e object_comma k;
          },
        )
  unfolding parse_meta
  parse_meta-member x fs m h = h m _ _ (decode_member x.value fs rest e k)

module _ {Meta Row : Type 0} (p : Parser Meta Row) (g : Bytes → Value → Meta → Meta)
    (key kraw : Bytes) (xs : Items) (fs : Fields) (rest : List Lexeme) (e : Error)
    (k : List TokenState) where
  -- behind the opening bracket of the rows
  abbrev pub at_rows : Meta → Work Meta
  at_rows m = record {
    meta = some m;
    dec = reading ((print_items xs ++ more_fields fs) ++ rest) e array_start (object_value ∷ k);
  }

  abbrev pub before : List Member → Meta → Work Meta
  before pre m = record {
    meta = some m;
    dec = reading (more_fields (members pre (field key kraw (arr xs) fs)) ++ rest) e object_comma k;
  }

  pub begin_loop-more :
      (pre : List Member) (m : Meta) (f : ℕ)
      → All (Skipped p g key) pre
      → length pre < f
      → begin_loop p f key (before pre m) ≡ (none, at_rows (collect p g pre m))
  unfolding begin_loop token print
  begin_loop-more [] m zero h lt = elim lt [ ]
  begin_loop-more [] m (suc f) h lt = rw (equal_refl key, begin_loop)
  begin_loop-more (x ∷ pre) m zero h lt = elim lt [ ]
  begin_loop-more (x ∷ pre) m (suc f) ((ne, reads), h) lt =
      rw (ne, begin_loop)
        (ap (λ q. and_then q (begin_loop p f key))
            (parse_meta-member p g rest e k x (members pre (field key kraw (arr xs) fs)) m reads)
          ∙ begin_loop-more pre (g x.name x.value m) f h (omega arith))

-- The first key stands behind the brace, and the others behind a comma: the loop reads both alike.
pub begin_loop-start :
    {Meta Row : Type 0} (p : Parser Meta Row) (key name raw : Bytes) (v : Value) (fs : Fields)
    (rest : List Lexeme) (e : Error) (k : List TokenState) (m : Meta) (f : ℕ)
    → begin_loop p (suc f) key (record {
      meta = some m;
      dec = reading (print_fields (field name raw v fs) ++ rest) e object_start k;
    })
      ≡ begin_loop p (suc f) key (record {
        meta = some m;
        dec = reading (more_fields (field name raw v fs) ++ rest) e object_comma k;
      })
unfolding begin_loop token print
begin_loop-start p key name raw v fs rest e k m f = refl

pub length-members :
    (pre : List Member) (fs : Fields) (rest : List Lexeme)
    → length pre < length (more_fields (members pre fs) ++ rest)
unfolding print
length-members [] end rest = omega arith
length-members [] (field n r v fs) rest = omega arith
length-members (x ∷ pre) fs rest = omega (
  arith,
  length-append {0} (print x.value ++ more_fields (members pre fs)) rest,
  length-append {0} (print x.value) (more_fields (members pre fs)),
  length-append {0} (more_fields (members pre fs)) rest,
  length-members pre fs rest,
)

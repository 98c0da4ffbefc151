-- ===== src/Json/Into.antt =====
-- What `json.Unmarshal` does with the lexemes of one value, for the targets that the driver uses.
-- Names of struct members are compared as Go does, without regard to ASCII case; the last wins.
use couchdb.Common.{
  ℕ, zero, suc, ◌+◌, leb, equal, Bytes, str, Bool, ◌&&◌, List, [], ◌∷◌, ◌++◌, map, Option, none,
  some, trim, length, if◌then◌else◌,
}
use couchdb.Common.Int.{ℤ, parse_int64}
use couchdb.Errors.{open_obj, close_obj, open_arr, close_arr, Err, ok, err, unmarshal_type}
use couchdb.Json.{Lexeme, delim, colon, comma, string, literal, invalid, Raw, Decoder}
use couchdb.Json.Scan.{complete, value, scan}
use couchdb.Json.Read.{decode}

-- The source text of a value.
abbrev pub lexeme_text : Lexeme → Bytes
lexeme_text (delim open_obj) = str "{"
lexeme_text (delim close_obj) = str "}"
lexeme_text (delim open_arr) = str "["
lexeme_text (delim close_arr) = str "]"
lexeme_text colon = str ":"
lexeme_text comma = str ","
lexeme_text (string t r) = str "\"" ++ r ++ str "\""
lexeme_text (literal b) = b
lexeme_text invalid = []

unfoldable pub raw_text : Raw → Bytes
raw_text [] = []
raw_text (l ∷ ls) = lexeme_text l ++ raw_text ls

abbrev pub is_null : Raw → Bool
is_null raw = equal (raw_text raw) (str "null")

abbrev pub type_error {ℓ} : {A : Type ℓ} → A → Err × A
type_error a = (some unmarshal_type, a)

-- into an int64: null leaves it alone, and anything but an integer in range is refused
unfoldable pub into_int64 : Raw → ℤ → Err × ℤ
unfolding parse_int64 equal
into_int64 (literal b ∷ []) i =
    if equal b (str "null")
    then (none, i)
    else elim (parse_int64 b) [ some j ↦ (none, j) | none ↦ type_error i ]
into_int64 raw i = type_error i

-- into a string
unfoldable pub into_string : Raw → Bytes → Err × Bytes
unfolding equal
into_string (string t r ∷ []) s = (none, t)
into_string (literal b ∷ []) s = if equal b (str "null") then (none, s) else type_error s
into_string raw s = type_error s

-- into a json.RawMessage
unfoldable pub into_raw : Raw → Raw → Err × Raw
into_raw raw old = (none, raw)

-- seqid.go: sequenceID.UnmarshalJSON
unfoldable pub into_sequence_id : Raw → Bytes → Err × Bytes
unfolding raw_text trim
into_sequence_id raw id = (none, trim b'"' (raw_text raw))

-- `dec.Decode(&a)` for a target with the unmarshaller `f`
unfoldable pub decode_into {ℓ} :
    {A : Type ℓ} → (Raw → A → Err × A) → A → Decoder → Err × A × Decoder
decode_into f a d =
    let (r, d') = decode d in
    elim r [ err e ↦ (some e, a, d') | ok raw ↦ (let (e, a') = f raw a in (e, a', d')) ]

abbrev pub fold_case : ℕ → ℕ
fold_case c = if leb b'A' c && leb c b'Z' then c + 32 else c

abbrev pub equal_fold : Bytes → Bytes → Bool
equal_fold a b = equal (map fold_case a) (map fold_case b)

-- the members of an object, on fuel; the argument stands behind the opening brace or a comma
unfoldable pub members_from : ℕ → List Lexeme → List (Bytes × Raw)
unfolding scan
members_from zero ls = []
members_from (suc f) (string t r ∷ (colon ∷ ls)) = elim (scan value [] ls) [
  | complete v (comma ∷ more) ↦ (t, v) ∷ members_from f more
  | complete v rest ↦ (t, v) ∷ []
  | _ ↦ []
]
members_from (suc f) ls = []

unfoldable pub object_members : Raw → List (Bytes × Raw)
unfolding members_from
object_members (delim open_obj ∷ ls) = members_from (length ls) ls
object_members raw = []

unfoldable pub find_member : Bytes → List (Bytes × Raw) → Option Raw
unfolding equal
find_member name [] = none
find_member name ((n, v) ∷ ms) = elim (find_member name ms) [
  | some w ↦ some w
  | none ↦ (if equal_fold n name then some v else none)
]

-- the member of a struct target with that name
unfoldable pub member : Bytes → Raw → Option Raw
unfolding object_members find_member
member name raw = find_member name (object_members raw)

-- the elements of an array, on fuel
unfoldable pub elements_from : ℕ → List Lexeme → List Raw
unfolding scan
elements_from zero ls = []
elements_from (suc f) ls = elim (scan value [] ls) [
  | complete v (comma ∷ more) ↦ v ∷ elements_from f more
  | complete v rest ↦ v ∷ []
  | _ ↦ []
]

unfoldable pub array_elements : Raw → List Raw
unfolding elements_from
array_elements (delim open_arr ∷ ls) = elements_from (length ls) ls
array_elements raw = []

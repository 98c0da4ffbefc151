-- ===== src/Params.antt =====
-- json.go and `optionsToParams` of db.go: options as URL query parameters. `marshal` is
-- json.Marshal, which depends on the dynamic type of an option's value.
pub mod Encoded
use couchdb.Common.{
  ℕ, zero, suc, ◌+◌, ◌/◌, ◌%◌, ltb, Bytes, str, true, false, List, [], ◌∷◌, ◌++◌, Option, none,
  some, if◌then◌else◌,
}
use couchdb.Common.Int.{ℤ, pos, negsuc}
use couchdb.Common.Assoc.{Assoc, lookup, insert}
use couchdb.Errors.{Error, message, kivik, status_bad_request, Result, ok, err}
use couchdb.Chttp.Headers.{values}
use couchdb.Chttp.Options.{Any, text, texts, bool, int, raw_message, OptionMap}

-- encodeKey
unfoldable pub encode_key : (Any → Result Bytes) → Any → Result Bytes
encode_key marshal (raw_message b) = ok b
encode_key marshal v = elim (marshal v) [ ok b ↦ ok b | err e ↦ err (kivik status_bad_request e) ]

abbrev pub json_keys : List Bytes
json_keys =
    str "endkey"
    ∷ str "end_key"
    ∷ str "key"
    ∷ str "startkey"
    ∷ str "start_key"
    ∷ str "keys"
    ∷ str "doc_ids"
    ∷ []

-- one round of encodeKeys, and the loop; the map is changed in place, also before an error
abbrev pub encoded : Bytes → OptionMap → Result Bytes → Result (Unit {0}) × OptionMap
encoded key opts (err e) = (err e, opts)
encoded key opts (ok value) = (ok tt, insert key (text value) opts)

abbrev pub encode_at :
    (Any → Result Bytes) → Bytes → OptionMap → Option Any → Result (Unit {0}) × OptionMap
encode_at marshal key opts none = (ok tt, opts)
encode_at marshal key opts (some v) = encoded key opts (encode_key marshal v)

abbrev pub then_keys :
    (OptionMap → Result (Unit {0}) × OptionMap)
    → Result (Unit {0}) × OptionMap
    → Result (Unit {0}) × OptionMap
then_keys k (err e, opts) = (err e, opts)
then_keys k (ok u, opts) = k opts

unfoldable pub encode_keys_from :
    (Any → Result Bytes) → List Bytes → OptionMap → Result (Unit {0}) × OptionMap
encode_keys_from marshal [] opts = (ok tt, opts)
encode_keys_from marshal (key ∷ keys) opts =
    then_keys (encode_keys_from marshal keys) (encode_at marshal key opts (lookup key opts))

-- encodeKeys
unfoldable pub encode_keys : (Any → Result Bytes) → OptionMap → Result (Unit {0}) × OptionMap
unfolding encode_keys_from
encode_keys marshal opts = encode_keys_from marshal json_keys opts

-- fmt.Sprintf("%d", v), with more fuel than digits
unfoldable pub digits : ℕ → ℕ → Bytes
digits zero n = []
digits (suc f) n =
    let front = digits f (n / 10) in if ltb n 10 then (n + 48) ∷ [] else front ++ (n % 10 + 48) ∷ []

unfoldable pub decimal : ℤ → Bytes
unfolding digits
decimal (pos n) = digits (suc n) n
decimal (negsuc n) = str "-" ++ digits (suc (suc n)) (suc n)

abbrev pub invalid_type : Error
invalid_type = kivik status_bad_request (message (str "kivik: invalid type for options"))

-- the type switch of optionsToParams
unfoldable pub render : Any → Result (List Bytes)
unfolding decimal
render (text s) = ok (s ∷ [])
render (texts ss) = ok ss
render (bool true) = ok (str "true" ∷ [])
render (bool false) = ok (str "false" ∷ [])
render (int i) = ok (decimal i ∷ [])
render v = err invalid_type

abbrev pub Values : Type 0
Values = Assoc (List Bytes)

-- params.Add(key, value) for each value
abbrev pub add_one : Bytes → Bytes → Values → Values
add_one k v vs = insert k (values (lookup k vs) ++ v ∷ []) vs

unfoldable pub add_all : Bytes → List Bytes → Values → Values
add_all k [] vs = vs
add_all k (x ∷ xs) vs = add_all k xs (add_one k x vs)

-- the loop over the entries of one map
abbrev pub rendered :
    Bytes → Values → (Values → Result Values) → Result (List Bytes) → Result Values
rendered k vs next (err e) = err e
rendered k vs next (ok xs) = next (add_all k xs vs)

unfoldable pub add_entries : OptionMap → Values → Result Values
unfolding render add_all
add_entries [] vs = ok vs
add_entries ((k, v) ∷ opts) vs = rendered k vs (add_entries opts) (render v)

-- optionsToParams: the parameters, and the maps as they are left
abbrev pub then_entries :
    (OptionMap → Result Values)
    → (Values → Result Values × List OptionMap)
    → Result (Unit {0}) × OptionMap
    → List OptionMap
    → Result Values × List OptionMap
then_entries add rest (err e, opts) others = (err e, opts ∷ others)
then_entries add rest (ok u, opts) others = elim (add opts) [
  | err e ↦ (err e, opts ∷ others)
  | ok vs ↦ (let (r, left) = rest vs in (r, opts ∷ left))
]

unfoldable pub params_from :
    (Any → Result Bytes) → List OptionMap → Values → Result Values × List OptionMap
unfolding encode_keys add_entries
params_from marshal [] vs = (ok vs, [])
params_from marshal (opts ∷ others) vs =
    then_entries (λ m. add_entries m vs) (params_from marshal others) (encode_keys marshal opts)
      others

unfoldable pub options_to_params :
    (Any → Result Bytes) → List OptionMap → Result Values × List OptionMap
unfolding params_from
options_to_params marshal opts = params_from marshal opts []

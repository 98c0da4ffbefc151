-- ===== src/Chttp/Headers.antt =====
-- chttp/chttp.go: `setHeaders`, `setQuery` and `fixPath` on the request, and `Client.path`.
pub mod Sent
use couchdb.Common.{
  ℕ, ltb, ◌==◌, Bytes, str, is_empty, trim, trim_prefix, Bool, true, false, List, [], ◌∷◌, ◌++◌,
  Option, none, some, if◌then◌else◌, is_some,
}
use couchdb.Common.Int.{ℤ, pos}
use couchdb.Common.Assoc.{Assoc, lookup, insert}
use couchdb.Chttp.DocId.{query_escape}
use couchdb.Chttp.Options.{Options}

-- http.Header; every key that the driver writes is canonical
abbrev pub Header : Type 0
Header = Assoc (List Bytes)

-- the parts of *http.Request that the driver sets; `raw_path` and `raw_query` are those of the URL
pub record Request : Type 0 where
  pub method : Bytes
  pub raw_path : Bytes
  pub raw_query : Bytes
  pub header : Header
  pub content_length : ℤ

-- Header.Add, Header.Set and Header.Get
abbrev pub values : Option (List Bytes) → List Bytes
values none = []
values (some vs) = vs

abbrev pub add_header : Bytes → Bytes → Header → Header
add_header k v h = insert k (values (lookup k h) ++ v ∷ []) h

abbrev pub set_header : Bytes → Bytes → Header → Header
set_header k v h = insert k (v ∷ []) h

abbrev pub first_value : List Bytes → Bytes
first_value [] = []
first_value (v ∷ vs) = v

abbrev pub type_json : Bytes
type_json = str "application/json"

abbrev pub or_default : Bytes → Bytes → Bytes
or_default [] d = d
or_default (c ∷ s) d = c ∷ s

-- the defaults of opts.Header: a key that the request has already is left alone
unfoldable pub add_defaults : Header → Header → Header
add_defaults [] h = h
add_defaults ((k, v) ∷ ds) h = add_defaults ds (if is_some (lookup k h) then h else insert k v h)

abbrev pub is_zero : ℤ → Bool
is_zero (pos n) = n == 0
is_zero i = false

-- the value of If-None-Match: in quotes, whether it came with quotes or not
unfoldable pub if_none_match_value : Bytes → Bytes
unfolding trim
if_none_match_value s = str "\"" ++ (trim b'"' s ++ str "\"")

abbrev pub commit_header : Bool → Header → Header
commit_header true h = add_header (str "X-Couch-Full-Commit") (str "true") h
commit_header false h = h

abbrev pub match_header : Bytes → Header → Header
match_header [] h = h
match_header (c ∷ s) h = set_header (str "If-None-Match") (if_none_match_value (c ∷ s)) h

abbrev pub content_headers : Bytes → Bytes → Header → Header
content_headers accept content_type h =
    add_header (str "Content-Type") content_type (add_header (str "Accept") accept h)

-- setHeaders; `none` are the nil options
unfoldable pub set_headers : Request → Option Options → Request
set_headers req none = record req { header = content_headers type_json type_json req.header }
set_headers req (some o) = record req {
  content_length = if is_zero o.content_length then req.content_length else o.content_length;
  header = content_headers (or_default o.accept type_json) (or_default o.content_type type_json) (
      add_defaults o.header
        (match_header o.if_none_match (commit_header o.full_commit req.header)));
}

-- url.Values.Encode: keys in order, each value behind its key, joined by "&"
unfoldable pub bytes_le : Bytes → Bytes → Bool
bytes_le [] b = true
bytes_le (c ∷ a) [] = false
bytes_le (c ∷ a) (d ∷ b) =
    let rest = bytes_le a b in if ltb c d then true else if c == d then rest else false

abbrev pub Pair : Type 0
Pair = Bytes × List Bytes

unfoldable pub insert_sorted : Pair → List Pair → List Pair
unfolding bytes_le
insert_sorted x [] = x ∷ []
insert_sorted (k, v) ((j, w) ∷ ps) =
    let rest = insert_sorted (k, v) ps in
    if bytes_le k j then (k, v) ∷ (j, w) ∷ ps else (j, w) ∷ rest

unfoldable pub sort_pairs : List Pair → List Pair
unfolding insert_sorted
sort_pairs [] = []
sort_pairs (p ∷ ps) = insert_sorted p (sort_pairs ps)

abbrev pub joined : Bytes → Bytes → Bytes
joined [] b = b
joined (c ∷ a) [] = c ∷ a
joined (c ∷ a) (d ∷ b) = (c ∷ a) ++ (str "&" ++ d ∷ b)

unfoldable pub encode_values : Bytes → List Bytes → Bytes
unfolding query_escape
encode_values k [] = []
encode_values k (v ∷ vs) =
    joined (query_escape k ++ (str "=" ++ query_escape v)) (encode_values k vs)

unfoldable pub encode_pairs : List Pair → Bytes
unfolding encode_values
encode_pairs [] = []
encode_pairs ((k, vs) ∷ ps) = joined (encode_values k vs) (encode_pairs ps)

unfoldable pub encode_query : Assoc (List Bytes) → Bytes
unfolding sort_pairs encode_pairs
encode_query q = encode_pairs (sort_pairs q)

abbrev pub is_nil {ℓ} : {A : Type ℓ} → List A → Bool
is_nil [] = true
is_nil (x ∷ xs) = false

abbrev pub extend_query : Bytes → Bytes → Bytes
extend_query [] q = q
extend_query (c ∷ s) q = (c ∷ s) ++ (str "&" ++ q)

-- setQuery
unfoldable pub set_query : Request → Option Options → Request
unfolding encode_query
set_query req none = req
set_query req (some o) =
    if is_nil o.query
    then req
    else record req { raw_query = extend_query req.raw_query (encode_query o.query) }

-- what stands before the first "?"
unfoldable pub before_query : Bytes → Bytes
before_query [] = []
before_query (c ∷ s) = let rest = before_query s in if c == b'?' then [] else c ∷ rest

-- fixPath
unfoldable pub fix_path : Request → Bytes → Request
unfolding before_query trim_prefix
fix_path req path = record req { raw_path = str "/" ++ trim_prefix (before_query path) (str "/") }

-- Client.path
unfoldable pub client_path : Bytes → Bytes → Bytes
unfolding trim_prefix
client_path [] path = path
client_path (c ∷ base) path = (c ∷ base) ++ (str "/" ++ trim_prefix path (str "/"))

-- ===== src/Chttp/DocId.antt =====
-- chttp/encode.go: document IDs in paths, byte by byte.
pub mod RoundTrip
use couchdb.Common.{
  ℕ, ◌+◌, ◌-◌, ◌/◌, ◌%◌, leb, ltb, ◌==◌, Bytes, str, cut_prefix, has_prefix, trim_prefix, Bool,
  ◌&&◌, ◌||◌, List, [], ◌∷◌, ◌++◌, Option, none, some, if◌then◌else◌, ◌≡◌, refl,
}

abbrev pub within : ℕ → ℕ → ℕ → Bool
within lo hi c = leb lo c && leb c hi

-- the bytes that url.QueryEscape leaves alone
unfoldable pub is_unreserved : ℕ → Bool
is_unreserved c =
    within b'a' b'z' c
    || (within b'A' b'Z' c
        || (within b'0' b'9' c || (c == b'-' || (c == b'_' || (c == b'.' || c == b'~')))))

abbrev pub hex_digit : ℕ → ℕ
hex_digit n = if ltb n 10 then n + 48 else n + 55

abbrev pub escape_byte : ℕ → Bytes
escape_byte c = b'%' ∷ hex_digit (c / 16) ∷ hex_digit (c % 16) ∷ []

abbrev pub escape_one : ℕ → Bytes
escape_one c = if is_unreserved c then c ∷ [] else if c == b' ' then b'+' ∷ [] else escape_byte c

-- url.QueryEscape
unfoldable pub query_escape : Bytes → Bytes
unfolding is_unreserved
query_escape [] = []
query_escape (c ∷ s) = escape_one c ++ query_escape s

-- strings.ReplaceAll(s, "+", "%20")
unfoldable pub replace_plus : Bytes → Bytes
replace_plus [] = []
replace_plus (c ∷ s) =
    let rest = replace_plus s in if c == b'+' then str "%20" ++ rest else c ∷ rest

-- encodeDocID
unfoldable pub encode_plain : Bytes → Bytes
unfolding query_escape replace_plus
encode_plain doc_id = replace_plus (query_escape doc_id)

abbrev pub prefix_design : Bytes
prefix_design = str "_design/"

abbrev pub prefix_local : Bytes
prefix_local = str "_local/"

-- EncodeDocID: the loop over the two prefixes, written out
unfoldable pub encode_doc_id : Bytes → Bytes
unfolding encode_plain has_prefix trim_prefix
encode_doc_id doc_id =
    if has_prefix doc_id prefix_design
    then prefix_design ++ encode_plain (trim_prefix doc_id prefix_design)
    else if has_prefix doc_id prefix_local
    then prefix_local ++ encode_plain (trim_prefix doc_id prefix_local)
    else encode_plain doc_id

-- ===== src/Chttp/Options.antt =====
-- chttp/options.go and the option names of internal/constants.go.
pub mod Branches
use couchdb.Common.{
  ℕ, Bytes, str, Bool, true, false, List, [], ◌∷◌, ◌++◌, ◌==◌, Option, none, some, if◌then◌else◌,
}
use couchdb.Common.Int.{ℤ, pos}
use couchdb.Common.Assoc.{Assoc, lookup, insert, delete}
use couchdb.Errors.{Error, message, kivik, panic, status_bad_request, Result, ok, err}

-- A value of type interface{}, by its dynamic type; `other` is any type not named here.
pub data Any : Type 0 where
  text : Bytes → Any
  texts : List Bytes → Any
  bool : Bool → Any
  int : ℤ → Any
  raw_message : Bytes → Any
  other : ℕ → Any

-- map[string]interface{}
abbrev pub OptionMap : Type 0
OptionMap = Assoc Any

abbrev pub option_user_agent : Bytes
option_user_agent = str "User-Agent"

abbrev pub option_http_client : Bytes
option_http_client = str "kivik:httpClient"

abbrev pub option_full_commit : Bytes
option_full_commit = str "X-Couch-Full-Commit"

abbrev pub option_if_none_match : Bytes
option_if_none_match = str "If-None-Match"

abbrev pub option_partition : Bytes
option_partition = str "kivik:partition"

abbrev pub option_no_multipart_put : Bytes
option_no_multipart_put = str "kivik:no-multipart-put"

abbrev pub option_no_multipart_get : Bytes
option_no_multipart_get = str "kivik:no-multipart-get"

abbrev pub option_no_compressed_requests : Bytes
option_no_compressed_requests = str "kivik:no-compressed-requests"

-- The fields of `Options` that the requests read, but for `Body`, `GetBody` and `JSON`.
pub record Options : Type 0 where
  pub accept : Bytes
  pub content_type : Bytes
  pub content_length : ℤ
  pub full_commit : Bool
  pub if_none_match : Bytes
  pub query : Assoc (List Bytes)
  pub header : Assoc (List Bytes)
  pub no_gzip : Bool

-- Options{}
abbrev pub no_options : Options
no_options = record {
  accept = [];
  content_type = [];
  content_length = pos 0;
  full_commit = false;
  if_none_match = [];
  query = [];
  header = [];
  no_gzip = false;
}

abbrev pub wrong_type : Error
wrong_type = kivik status_bad_request (message (str "kivik: option has the wrong type"))

-- fullCommit: the option is taken out of the map
abbrev pub take_bool : OptionMap → Option Any → Result Bool × OptionMap
take_bool opts none = (ok false, opts)
take_bool opts (some (bool b)) = (ok b, delete option_full_commit opts)
take_bool opts (some v) = (err wrong_type, opts)

unfoldable pub full_commit : OptionMap → Result Bool × OptionMap
full_commit opts = take_bool opts (lookup option_full_commit opts)

-- `inmString[0]` of the empty string panics
abbrev pub quoted : Bytes → Result Bytes
quoted [] = err panic
quoted (c ∷ s) = if c == b'"' then ok (c ∷ s) else ok (str "\"" ++ ((c ∷ s) ++ str "\""))

-- ifNoneMatch
abbrev pub take_string : OptionMap → Option Any → Result Bytes × OptionMap
take_string opts none = (ok [], opts)
take_string opts (some (text s)) = (quoted s, delete option_if_none_match opts)
take_string opts (some v) = (err wrong_type, opts)

unfoldable pub if_none_match : OptionMap → Result Bytes × OptionMap
if_none_match opts = take_string opts (lookup option_if_none_match opts)

-- NewOptions
abbrev pub with_if_none_match : Bool → Result Bytes × OptionMap → Result Options × OptionMap
with_if_none_match fc (err e, opts) = (err e, opts)
with_if_none_match fc (ok inm, opts) =
    (ok (record no_options { full_commit = fc; if_none_match = inm }), opts)

abbrev pub with_full_commit : Result Bool × OptionMap → Result Options × OptionMap
with_full_commit (err e, opts) = (err e, opts)
with_full_commit (ok fc, opts) = with_if_none_match fc (if_none_match opts)

unfoldable pub new_options : OptionMap → Result Options × OptionMap
unfolding full_commit if_none_match
new_options opts = with_full_commit (full_commit opts)

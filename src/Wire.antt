-- ===== src/Wire.antt =====
-- What a method of the driver sends and how it reads the answer: `DoReq`, `DoError`, `DoJSON` and
-- `DecodeJSON` of chttp/chttp.go as the methods use them, `db.path` of db.go, and the idempotency
-- header. A method is a computation on the state of the world outside, which its calls may change.
pub mod Sends
pub mod Structs
use couchdb.Common.{
  ℕ, Bytes, str, is_empty, equal, trim_prefix, Bool, true, false, List, [], ◌∷◌, ◌++◌, Option, none,
  some, if◌then◌else◌,
}
use couchdb.Common.Int.{ℤ, pos}
use couchdb.Common.Assoc.{Assoc, lookup, delete}
use couchdb.Errors.{
  open_obj, open_arr, unmarshal_type, Error, panic, missing_arg, bad_gateway, Err, Result, ok, err,
}
use couchdb.Json.{delim, Raw}
use couchdb.Json.Read.{decode}
use couchdb.Json.Into.{member, into_string, into_int64, array_elements, raw_text, is_null}
use couchdb.Chttp.Headers.{Header}
use couchdb.Chttp.Options.{Any, text, OptionMap, option_partition, Options, no_options, new_options}
use couchdb.Chttp.Response.{Response, response_error}
use couchdb.Params.{Values, options_to_params}

-- the body of a call: a value or a struct to be encoded as JSON, a reader, by number, or a document
-- and the readers of its attachments
pub data Payload : Type 0 where
  no_payload : Payload
  encoded : Any → Payload
  object : Assoc Any → Payload
  stream : ℕ → Payload
  multipart : Raw → List ℕ → Payload

-- the arguments of `DoReq`; the options are none where they are nil
pub record Call : Type 0 where
  pub method : Bytes
  pub path : Bytes
  pub opts : Option Options
  pub payload : Payload

-- What the methods are given: `request` is `Client.DoReq`; the other fields are functions of other
-- packages: url.Parse followed by String, path.Join, url.PathEscape, url.Values.Encode,
-- mime.ParseMediaType, json.Marshal, json.Unmarshal into
-- an interface, and kivik.HTTPStatus.
pub record Net (World : Type 0) : Type 0 where
  pub request : Call → World → Result Response × World
  pub normal_path : Bytes → Result Bytes
  pub join_path : List Bytes → Bytes
  pub path_escape : Bytes → Bytes
  pub encode_values : Values → Bytes
  pub media_type : Bytes → Bytes
  pub marshal : Any → Result Bytes
  pub parse_json : Bytes → Result Any
  pub http_status : Error → ℕ

abbrev pub M : Type 0 → Type 0 → Type 0
M World A = World → Result A × World

abbrev pub pure : {World A : Type 0} → A → M World A
pure a w = (ok a, w)

abbrev pub fail : {World A : Type 0} → Error → M World A
fail e w = (err e, w)

-- a step that changes nothing outside
abbrev pub lift : {World A : Type 0} → Result A → M World A
lift r w = (r, w)

abbrev pub and_go : {World A B : Type 0} → Result A × World → (A → M World B) → Result B × World
and_go (err e, w) f = (err e, w)
and_go (ok a, w) f = f a w

infixl 5 ◌>>=◌ ◌>>◌
abbrev pub ◌>>=◌ : {World A B : Type 0} → M World A → (A → M World B) → M World B
◌>>=◌ m f w = and_go (m w) f

abbrev pub ◌>>◌ : {World B : Type 0} → M World (Unit {0}) → M World B → M World B
◌>>◌ m k w = and_go (m w) (λ u. k)

-- what a method makes of an outcome, an error included
abbrev pub handle : {World A B : Type 0} → (Result A → Result B) → M World A → M World B
handle f m w = (f (m w).0, (m w).1)

-- `if arg == "" { return missingArg(name) }`
abbrev pub required : Bytes → Bytes → Result (Unit {0})
required name [] = err (missing_arg name)
required name (c ∷ s) = ok tt

abbrev pub require : {World : Type 0} → Bytes → Bytes → M World (Unit {0})
require name arg = lift (required name arg)

-- the Header of calls that change nothing when they are repeated
abbrev pub idempotent : Header
idempotent = (str "X-Idempotency-Key", []) ∷ []

abbrev pub idempotent_options : Options
idempotent_options = record no_options { header = idempotent }

-- a slice, whose elements are read by `f`; null is the empty one
unfoldable pub each {ℓ} : {A : Type ℓ} → (Raw → Result A) → List Raw → Result (List A)
each f [] = ok []
each f (v ∷ vs) = elim (f v) [
  | err e ↦ err e
  | ok a ↦ elim (each f vs) [ err e ↦ err e | ok rest ↦ ok (a ∷ rest) ]
]

unfoldable pub slice {ℓ} : {A : Type ℓ} → (Raw → Result A) → Raw → Result (List A)
unfolding each array_elements raw_text equal
slice f (delim open_arr ∷ ls) = each f (array_elements (delim open_arr ∷ ls))
slice f raw = if equal (raw_text raw) (str "null") then ok [] else err unmarshal_type

abbrev pub slice_of {ℓ} : {A : Type ℓ} → (Raw → Result A) → Option Raw → Result (List A)
slice_of f none = ok []
slice_of f (some v) = slice f v

-- a member, empty where it is missing
abbrev pub raw_of : Option Raw → Raw
raw_of none = []
raw_of (some v) = v

unfoldable pub raw_field : Bytes → Raw → Raw
unfolding member
raw_field name raw = raw_of (member name raw)

abbrev pub text_value : Raw → Result Bytes
text_value raw = elim (into_string raw []).0 [ none ↦ ok (into_string raw []).1 | some e ↦ err e ]

infixl 5 ◌>>?◌
abbrev pub ◌>>?◌ : {A B : Type 0} → Result A → (A → Result B) → Result B
ok a >>? f = f a
err e >>? f = err e

-- a target that is a struct or a map, whose members null leaves alone
unfoldable pub as_struct : Raw → Result Raw
unfolding raw_text equal
as_struct [] = ok []
as_struct (delim open_obj ∷ ls) = ok (delim open_obj ∷ ls)
as_struct raw = if is_null raw then ok raw else err unmarshal_type

abbrev pub struct_of : Option Raw → Result Raw
struct_of none = ok []
struct_of (some v) = as_struct v

unfoldable pub struct_field : Bytes → Raw → Result Raw
unfolding member as_struct
struct_field name raw = struct_of (member name raw)

-- a string member, which may be missing
abbrev pub string_of : Bytes → Option Raw → Result Bytes
string_of name none = ok []
string_of name (some v) = elim (into_string v []).0 [
  | none ↦ ok (into_string v []).1
  | some e ↦ err e
]

unfoldable pub string_field : Bytes → Raw → Result Bytes
unfolding member into_string
string_field name raw = string_of name (member name raw)

-- the string member of a struct that has no other
unfoldable pub only_string : Bytes → Raw → Result Bytes
unfolding as_struct string_field
only_string name raw = as_struct raw >>? string_field name

-- an int64 member, which may be missing
abbrev pub int_of : Option Raw → Result ℤ
int_of none = ok (pos 0)
int_of (some v) = elim (into_int64 v (pos 0)).0 [
  | none ↦ ok (into_int64 v (pos 0)).1
  | some e ↦ err e
]

unfoldable pub int_field : Bytes → Raw → Result ℤ
unfolding member into_int64
int_field name raw = int_of (member name raw)

-- an error of the body, as a bad gateway
abbrev pub gateway : {A : Type 0} → Result A → Result A
gateway (ok a) = ok a
gateway (err e) = err (bad_gateway e)

module _ {World : Type 0} (n : Net World) where
  -- a call whose response is to be a success
  abbrev pub success_or : Response → Err → Result Response
  success_or r none = ok r
  success_or r (some e) = err e

  unfoldable pub ask : Call → M World Response
  unfolding response_error
  ask c = n.request c >>= (λ r. lift (success_or r (response_error n.media_type r)))

  -- DoError, where only the error counts
  unfoldable pub do_error : Call → M World (Unit {0})
  unfolding ask
  do_error c = ask c >>= (λ r. pure tt)

  -- DecodeJSON into a target with the unmarshaller `f`
  abbrev pub unmarshalled : {A : Type 0} → (Raw → Result A) → Result Raw → Result A
  unmarshalled f (err e) = err (bad_gateway e)
  unmarshalled f (ok raw) = gateway (f raw)

  unfoldable pub decode_json : {A : Type 0} → (Raw → Result A) → Response → M World A
  unfolding decode
  decode_json f r = lift (elim r.body [ none ↦ err panic | some d ↦ unmarshalled f (decode d).0 ])

  -- DoJSON
  unfoldable pub do_json : {A : Type 0} → Call → (Raw → Result A) → M World A
  unfolding ask decode_json
  do_json c f = ask c >>= decode_json f

  -- db.path: a path that cannot be parsed panics
  abbrev pub or_panic : Result Bytes → Result Bytes
  or_panic (ok p) = ok p
  or_panic (err e) = err panic

  unfoldable pub db_path : Bytes → Bytes → Result Bytes
  unfolding trim_prefix
  db_path db_name path =
      or_panic (n.normal_path (db_name ++ (str "/" ++ trim_prefix path (str "/"))))

  -- NewOptions, and then optionsToParams of the map that it leaves
  abbrev pub with_query : Options → Result Values → Result Options
  with_query o (err e) = err e
  with_query o (ok query) = ok (record o { query = query })

  abbrev pub params_of : Result Options × OptionMap → Result Options
  params_of (err e, opts) = err e
  params_of (ok o, opts) = with_query o (options_to_params n.marshal (opts ∷ [])).0

  unfoldable pub parsed_options : OptionMap → Result Options
  unfolding new_options options_to_params
  parsed_options opts = params_of (new_options opts)

  -- `reqPath` of the calls that take a partition
  abbrev pub partition_path : Bytes → Option Any → Bytes
  partition_path path (some (text part)) = n.join_path (str "_partition" ∷ part ∷ path ∷ [])
  partition_path path v = path

-- ===== src/Find.antt =====
-- find.go: Mango queries and their indexes; `deJSONify` of util.go.
use couchdb.Common.{Bytes, str, equal, List, [], ◌∷◌, ◌++◌, Option, none, some, if◌then◌else◌}
use couchdb.Common.Int.{ℤ}
use couchdb.Common.Assoc.{Assoc, lookup}
use couchdb.Errors.{kivik, status_bad_request, Result, ok, err}
use couchdb.Json.{Raw}
use couchdb.Json.Into.{member, raw_text}
use couchdb.Chttp.Options.{Any, text, raw_message, OptionMap, option_partition, no_options}
use couchdb.Chttp.Response.{Response}
use couchdb.Wire.{
  no_payload, encoded, object, Net, M, lift, ◌>>=◌, ◌>>◌, require, string_field, int_field, ◌>>?◌,
  as_struct, struct_field, slice, slice_of, ask, do_error, do_json, db_path, partition_path,
}
use couchdb.Documents.{repeatable}

-- queryPlan, whose objects are kept as their JSON
pub record QueryPlan : Type 0 where
  pub db_name : Bytes
  pub index : Raw
  pub selector : Raw
  pub options : Raw
  pub limit : ℤ
  pub skip : ℤ
  pub fields : List Raw
  pub range : Raw

-- fields.UnmarshalJSON: the text "all_fields" leaves the fields alone
unfoldable pub fields_of : Raw → Result (List Raw)
unfolding equal raw_text slice
fields_of raw = if equal (raw_text raw) (str "\"all_fields\"") then ok [] else slice (λ v. ok v) raw

abbrev pub fields_member : Option Raw → Result (List Raw)
fields_member none = ok []
fields_member (some v) = fields_of v

-- a member omitted where it is empty
abbrev pub unless_empty : Bytes → Bytes → Assoc Any
unless_empty name [] = []
unless_empty name (c ∷ s) = (name, text (c ∷ s)) ∷ []

-- what `queryPlan` is unmarshalled to
unfoldable pub plan_of : Raw → Result QueryPlan
unfolding string_field int_field as_struct struct_field fields_of member
plan_of raw = as_struct raw >>? (λ raw. string_field (str "dbname") raw >>? (λ name.
    struct_field (str "index") raw >>? (λ index. struct_field (str "selector") raw >>? (λ selector.
      struct_field (str "opts") raw >>? (λ options. struct_field (str "range") raw >>? (λ range.
        int_field (str "limit") raw >>? (λ limit. int_field (str "skip") raw >>? (λ skip.
          fields_member (member (str "fields") raw) >>? (λ fields. ok (record {
            db_name = name;
            index = index;
            selector = selector;
            options = options;
            limit = limit;
            skip = skip;
            fields = fields;
            range = range;
          }))))))))))

module _ {World : Type 0} (n : Net World) (db_name : Bytes) where
  -- deJSONify, for a []byte too, which stands here as the raw message of its bytes
  abbrev pub json_error : {A : Type 0} → Result A → Result A
  json_error (ok a) = ok a
  json_error (err e) = err (kivik status_bad_request e)

  unfoldable pub de_jsonify : Any → Result Any
  de_jsonify (text s) = json_error (n.parse_json s)
  de_jsonify (raw_message b) = json_error (n.parse_json b)
  de_jsonify v = ok v

  -- `d.path(reqPath)` behind the choice of the partition
  unfoldable pub path_in_partition : Bytes → Bytes → OptionMap → Result Bytes
  unfolding lookup db_path
  path_in_partition path rest options =
      db_path n db_name (partition_path n path (lookup option_partition options) ++ rest)

  -- CreateIndex
  unfoldable pub create_index : Bytes → Bytes → Any → OptionMap → M World (Unit {0})
  unfolding de_jsonify path_in_partition do_error
  create_index ddoc name index options = do
    value ← lift (de_jsonify index)
    path ← lift (path_in_partition (str "_index") [] options)
    do_error n (record {
      method = str "POST";
      path = path;
      opts = some no_options;
      payload = object (
          (str "index", value)
          ∷ (unless_empty (str "ddoc") ddoc ++ unless_empty (str "name") name));
    })

  -- GetIndexes: what driver.Index is unmarshalled from is kept as its JSON
  unfoldable pub get_indexes : OptionMap → M World (List Raw)
  unfolding path_in_partition do_json as_struct slice member
  get_indexes options = do
    path ← lift (path_in_partition (str "_index") [] options)
    do_json n (record { method = str "GET"; path = path; opts = none; payload = no_payload })
        (λ raw. as_struct raw >>? (λ raw. slice_of (λ v. ok v) (member (str "indexes") raw)))

  -- DeleteIndex
  unfoldable pub delete_index : Bytes → Bytes → OptionMap → M World (Unit {0})
  unfolding path_in_partition do_error
  delete_index ddoc name options = do
    require (str "ddoc") ddoc
    require (str "name") name
    path ←
        lift
          (path_in_partition (str "_index") (str "/" ++ (ddoc ++ (str "/json/" ++ name))) options)
    do_error n (record { method = str "DELETE"; path = path; opts = none; payload = no_payload })

  -- Find: the response whose body the rows read
  unfoldable pub find : Any → OptionMap → M World Response
  unfolding path_in_partition ask
  find query options = do
    path ← lift (path_in_partition (str "_find") [] options)
    ask n (repeatable (str "POST") path (encoded query))

  -- Explain
  unfoldable pub explain : Any → OptionMap → M World QueryPlan
  unfolding path_in_partition do_json plan_of
  explain query options = do
    path ← lift (path_in_partition (str "_explain") [] options)
    do_json n (repeatable (str "POST") path (encoded query)) plan_of

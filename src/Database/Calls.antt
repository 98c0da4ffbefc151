-- ===== src/Database/Calls.antt =====
-- What a query of rows sends.
use couchdb.Common.{
  Bytes, str, equal, equal_iff, ◌||◌, List, [], ◌∷◌, ◌++◌, Option, none, some, if◌then◌else◌,
  is_some, ◌≡◌, refl, ap, ◌∙◌, arith,
}
use couchdb.Common.Assoc.{lookup, lookup-delete}
use couchdb.Errors.{Result, ok, err}
use couchdb.Chttp.Options.{Any, OptionMap}
use couchdb.Params.{Values, options_to_params}
use couchdb.Database.{
  RowsCall, is_post, moved, without, without_keys, left, with_query, queries_path, rows_call,
}

lookup-without :
    (name : Bytes) (v : Option Any) (opts : OptionMap) (k : Bytes)
    → v ≡ lookup name opts
    → lookup k (without name v opts) ≡ (if equal name k then none else lookup k opts)
lookup-without name none opts k h = ground (arith, equal_iff name k)
lookup-without name (some v) opts k h = lookup-delete name k opts

lookup-without_keys :
    (opts : OptionMap) (k : Bytes)
    → lookup k (without_keys opts) ≡ (if equal (str "keys") k then none else lookup k opts)
lookup-without_keys opts k = lookup-without (str "keys") (lookup (str "keys") opts) opts k refl

-- what the options make of the call
abbrev Shape : Option Any → Option Any → Result Values → RowsCall → Type 0
Shape k q r call =
    (is_post call ≡ (is_some k || is_some q))
    × (call.multi ≡ is_some q)
    × (lookup (str "keys") call.payload ≡ k)
    × (lookup (str "queries") call.payload ≡ q)
    × (r ≡ ok call.query)

with_query-Shape :
    (k q : Option Any) (r : Result Values) (path : Bytes) (call : RowsCall)
    → with_query path (moved (str "keys") k ++ moved (str "queries") q) (is_some q) r ≡ ok call
    → Shape k q r call
unfolding lookup equal
with_query-Shape k q (err e) path call h = ground arith
with_query-Shape none none (ok vs) path call h = ground arith
with_query-Shape none (some q) (ok vs) path call h = ground arith
with_query-Shape (some k) none (ok vs) path call h = ground arith
with_query-Shape (some k) (some q) (ok vs) path call h = ground arith

-- A query of rows is a POST exactly where the options have "keys" or "queries"; it reads several
-- result sets exactly where they have "queries"; and its URL parameters come from the options
-- without these two.
pub rows_call_lem :
    (marshal : Any → Result Bytes) (join_path : List Bytes → Bytes) (path : Bytes)
    (opts : OptionMap) (call : RowsCall)
    → rows_call marshal join_path path opts ≡ ok call
    → (is_post call ≡ (is_some (lookup (str "keys") opts) || is_some (lookup (str "queries") opts)))
      × (call.multi ≡ is_some (lookup (str "queries") opts))
      × (lookup (str "keys") call.payload ≡ lookup (str "keys") opts)
      × (lookup (str "queries") call.payload ≡ lookup (str "queries") opts)
      × (lookup (str "keys") (left opts) ≡ none)
      × (lookup (str "queries") (left opts) ≡ none)
      × ((options_to_params marshal (left opts ∷ [])).0 ≡ ok call.query)
rows_call_lem marshal join_path path opts call h =
    let q = lookup (str "queries") (without_keys opts) in
    let same : q ≡ lookup (str "queries") opts =
      lookup-without_keys opts (str "queries") ∙ (unfold equal in refl) in
    let s =
      with_query-Shape (lookup (str "keys") opts) q (options_to_params marshal (left opts ∷ [])).0
        (queries_path marshal join_path path q) call (unfold rows_call in h) in
    (
      s.0 ∙ ap (λ x. is_some (lookup (str "keys") opts) || is_some x) same,
      s.1 ∙ ap is_some same,
      s.2,
      s.3 ∙ same,
      lookup-without (str "queries") q (without_keys opts) (str "keys") refl
          ∙ (unfold equal in lookup-without_keys opts (str "keys")),
      lookup-without (str "queries") q (without_keys opts) (str "queries") refl
          ∙ (unfold equal in refl),
      s.4,
    )

-- ===== src/Chttp/Options/Branches.antt =====
-- What NewOptions returns, and what it leaves in the option map, on every branch.
use couchdb.Common.{
  Bytes, equal, equal_iff, Bool, false, Option, none, some, if◌then◌else◌, ◌≡◌, refl, arith, [],
}
use couchdb.Common.Assoc.{lookup, delete, lookup-delete}
use couchdb.Errors.{ok, err, Result}
use couchdb.Chttp.Options.{
  Any, text, bool, OptionMap, Options, no_options, wrong_type, quoted, option_full_commit,
  option_if_none_match, new_options,
}

-- what the two options ask for
abbrev pub asked_commit : Option Any → Result Bool
asked_commit none = ok false
asked_commit (some (bool b)) = ok b
asked_commit (some v) = err wrong_type

abbrev pub asked_match : Option Any → Result Bytes
asked_match none = ok []
asked_match (some (text s)) = quoted s
asked_match (some v) = err wrong_type

abbrev pub asked : Result Bool → Result Bytes → Result Options
asked (err e) m = err e
asked (ok fc) (err e) = err e
asked (ok fc) (ok inm) = ok (record no_options { full_commit = fc; if_none_match = inm })

other_option : equal option_full_commit option_if_none_match ≡ false
unfolding equal
other_option = refl

-- The result depends on the two options only: the first error wins, full commit before
-- If-None-Match, and otherwise both are in the record and all else is unset.
pub new_options_lem :
    (opts : OptionMap)
    → (new_options opts).0
      ≡ asked
          (asked_commit (lookup option_full_commit opts))
          (asked_match (lookup option_if_none_match opts))
unfolding new_options
new_options_lem opts =
    ground (arith, other_option, lookup-delete option_full_commit option_if_none_match opts)

-- On success neither option is left in the map, and every other entry is as before.
pub lookup-new_options :
    (opts : OptionMap) (o : Options) (k : Bytes)
    → (new_options opts).0 ≡ ok o
    → lookup k (new_options opts).1 ≡ (
        if equal option_full_commit k
        then none
        else if equal option_if_none_match k
        then none
        else lookup k opts)
unfolding new_options
lookup-new_options opts o k h = ground (
  arith,
  other_option,
  equal_iff option_full_commit k,
  equal_iff option_if_none_match k,
  lookup-delete option_full_commit option_if_none_match opts,
  lookup-delete option_full_commit k opts,
  lookup-delete option_if_none_match k opts,
  lookup-delete option_if_none_match k (delete option_full_commit opts),
)

-- ===== src/Params/Encoded.antt =====
-- What encodeKeys makes of an option map.
use couchdb.Common.{
  Bytes, equal, equal_eq, equal_refl, Bool, true, false, List, [], ◌∷◌, Option, none, some, ◌≡◌,
  refl, sym, subst, arith, if◌then◌else◌, Bool-cases, inl, inr, ap, ◌∙◌,
}
use couchdb.Common.Assoc.{lookup, lookup-insert}
use couchdb.Errors.{Result, ok, err}
use couchdb.Chttp.Options.{Any, text, OptionMap}
use couchdb.Params.{
  encode_key, json_keys, encoded, encode_at, then_keys, encode_keys_from, encode_keys,
}

unfoldable pub is_in : Bytes → List Bytes → Bool
is_in k [] = false
is_in k (j ∷ js) = let rest = is_in k js in if equal j k then true else rest

module _ (marshal : Any → Result Bytes) where
  -- the value of an option after the encoding of the keys
  abbrev pub encoding_of : Bool → Option Any → Option (Result Any)
  encoding_of b none = none
  encoding_of false (some v) = some (ok v)
  encoding_of true (some v) =
      some (elim (encode_key marshal v) [ ok b ↦ ok (text b) | err e ↦ err e ])

  abbrev pub wrapped : Option Any → Option (Result Any)
  wrapped none = none
  wrapped (some v) = some (ok v)

  at_other :
      (key k : Bytes) (opts : OptionMap) (q : Option Any)
      → equal key k ≡ false
      → lookup k (encode_at marshal key opts q).1 ≡ lookup k opts
  at_other key k opts none ne = refl
  at_other key k opts (some v) ne = other (encode_key marshal v)
    where
      other : (r : Result Bytes) → lookup k (encoded key opts r).1 ≡ lookup k opts
      other (err e) = refl
      other (ok b) = rw (lookup-insert key k (text b) opts, ne) refl

  not_first :
      (key k : Bytes) (keys : List Bytes)
      → is_in k (key ∷ keys) ≡ false
      → (equal key k ≡ false) × (is_in k keys ≡ false)
  unfolding is_in
  not_first key k keys h = ground arith

  keys_other :
      (keys : List Bytes) (k : Bytes) (opts : OptionMap)
      → is_in k keys ≡ false
      → lookup k (encode_keys_from marshal keys opts).1 ≡ lookup k opts
  unfolding encode_keys_from
  keys_other [] k opts h = refl
  keys_other (key ∷ keys) k opts h =
      step (encode_at marshal key opts (lookup key opts))
        (at_other key k opts (lookup key opts) (not_first key k keys h).0)
        (λ m. keys_other keys k m (not_first key k keys h).1)
    where
      step :
          (q : Result (Unit {0}) × OptionMap)
          → lookup k q.1 ≡ lookup k opts
          → ((m : OptionMap) → lookup k (encode_keys_from marshal keys m).1 ≡ lookup k m)
          → lookup k (then_keys (encode_keys_from marshal keys) q).1 ≡ lookup k opts
      step (err e, opts1) same rest = same
      step (ok u, opts1) same rest = rest opts1 ∙ same

  at_same :
      (key : Bytes) (opts : OptionMap) (q : Option Any)
      → q ≡ lookup key opts
      → (encode_at marshal key opts q).0 ≡ ok tt
      → wrapped (lookup key (encode_at marshal key opts q).1) ≡ encoding_of true q
  at_same key opts none same h = ap wrapped (sym same)
  at_same key opts (some v) same h = coded (encode_key marshal v) h
    where
      coded :
          (r : Result Bytes)
          → (encoded key opts r).0 ≡ ok tt
          → wrapped (lookup key (encoded key opts r).1)
            ≡ some (elim r [ ok b ↦ ok (text b) | err e ↦ err e ])
      coded (err e) h = ground arith
      coded (ok b) h = rw (lookup-insert key key (text b) opts, equal_refl key) refl

  abbrev pub Distinct : List Bytes → Type 0
  Distinct [] = Unit
  Distinct (k ∷ ks) = (is_in k ks ≡ false) × Distinct ks

  keys_in :
      (keys : List Bytes) (k : Bytes) (opts : OptionMap)
      → Distinct keys
      → is_in k keys ≡ true
      → (encode_keys_from marshal keys opts).0 ≡ ok tt
      → wrapped (lookup k (encode_keys_from marshal keys opts).1) ≡ encoding_of true (lookup k opts)
  unfolding encode_keys_from
  keys_in [] k opts d h fine = unfold is_in in ground arith
  keys_in (key ∷ keys) k opts (fresh, d) h fine = elim (Bool-cases (equal key k)) [
    | inl same ↦
        subst
          (λ x.
            wrapped (lookup x (encode_keys_from marshal (key ∷ keys) opts).1)
            ≡ encoding_of true (lookup x opts))
          (equal_eq key k same)
          (first (encode_at marshal key opts (lookup key opts))
            (at_same key opts (lookup key opts) refl) fine)
    | inr ne ↦
        later (encode_at marshal key opts (lookup key opts))
          (at_other key k opts (lookup key opts) ne) fine
          (λ m. keys_in keys k m d (unfold is_in in ground arith))
  ]
    where
      first :
          (q : Result (Unit {0}) × OptionMap)
          → (q.0 ≡ ok tt → wrapped (lookup key q.1) ≡ encoding_of true (lookup key opts))
          → (then_keys (encode_keys_from marshal keys) q).0 ≡ ok tt
          → wrapped (lookup key (then_keys (encode_keys_from marshal keys) q).1)
            ≡ encoding_of true (lookup key opts)
      first (err e, opts1) same fine = ground arith
      first (ok u, opts1) same fine = ap wrapped (keys_other keys key opts1 fresh) ∙ same refl

      later :
          (q : Result (Unit {0}) × OptionMap)
          → lookup k q.1 ≡ lookup k opts
          → (then_keys (encode_keys_from marshal keys) q).0 ≡ ok tt
          → ((m : OptionMap)
              → (encode_keys_from marshal keys m).0 ≡ ok tt
              → wrapped (lookup k (encode_keys_from marshal keys m).1)
                ≡ encoding_of true (lookup k m))
          → wrapped (lookup k (then_keys (encode_keys_from marshal keys) q).1)
            ≡ encoding_of true (lookup k opts)
      later (err e, opts1) same fine rest = ground arith
      later (ok u, opts1) same fine rest = rest opts1 fine ∙ ap (encoding_of true) same

  untouched : (q : Option Any) → wrapped q ≡ encoding_of false q
  untouched none = refl
  untouched (some v) = refl

  keys-Distinct : Distinct json_keys
  unfolding is_in equal
  keys-Distinct = (refl, (refl, (refl, (refl, (refl, (refl, (refl, tt)))))))

  -- Where encodeKeys succeeds, each option whose name is one of the JSON keys holds the text of its
  -- encoding, and every other option is as before; no option is added or lost.
  pub lookup-encode_keys :
      (opts : OptionMap) (k : Bytes)
      → (encode_keys marshal opts).0 ≡ ok tt
      → wrapped (lookup k (encode_keys marshal opts).1)
        ≡ encoding_of (is_in k json_keys) (lookup k opts)
  unfolding encode_keys
  lookup-encode_keys opts k fine = elim (Bool-cases (is_in k json_keys)) [
    | inl h ↦ rw h (keys_in json_keys k opts keys-Distinct h fine)
    | inr h ↦ rw h (ap wrapped (keys_other json_keys k opts h) ∙ untouched (lookup k opts))
  ]

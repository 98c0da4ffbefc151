-- ===== src/Chttp/DocId/RoundTrip.antt =====
-- An encoded document ID decodes to the ID, and its bytes are harmless in a path.
use couchdb.Common.{
  ℕ, ◌+◌, ◌-◌, ◌*◌, ◌<◌, leb, ◌==◌, Bytes, cut_prefix, append-cut_prefix, has_prefix, true, false,
  [], ◌∷◌, ◌++◌, Option, none, some, if◌then◌else◌, ◌≡◌, refl, All, arith, ap, ◌∙◌, Option-cases,
  ◌⊎◌, inl, inr,
}
use couchdb.Chttp.DocId.{
  is_unreserved, escape_one, escape_byte, query_escape, replace_plus, encode_plain, encode_doc_id,
  prefix_design, prefix_local,
}

-- what a server makes of an escaped path segment: `%XX` is a byte, any other byte is itself
data Mode : Type 0 where
  plain percent : Mode
  digit : ℕ → Mode

abbrev unhex : ℕ → ℕ
unhex d = if leb d 57 then d - 48 else d - 55

abbrev push : ℕ → Option Bytes → Option Bytes
push c none = none
push c (some s) = some (c ∷ s)

walk : Mode → Bytes → Option Bytes
walk plain [] = some []
walk m [] = none
walk plain (c ∷ s) = elim (c == b'%') [ true ↦ walk percent s | false ↦ push c (walk plain s) ]
walk percent (d ∷ s) = walk (digit d) s
walk (digit d) (e ∷ s) = push (unhex d * 16 + unhex e) (walk plain s)

pub unescape : Bytes → Option Bytes
unescape s = walk plain s

abbrev encode_one : ℕ → Bytes
encode_one c = if is_unreserved c then c ∷ [] else escape_byte c

replace_plus-append : (a b : Bytes) → replace_plus (a ++ b) ≡ replace_plus a ++ replace_plus b
unfolding replace_plus
replace_plus-append [] b = refl
replace_plus-append (c ∷ a) b = ground (arith, replace_plus-append a b)

replace_plus-escape : (c : ℕ) → c < 256 → replace_plus (escape_one c) ≡ encode_one c
unfolding replace_plus is_unreserved
replace_plus-escape c h = ground arith

encode_plain-cons :
    (c : ℕ) (s : Bytes) → c < 256 → encode_plain (c ∷ s) ≡ encode_one c ++ encode_plain s
unfolding encode_plain
encode_plain-cons c s h =
    replace_plus-append (escape_one c) (query_escape s)
    ∙ ap (λ b. b ++ replace_plus (query_escape s)) (replace_plus-escape c h)

walk-one : (c : ℕ) (s : Bytes) → c < 256 → walk plain (encode_one c ++ s) ≡ push c (walk plain s)
unfolding walk is_unreserved
walk-one c s h = ground arith

unescape-encode_plain : (s : Bytes) → All (λ c. c < 256) s → unescape (encode_plain s) ≡ some s
unfolding unescape
unescape-encode_plain [] h = unfold encode_plain walk in refl
unescape-encode_plain (c ∷ s) (hc, h) =
    rw (encode_plain-cons c s hc) (walk-one c (encode_plain s) hc)
    ∙ ap (push c) (unescape-encode_plain s h)

drop-All : (p t : Bytes) → All (λ c. c < 256) (p ++ t) → All (λ c. c < 256) t
drop-All [] t h = h
drop-All (c ∷ p) t h = drop-All p t h.1

-- behind a prefix that is sent as it is
unescape-prefixed :
    (p s t : Bytes)
    → ((u : Bytes) (v : Bytes) → unescape u ≡ some v → unescape (p ++ u) ≡ some (p ++ v))
    → cut_prefix p s ≡ some t
    → All (λ c. c < 256) s
    → unescape (p ++ encode_plain t) ≡ some s
unescape-prefixed p s t keeps h bytes =
    let whole = append-cut_prefix p s t h in
    keeps (encode_plain t) t (unescape-encode_plain t (drop-All p t (rw whole bytes)))
    ∙ ap some whole

design_kept :
    (u v : Bytes) → unescape u ≡ some v → unescape (prefix_design ++ u) ≡ some (prefix_design ++ v)
unfolding unescape walk
design_kept u v h = rw h

local_kept :
    (u v : Bytes) → unescape u ≡ some v → unescape (prefix_local ++ u) ≡ some (prefix_local ++ v)
unfolding unescape walk
local_kept u v h = rw h

-- Whatever bytes a document ID has, the path segment made of it decodes to that ID.
pub unescape-encode_doc_id :
    (doc_id : Bytes) → All (λ c. c < 256) doc_id → unescape (encode_doc_id doc_id) ≡ some doc_id
unfolding encode_doc_id
unescape-encode_doc_id s h = elim (Option-cases (cut_prefix prefix_design s)) [
  | inr (t, e) ↦ rw (e, encode_doc_id) (unescape-prefixed prefix_design s t design_kept e h)
  | inl no_design ↦ elim (Option-cases (cut_prefix prefix_local s)) [
    | inr (t, e) ↦
        rw (no_design, e, encode_doc_id) (unescape-prefixed prefix_local s t local_kept e h)
    | inl no_local ↦ rw (no_design, no_local, encode_doc_id) (unescape-encode_plain s h)
  ]
]

-- a byte that a path keeps as it is: no slash, no question mark, no plus, no space
abbrev pub IsHarmless : ℕ → Type 0
IsHarmless c = (is_unreserved c ≡ true) ⊎ (c ≡ b'%')

IsHarmless-one : (c : ℕ) → c < 256 → All IsHarmless (encode_one c)
unfolding is_unreserved
IsHarmless-one c h = ground arith

All-append : (a b : Bytes) → All IsHarmless a → All IsHarmless b → All IsHarmless (a ++ b)
All-append [] b ha hb = hb
All-append (c ∷ a) b ha hb = (ha.0, All-append a b ha.1 hb)

-- The encoded form of an ID that has neither prefix holds only letters, digits, "-_.~" and "%":
-- no "/", "?", "+" or space.
pub encode_doc_id-IsHarmless :
    (s : Bytes)
    → All (λ c. c < 256) s
    → has_prefix s prefix_design ≡ false
    → has_prefix s prefix_local ≡ false
    → All IsHarmless (encode_doc_id s)
unfolding encode_doc_id
encode_doc_id-IsHarmless s h nd nl = rw (nd, nl, encode_doc_id) (plain_harmless s h)
  where
    plain_harmless : (s : Bytes) → All (λ c. c < 256) s → All IsHarmless (encode_plain s)
    plain_harmless [] h = tt
    plain_harmless (c ∷ s) (hc, h) =
        rw (encode_plain-cons c s hc)
          (All-append (encode_one c) (encode_plain s) (IsHarmless-one c hc) (plain_harmless s h))

-- ===== src/Chttp/Response/Ends.antt =====
-- The loop of readRev ends.
use couchdb.Common.{ℕ, zero, suc, ◌<◌, true, false, Bytes, str, length, ◌≡◌, refl, arith}
use couchdb.Errors.{open_obj, message, Result, ok, err}
use couchdb.Json.{Token, delim_token, string_token, Decoder}
use couchdb.Json.Read.{more, token}
use couchdb.Json.Read.Progress.{is_lost, Sane, Progress, token-Progress}
use couchdb.Chttp.Response.{rev_value, is_rev, rev_if, rev_round, rev_from, rev_loop, read_rev}

-- an outcome that the source has: the model's fuel was enough
abbrev pub Ends : Result Bytes → Type 0
Ends (ok rev) = Unit {0}
Ends (err e) = is_lost e ≡ false

rev_value-Ends : (n : ℕ) (x : Result Token × Decoder) → Progress n x → Ends (rev_value x)
rev_value-Ends n (err e, d) h = h
rev_value-Ends n (ok (string_token t), d) h = tt
rev_value-Ends n (ok t, d) h = refl

round-Ends :
    (k : Decoder → Result Bytes) (n : ℕ) (x : Result Token × Decoder)
    → Progress n x
    → ((d : Decoder) → Sane d → length d.input < n → Ends (k d))
    → Ends (rev_round k x)
round-Ends k n (err e, d) h ih = h
round-Ends k n (ok tk, d) (lt, sane) ih = elim (is_rev tk) as (λ b. Ends (rev_if b k d)) [
  | true ↦ rev_value-Ends (length d.input) (token d) (token-Progress d sane)
  | false ↦ ih d sane lt
]

rev_loop-Ends : (f : ℕ) (d : Decoder) → Sane d → length d.input < f → Ends (rev_loop f d)
unfolding rev_loop
rev_loop-Ends zero d sane lt = elim lt [ ]
rev_loop-Ends (suc f) d sane lt =
    elim (more d.input)
      as (λ b. Ends (elim b [
        | false ↦ err (message (str "_rev key not found in response body"))
        | true ↦ rev_round (rev_loop f) (token d)
      ])) [
        | false ↦ refl
        | true ↦
            round-Ends (rev_loop f) (length d.input) (token d) (token-Progress d sane)
              (λ d' s' lt'. rev_loop-Ends f d' s' (omega arith))
      ]

opened-Ends : (n : ℕ) (x : Result Token × Decoder) → Progress n x → Ends (rev_from x)
opened-Ends n (err e, d) h = h
opened-Ends n (ok (delim_token open_obj), d) (lt, sane) =
    rev_loop-Ends (suc (length d.input)) d sane (omega arith)
opened-Ends n (ok t, d) h = refl

-- Whatever the body is: readRev gives a revision or an error that the source has, so that the rounds
-- that the model allows, one for each lexeme and one more, are enough; no read of the body may fail
-- with the model's own error for too few rounds.
pub read_rev-Ends : (d : Decoder) → Sane d → Ends (read_rev d)
unfolding read_rev
read_rev-Ends d sane = opened-Ends (length d.input) (token d) (token-Progress d sane)

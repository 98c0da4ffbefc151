-- ===== src/Common/Int.antt =====
-- Signed 64-bit integers as Go parses them: the value as an integer over the native numbers.
use Prim.Native.Nat.{ℕ, zero, suc, ◌+◌, ◌*◌, ◌-◌, ◌^◌, ◌≤◌}
use mathlib.Core.Path.{◌≡◌, refl}
use mathlib.Core.Bool.{Bool, ◌&&◌}
use mathlib.Core.Option.{Option, none, some}
use mathlib.Core.List.{[], ◌∷◌}
use couchdb.Common.Tests.{leb, if◌then◌else◌}
use couchdb.Common.Strings.{Bytes, str}

-- `negsuc n` is -(n + 1).
pub data ℤ : Type 0 where
  pos : ℕ → ℤ
  negsuc : ℕ → ℤ

-- 0 < i on an int64
abbrev pub is_positive : ℤ → Bool
is_positive (pos zero) = Bool.false
is_positive (pos (suc n)) = Bool.true
is_positive (negsuc n) = Bool.false

abbrev pub minus : ℕ → ℤ
minus zero = pos 0
minus (suc n) = negsuc n

unfoldable pub parse_digits : ℕ → Bytes → Option ℕ
parse_digits n [] = some n
parse_digits n (c ∷ s) =
    let rest = parse_digits (n * 10 + (c - 48)) s in if leb 48 c && leb c 57 then rest else none

-- a run of digits that is not empty
abbrev pub magnitude : Bytes → Option ℕ
magnitude [] = none
magnitude (c ∷ s) = parse_digits 0 (c ∷ s)

abbrev pub in_range : ℕ → (ℕ → ℤ) → Option ℕ → Option ℤ
in_range limit make none = none
in_range limit make (some n) = if leb n limit then some (make n) else none

abbrev pub int64_max : ℕ
int64_max = 2 ^ 63 - 1

abbrev signed : ℕ → Bytes → Option ℤ
signed c s =
    if leb c b'-' && leb b'-' c
    then in_range (int64_max + 1) minus (magnitude s)
    else if leb c b'+' && leb b'+' c
    then in_range int64_max pos (magnitude s)
    else in_range int64_max pos (magnitude (c ∷ s))

-- strconv.ParseInt(s, 10, 64); none is its error
unfoldable pub parse_int64 : Bytes → Option ℤ
unfolding parse_digits
parse_int64 [] = none
parse_int64 (c ∷ s) = signed c s

-- the values of an int64
abbrev pub IsInt64 : ℤ → Type 0
IsInt64 (pos n) = n ≤ int64_max
IsInt64 (negsuc n) = n ≤ int64_max

parse_negative : parse_int64 (str "-9223372036854775808") ≡ some (negsuc 9223372036854775807)
unfolding parse_int64
parse_negative = refl

parse_overflow : parse_int64 (str "9223372036854775808") ≡ none
unfolding parse_int64
parse_overflow = refl

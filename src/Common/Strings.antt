-- ===== src/Common/Strings.antt =====
-- Go strings: byte sequences. `str` spells an ASCII literal; the operations are those of the
-- packages `strings` and `bytes` that the driver calls.
use Prim.Native.Char.{code}
use Prim.Native.Nat.{ℕ}
use Prim.Native.String.{String}
use mathlib.Core.Path.{◌≡◌, refl, subst}
use mathlib.Core.Logic.{◌↔◌}
use mathlib.Core.Bool.{Bool, true, false, ◌&&◌}
use mathlib.Core.Option.{Option, none, some}
use mathlib.Core.List.{List, [], ◌∷◌, ◌++◌, reverse}
use native.Mathlib.Omega.{arith}
use couchdb.Common.Tests.{◌==◌, if◌then◌else◌}

abbrev pub Bytes : Type 0
Bytes = List ℕ

abbrev pub str : String → Bytes
str String.[] = []
str (String.◌∷◌ c s) = code c ∷ str s

-- the test `a == b` on strings
unfoldable pub equal : Bytes → Bytes → Bool
equal [] [] = true
equal [] (y ∷ ys) = false
equal (x ∷ xs) [] = false
equal (x ∷ xs) (y ∷ ys) = (x == y) && equal xs ys

pub equal_eq : (a b : Bytes) → equal a b ≡ true → a ≡ b
unfolding equal
equal_eq [] [] h = refl
equal_eq [] (y ∷ ys) h = ground arith
equal_eq (x ∷ xs) [] h = ground arith
equal_eq (x ∷ xs) (y ∷ ys) h = ground (arith, equal_eq xs ys)

pub equal_refl : (a : Bytes) → equal a a ≡ true
unfolding equal
equal_refl [] = refl
equal_refl (x ∷ xs) = ground (arith, equal_refl xs)

pub equal_iff : (a b : Bytes) → (equal a b ≡ true) ↔ (a ≡ b)
equal_iff a b = (equal_eq a b, λ e. subst (λ c. equal a c ≡ true) e (equal_refl a))

abbrev pub is_empty : Bytes → Bool
is_empty [] = true
is_empty (c ∷ s) = false

-- what is left of `s` behind the prefix `p`, if `s` begins with it
unfoldable pub cut_prefix : Bytes → Bytes → Option Bytes
cut_prefix [] s = some s
cut_prefix (p ∷ ps) [] = none
cut_prefix (p ∷ ps) (c ∷ s) = let rest = cut_prefix ps s in if c == p then rest else none

-- strings.HasPrefix
unfoldable pub has_prefix : Bytes → Bytes → Bool
unfolding cut_prefix
has_prefix s p = elim (cut_prefix p s) [ none ↦ false | some rest ↦ true ]

-- strings.TrimPrefix
unfoldable pub trim_prefix : Bytes → Bytes → Bytes
unfolding cut_prefix
trim_prefix s p = elim (cut_prefix p s) [ none ↦ s | some rest ↦ rest ]

pub cut_prefix-append : (p s : Bytes) → cut_prefix p (p ++ s) ≡ some s
unfolding cut_prefix
cut_prefix-append [] s = refl
cut_prefix-append (c ∷ p) s = ground (arith, cut_prefix-append p s)

pub append-cut_prefix : (p s t : Bytes) → cut_prefix p s ≡ some t → p ++ t ≡ s
unfolding cut_prefix
append-cut_prefix [] s t h = ground arith
append-cut_prefix (c ∷ p) [] t h = ground arith
append-cut_prefix (c ∷ p) (d ∷ s) t h = ground (arith, append-cut_prefix p s t)

-- leading bytes `q` dropped, one side of strings.Trim with a cutset of one byte
unfoldable pub trim_left : ℕ → Bytes → Bytes
trim_left q [] = []
trim_left q (c ∷ s) = let rest = trim_left q s in if c == q then rest else c ∷ s

-- strings.Trim and bytes.Trim with a cutset of one byte
unfoldable pub trim : ℕ → Bytes → Bytes
unfolding trim_left
trim q s = reverse (trim_left q (reverse (trim_left q s)))

trim_quotes : trim b'"' (str "\"1-abc\"") ≡ str "1-abc"
unfolding trim
trim_quotes = refl

trim_slash : trim_prefix (str "/_up") (str "/") ≡ str "_up"
unfolding trim_prefix
trim_slash = refl

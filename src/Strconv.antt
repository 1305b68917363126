-- ===== src/Strconv.antt =====
-- What the program uses of Go's package strconv, and the `%d` of package fmt, over the integers of
-- 64 bits.
pub mod RoundTrip
use k8s_athenz_syncer.Common.{
  ℕ, zero, suc, ◌+◌, ◌-◌, ◌*◌, ◌/◌, ◌%◌, Bool, true, false, ◌&&◌, Option, none, some, List, [], ◌∷◌,
  ◌++◌, Bytes, codes, ltb, leb, drop, if◌then◌else◌, ◌≡◌, arith,
}
use k8s_athenz_syncer.GoStrings.{has_prefix}

-- `negsuc n` is -(n + 1).
pub data ℤ : Type 0 where
  pos : ℕ → ℤ
  negsuc : ℕ → ℤ

-- Go's `<` on int.
abbrev pub less : ℤ → ℤ → Bool
less (pos a) (pos b) = ltb a b
less (pos a) (negsuc b) = false
less (negsuc a) (pos b) = true
less (negsuc a) (negsuc b) = ltb b a

-- 2 ^ 63
abbrev pub limit : ℕ
limit = 9223372036854775808

abbrev pub digit : ℕ → Option ℕ
digit c = if leb 48 c && leb c 57 then some (c - 48) else none

abbrev pub add_digit : Option ℕ → Option ℕ → Option ℕ
add_digit none d = none
add_digit (some n) none = none
add_digit (some n) (some d) = some (10 * n + d)

-- The digits after the ones read so far.
unfoldable pub digits : Option ℕ → Bytes → Option ℕ
digits acc [] = acc
digits acc (c ∷ s) = digits (add_digit acc (digit c)) s

unfoldable pub natural : Bytes → Option ℕ
unfolding digits
natural [] = none
natural (c ∷ s) = digits (some 0) (c ∷ s)

abbrev pub positive : Option ℕ → Option ℤ
positive none = none
positive (some n) = if ltb n limit then some (pos n) else none

abbrev pub negative : Option ℕ → Option ℤ
negative none = none
negative (some zero) = some (pos 0)
negative (some (suc n)) = if ltb n limit then some (negsuc n) else none

-- strconv.Atoi
unfoldable pub atoi : Bytes → Option ℤ
unfolding natural
atoi s =
    if has_prefix s (codes "-")
    then negative (natural (drop 1 s))
    else if has_prefix s (codes "+")
    then positive (natural (drop 1 s))
    else positive (natural s)

-- The decimal digits of a number that is below the fuel.
unfoldable pub decimal : ℕ → ℕ → Bytes
decimal zero n = []
decimal (suc fuel) n =
    let rest = decimal fuel (n / 10) in
    if ltb n 10 then (48 + n) ∷ [] else rest ++ ((48 + n % 10) ∷ [])

-- fmt.Sprintf("%d", ·)
unfoldable pub itoa : ℤ → Bytes
unfolding decimal
itoa (pos n) = decimal (suc n) n
itoa (negsuc n) = codes "-" ++ decimal (suc (suc n)) (suc n)

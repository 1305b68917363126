-- ===== src/Strconv/RoundTrip.antt =====
-- A printed integer reads back.
use k8s_athenz_syncer.Common.{
  ap, ℕ, zero, suc, ◌+◌, ◌/◌, ◌%◌, ◌<◌, ◌≤◌, ◌≡◌, refl, Option, none, some, [], ◌∷◌, ◌++◌, Bytes,
  codes, ltb, drop, arith, inl, inr, Bool-cases,
}
use k8s_athenz_syncer.GoStrings.{has_prefix}
use k8s_athenz_syncer.Strconv.{
  ℤ, pos, negsuc, limit, digit, add_digit, digits, natural, positive, negative, atoi, decimal, itoa,
}

digits-append :
    (acc : Option ℕ) (s : Bytes) (c : ℕ)
    → digits acc (s ++ (c ∷ [])) ≡ add_digit (digits acc s) (digit c)
unfolding digits
digits-append acc [] c = refl
digits-append acc (d ∷ s) c = digits-append (add_digit acc (digit d)) s c

digit_of : (n : ℕ) → n < 10 → digit (48 + n) ≡ some n
digit_of n h = ground arith

digits-decimal : (fuel n : ℕ) → n < fuel → digits (some 0) (decimal fuel n) ≡ some n
unfolding digits decimal
digits-decimal zero n h = absurd (omega arith)
digits-decimal (suc fuel) n h = elim (Bool-cases (ltb n 10)) [
  | inl small ↦ rw (small, digit_of n (ground (arith, small))) (ap some (omega arith))
  | inr big ↦
      let smaller : n / 10 < fuel = ground (arith, big) in
      rw (big, digits-append, digits-decimal fuel (n / 10) smaller, digit_of (n % 10) (omega arith))
        (ap some (omega arith))
]

-- The text begins with a digit.
abbrev Leads : Bytes → Type 0
Leads [] = ⊥
Leads (c ∷ s) = (48 ≤ c) × (c ≤ 57)

Leads-append : (s t : Bytes) → Leads s → Leads (s ++ t)
Leads-append [] t h = absurd h
Leads-append (c ∷ s) t h = h

decimal-Leads : (fuel n : ℕ) → n < fuel → Leads (decimal fuel n)
unfolding decimal
decimal-Leads zero n h = absurd (omega arith)
decimal-Leads (suc fuel) n h = elim (Bool-cases (ltb n 10)) [
  | inl small ↦ rw small (omega arith, ground (arith, small))
  | inr big ↦
      let smaller : n / 10 < fuel = ground (arith, big) in
      rw big (Leads-append _ _ (decimal-Leads fuel (n / 10) smaller))
]

Leads-natural : (s : Bytes) → Leads s → natural s ≡ digits (some 0) s
unfolding natural
Leads-natural [] h = absurd h
Leads-natural (c ∷ s) h = refl

Leads-atoi : (s : Bytes) → Leads s → atoi s ≡ positive (natural s)
unfolding atoi has_prefix
Leads-atoi [] h = absurd h
Leads-atoi (c ∷ s) (low, high) = ground (arith, low, high)

minus-atoi : (s : Bytes) → atoi (codes "-" ++ s) ≡ negative (natural s)
unfolding atoi has_prefix
minus-atoi s = ground arith

natural-decimal : (fuel n : ℕ) → n < fuel → natural (decimal fuel n) ≡ some n
natural-decimal fuel n h =
    rw (Leads-natural (decimal fuel n) (decimal-Leads fuel n h)) (digits-decimal fuel n h)

-- An integer of 64 bits.
abbrev pub IsInt64 : ℤ → Type 0
IsInt64 (pos n) = n < limit
IsInt64 (negsuc n) = n < limit

pub atoi-itoa : (z : ℤ) → IsInt64 z → atoi (itoa z) ≡ some z
unfolding itoa
atoi-itoa (pos n) h =
    rw
      (
        Leads-atoi (decimal (suc n) n) (decimal-Leads (suc n) n (omega arith)),
        natural-decimal (suc n) n (omega arith),
      )
      (ground (arith, h))
atoi-itoa (negsuc n) h =
    rw
      (
        minus-atoi (decimal (suc (suc n)) (suc n)),
        natural-decimal (suc (suc n)) (suc n) (omega arith),
      )
      (ground (arith, h))

positive-IsInt64 : (m : Option ℕ) (z : ℤ) → positive m ≡ some z → IsInt64 z
positive-IsInt64 none z h = absurd cc
positive-IsInt64 (some n) (pos k) h = ground (arith, h)
positive-IsInt64 (some n) (negsuc k) h = ground (arith, h)

negative-IsInt64 : (m : Option ℕ) (z : ℤ) → negative m ≡ some z → IsInt64 z
negative-IsInt64 none z h = absurd cc
negative-IsInt64 (some zero) (pos k) h = ground (arith, h)
negative-IsInt64 (some zero) (negsuc k) h = absurd cc
negative-IsInt64 (some (suc n)) (pos k) h = ground (arith, h)
negative-IsInt64 (some (suc n)) (negsuc k) h = ground (arith, h)

pub atoi-IsInt64 : (s : Bytes) (z : ℤ) → atoi s ≡ some z → IsInt64 z
unfolding atoi
atoi-IsInt64 s z h = elim (Bool-cases (has_prefix s (codes "-"))) [
  | inl minus ↦ negative-IsInt64 (natural (drop 1 s)) z (rw minus at h)
  | inr other ↦ elim (Bool-cases (has_prefix s (codes "+"))) [
    | inl plus ↦ positive-IsInt64 (natural (drop 1 s)) z (rw (other, plus) at h)
    | inr plain ↦ positive-IsInt64 (natural s) z (rw (other, plain) at h)
  ]
]

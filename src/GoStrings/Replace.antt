-- ===== src/GoStrings/Replace.antt =====
-- strings.HasPrefix, strings.TrimPrefix and strings.Replace at the patterns that the program uses.
use k8s_athenz_syncer.Common.{
  ℕ, ◌≡◌, refl, ◌≢◌, true, [], ◌∷◌, ◌++◌, arith, Bytes, nat_eq, ◌==◌, length, drop, if◌then◌else◌,
}
use k8s_athenz_syncer.GoStrings.{has_prefix, trim_prefix, replace}

pub has_prefix-append : (p s : Bytes) → has_prefix (p ++ s) p ≡ true
unfolding has_prefix
has_prefix-append [] s = refl
has_prefix-append (c ∷ p) s = ground (arith, has_prefix-append p s)

drop-length-append : (p s : Bytes) → drop (length p) (p ++ s) ≡ s
drop-length-append [] s = refl
drop-length-append (c ∷ p) s = drop-length-append p s

pub trim_prefix-append : (p s : Bytes) → trim_prefix (p ++ s) p ≡ s
unfolding trim_prefix
trim_prefix-append p s = ground (arith, has_prefix-append p s, drop-length-append p s)

-- A prefix is what stands in front.
pub has_prefix-eq : (s p : Bytes) → has_prefix s p ≡ true → s ≡ p ++ drop (length p) s
unfolding has_prefix
has_prefix-eq s [] h = refl
has_prefix-eq [] (c ∷ p) h = ground arith
has_prefix-eq (b ∷ s) (c ∷ p) h = ground (arith, has_prefix-eq s p)

-- A pattern of one byte is replaced byte by byte.
pub replace_byte :
    (c : ℕ) (s : Bytes) (b : ℕ) (new : Bytes)
    → replace (c ∷ s) (b ∷ []) new ≡ (if c == b then new else c ∷ []) ++ replace s (b ∷ []) new
unfolding replace has_prefix
replace_byte c s b new = ground arith

module _ (b : ℕ) (new : Bytes) where
  pub replace_pair_hit :
      (s : Bytes) → replace (b ∷ b ∷ s) (b ∷ b ∷ []) new ≡ new ++ replace s (b ∷ b ∷ []) new
  unfolding replace has_prefix
  replace_pair_hit s = ground arith

  pub replace_pair_miss :
      (c : ℕ) (s : Bytes)
      → c ≢ b
      → replace (c ∷ s) (b ∷ b ∷ []) new ≡ c ∷ replace s (b ∷ b ∷ []) new
  unfolding replace has_prefix
  replace_pair_miss c s h = ground arith

  pub replace_pair_half :
      (c : ℕ) (s : Bytes)
      → c ≢ b
      → replace (b ∷ c ∷ s) (b ∷ b ∷ []) new ≡ b ∷ replace (c ∷ s) (b ∷ b ∷ []) new
  unfolding replace has_prefix
  replace_pair_half c s h = ground arith

  pub replace_pair_last : replace (b ∷ []) (b ∷ b ∷ []) new ≡ b ∷ []
  unfolding replace has_prefix
  replace_pair_last = ground arith

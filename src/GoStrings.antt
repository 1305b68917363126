-- ===== src/GoStrings.antt =====
-- What the program uses of Go's package strings, over bytes.
pub mod Replace
use k8s_athenz_syncer.Common.{
  ℕ, zero, suc, ◌-◌, ◌≡◌, refl, Bool, true, false, ◌&&◌, ◌||◌, List, [], ◌∷◌, ◌++◌, arith, Bytes,
  bytes_eq, nat_eq, ◌==◌, length, drop, if◌then◌else◌,
}

-- strings.HasPrefix
unfoldable pub has_prefix : Bytes → Bytes → Bool
has_prefix s [] = true
has_prefix [] (p ∷ prefix) = false
has_prefix (c ∷ s) (p ∷ prefix) = c == p && has_prefix s prefix

-- strings.TrimPrefix
unfoldable pub trim_prefix : Bytes → Bytes → Bytes
trim_prefix s prefix = if has_prefix s prefix then drop (length prefix) s else s

-- The scan of strings.Replace: the number says how many bytes of a match are still to be skipped.
unfoldable pub replace_from : ℕ → Bytes → Bytes → Bytes → Bytes
unfolding has_prefix
replace_from skip [] old new = []
replace_from (suc skip) (c ∷ s) old new = replace_from skip s old new
replace_from zero (c ∷ s) old new =
    let hit = has_prefix (c ∷ s) old in
    (if hit then new else c ∷ []) ++ replace_from (if hit then length old - 1 else 0) s old new

-- strings.Replace(s, old, new, -1) with an `old` that is not empty: every match from the left that
-- overlaps none before it.
unfoldable pub replace : Bytes → Bytes → Bytes → Bytes
unfolding replace_from
replace s old new = replace_from 0 s old new

-- strings.Split with a separator of one byte.
unfoldable pub split_from : Bytes → Bytes → ℕ → List Bytes
split_from part [] sep = part ∷ []
split_from part (c ∷ s) sep =
    let cut = part ∷ split_from [] s sep in
    let grow = split_from (part ++ c ∷ []) s sep in if c == sep then cut else grow

unfoldable pub split : Bytes → ℕ → List Bytes
unfolding split_from
split s sep = split_from [] s sep

-- The ASCII white space of strings.TrimSpace.
abbrev pub is_space : ℕ → Bool
is_space c = c == 32 || c == 9 || c == 10 || c == 11 || c == 12 || c == 13

unfoldable pub trim_left : Bytes → Bytes
trim_left [] = []
trim_left (c ∷ s) = if is_space c then trim_left s else c ∷ s

unfoldable pub trim_right : Bytes → Bytes
trim_right [] = []
trim_right (c ∷ s) = let rest = trim_right s in if is_space c && rest == [] then [] else c ∷ rest

-- strings.TrimSpace, on ASCII text.
unfoldable pub trim_space : Bytes → Bytes
unfolding trim_left trim_right
trim_space s = trim_right (trim_left s)

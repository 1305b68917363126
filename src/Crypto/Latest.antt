-- ===== src/Crypto/Latest.antt =====
-- Which version of the private key is used.
use k8s_athenz_syncer.Common.{
  Bool, Bool-cases, codes, In, ◌↔◌, ◌≡◌, refl, inl, inr, false, Option, none, some, List, [], ◌∷◌,
  ◌++◌, arith, Bytes, All, drop,
}
use k8s_athenz_syncer.Strconv.{ℤ, less, atoi}
use k8s_athenz_syncer.Strconv.RoundTrip.{IsInt64, atoi-itoa, atoi-IsInt64}
use k8s_athenz_syncer.GoStrings.{has_prefix, trim_prefix}
use k8s_athenz_syncer.Crypto.{VersionedFiles, Fv, Files, entry, versioned}

-- No item stands before one that the test puts in front of it.
abbrev pub IsOrdered : (Fv → Fv → Bool) → List Fv → Type 0
IsOrdered test [] = Unit
IsOrdered test (fv ∷ rest) = All (λ later. test later fv ≡ false) rest × IsOrdered test rest

-- What sort.Slice documents of a test and a slice: the items are those of before, in the order of the
-- test.
abbrev pub Sorts : Files → (Fv → Fv → Bool) → List Fv → Type 0
Sorts fs test xs =
    ((fv : Fv) → In fv (fs.sort_slice test xs) ↔ In fv xs) × IsOrdered test (fs.sort_slice test xs)

-- An entry with the version that no other one exceeds.
abbrev pub IsTop : List Fv → Fv → Type 0
IsTop found top = In top found × All (λ fv. less top.version fv.version ≡ false) found

versioned-version_str :
    (fs : Files) (f : VersionedFiles) (name : Bytes) (v : Option ℤ) (fv : Fv)
    → ((z : ℤ) → v ≡ some z → IsInt64 z)
    → versioned fs f name v ≡ some fv
    → (v ≡ some fv.version) × (atoi (drop 1 fv.version_str) ≡ some fv.version)
unfolding versioned
versioned-version_str fs f name none fv small h = absurd cc
versioned-version_str fs f name (some z) fv small h =
    (ground (arith, h), ground (arith, h, atoi-itoa z (small z refl)))

-- The text of the version of an entry is the letter v and the version's number: read back, it is the
-- version that the name of the file gave.
entry-version_str :
    (fs : Files) (f : VersionedFiles) (name : Bytes) (fv : Fv)
    → entry fs f name ≡ some fv
    → (atoi (trim_prefix name (f.prefix ++ codes ".v")) ≡ some fv.version)
      × (atoi (drop 1 fv.version_str) ≡ some fv.version)
unfolding entry
entry-version_str fs f name fv h = elim (Bool-cases (has_prefix name (f.prefix ++ codes ".v"))) [
  | inl ours ↦
      versioned-version_str fs f name (atoi (trim_prefix name (f.prefix ++ codes ".v"))) fv
        (λ z e. atoi-IsInt64 _ z e) (rw ours at h)
  | inr not_ours ↦ absurd (ground (arith, h, not_ours))
]

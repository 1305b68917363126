-- ===== src/Flag/Values.antt =====
-- The values of flags that are set more than once.
use k8s_athenz_syncer.Common.{
  ◌≡◌, refl, none, some, List, [], ◌∷◌, ◌++◌, Bytes, Option-cases, inl, inr, bytes_eq,
}
use k8s_athenz_syncer.Flag.{Formals, assigned, value_of}

assigned-append :
    (a b : List (Bytes × Bytes)) (name : Bytes)
    → assigned (a ++ b) name
      ≡ elim (assigned b name) [ some value ↦ some value | none ↦ assigned a name ]
unfolding assigned
assigned-append [] b name = elim (Option-cases (assigned b name)) [
  | inl e ↦ rw e refl
  | inr (v, e) ↦ rw e refl
]
assigned-append ((set, value) ∷ a) b name = elim (Option-cases (assigned b name)) [
  | inl e ↦ rw (assigned-append a b name, e) refl
  | inr (v, e) ↦ rw (assigned-append a b name, e) refl
]

assigned-twice :
    (settings : List (Bytes × Bytes)) (name : Bytes)
    → assigned (settings ++ settings) name ≡ assigned settings name
assigned-twice settings name = elim (Option-cases (assigned settings name)) [
  | inl e ↦ rw (assigned-append settings settings name, e) e
  | inr (v, e) ↦ rw (assigned-append settings settings name, e) refl
]

-- Setting the flags again in the same way changes no value.
pub value_of-twice :
    (formals : Formals) (settings : List (Bytes × Bytes)) (name : Bytes)
    → value_of formals (settings ++ settings) name ≡ value_of formals settings name
unfolding value_of
value_of-twice formals settings name = rw (value_of, assigned-twice settings name) refl

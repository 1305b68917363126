-- ===== src/System/Own.antt =====
-- What is asked of a turn of the worker only where its key is a given domain.
use k8s_athenz_syncer.Common.{
  arith, ◌≡◌, refl, sym, ap, ◌∙◌, ◌≢◌, ◌⊎◌, inl, inr, Option, none, some, Bytes, bytes_discrete,
}
use k8s_athenz_syncer.WorkQueue.{Key, name, other}

module _ (domain : Bytes) where
  abbrev OwnIf : {d : Bytes} → Dec (domain ≡ d) → Type 0 → Type 0
  OwnIf (yes same) T = T
  OwnIf (no apart) T = Unit

  -- What is asked where a key is the domain.
  abbrev pub Own : Option Key → Type 0 → Type 0
  Own (some (name d)) T = OwnIf (bytes_discrete domain d) T
  Own _ T = Unit

  abbrev pub IsApart : Option Key → Type 0
  IsApart key = (d : Bytes) → key ≡ some (name d) → domain ≢ d

  pub key_cases : (key : Option Key) → (key ≡ some (name domain)) ⊎ IsApart key
  key_cases none = inr (λ d e. absurd (ground (arith, e)))
  key_cases (some other) = inr (λ d e. absurd (ground (arith, e)))
  key_cases (some (name d)) = elim (bytes_discrete domain d) [
    | yes same ↦ inl (ap (λ n. some (name n)) (sym same))
    | no apart ↦ inr (λ n e same. apart (same ∙ ground (arith, e)))
  ]

  pub of_own : (key : Option Key) (T : Type 0) → key ≡ some (name domain) → Own key T → T
  of_own none T e own = absurd (ground (arith, e))
  of_own (some other) T e own = absurd (ground (arith, e))
  of_own (some (name d)) T e own = of (bytes_discrete domain d) own
    where
      of : (same : Dec (domain ≡ d)) → OwnIf same T → T
      of (yes same) own = own
      of (no apart) own = absurd (apart (ground (arith, e)))

  pub to_own : (key : Option Key) (T : Type 0) → T → Own key T
  to_own none T t = tt
  to_own (some other) T t = tt
  to_own (some (name d)) T t = to (bytes_discrete domain d)
    where
      to : (same : Dec (domain ≡ d)) → OwnIf same T
      to (yes same) = t
      to (no apart) = tt

  pub apart_own : (key : Option Key) (T : Type 0) → IsApart key → Own key T
  apart_own none T apart = tt
  apart_own (some other) T apart = tt
  apart_own (some (name d)) T apart = to (bytes_discrete domain d)
    where
      to : (same : Dec (domain ≡ d)) → OwnIf same T
      to (yes same) = absurd (apart d refl same)
      to (no _) = tt

-- ===== src/Flag/Print.antt =====
-- Flags written as `-name=value`, and flags that are not registered.
use k8s_athenz_syncer.Common.{
  ◌≡◌, refl, ◌≢◌, true, none, some, List, [], ◌∷◌, ◌++◌, Bytes, All, map, arith, bytes_eq, nat_eq,
  codes, ap, ℕ,
}
use k8s_athenz_syncer.GoMap.{lookup}
use k8s_athenz_syncer.Flag.{
  Formal, Formals, Parsed, exited, read, read_name, parse, set_first, cut_equals, is_bad_name, dash,
  equals, fails, read_formal, undefined,
}

abbrev pub print : Bytes × Bytes → Bytes
print (name, value) = dash ∷ name ++ (equals ∷ value)

-- A name that can stand before an equals sign.
abbrev pub IsFlagName : Bytes → Type 0
IsFlagName [] = ⊥
IsFlagName (c ∷ rest) = (c ≢ dash) × (All (λ d. d ≢ equals) (c ∷ rest))

cut_equals-append :
    (name value : Bytes)
    → All (λ d. d ≢ equals) name
    → cut_equals (name ++ (equals ∷ value)) ≡ (name, some value)
unfolding cut_equals
cut_equals-append [] value h = ground arith
cut_equals-append (c ∷ rest) value h = ground (arith, h.0, cut_equals-append rest value h.1)

module _ (formals : Formals) where
  read_name-append :
      (name value : Bytes)
      → IsFlagName name
      → read_name formals (name ++ (equals ∷ value))
        ≡ read_formal (lookup formals name) name (some value)
  unfolding read_name is_bad_name
  read_name-append (c ∷ rest) value (h, k) =
      rw (cut_equals-append (c ∷ rest) value k) (ground (arith, h, k.0))
  read_name-append [] value h = elim h [ ]

  read-print :
      (name value : Bytes)
      → IsFlagName name
      → read formals (print (name, value)) ≡ read_formal (lookup formals name) name (some value)
  unfolding read
  read-print (c ∷ []) value h = ground (arith, h.0, read_name-append (c ∷ []) value h)
  read-print (c ∷ d ∷ rest) value h = ground (arith, h.0, read_name-append (c ∷ d ∷ rest) value h)
  read-print [] value h = elim h [ ]

  -- A setting of a registered flag to a value that it takes.
  abbrev pub IsSetting : Bytes × Bytes → Type 0
  IsSetting (name, value) =
      IsFlagName name
      × ((formal : Formal) × (lookup formals name ≡ some formal) × (formal.accepts value ≡ true))

  abbrev pub set_all : List (Bytes × Bytes) → Parsed → Parsed
  set_all [] p = p
  set_all ((name, value) ∷ settings) p = set_first name value (set_all settings p)

  -- Settings that are written as `-name=value` are read back in their order, and then the rest of the
  -- command line is read.
  pub parse-print :
      (settings : List (Bytes × Bytes)) (more : List Bytes)
      → All IsSetting settings
      → parse formals none (map print settings ++ more) ≡ set_all settings (parse formals none more)
  unfolding parse
  parse-print [] more h = refl
  parse-print ((name, value) ∷ settings) more ((n, (formal, e, ok)), h) =
      rw (parse, read-print name value n, e, ok)
        (ap (set_first name value) (parse-print settings more h))

  set_all-exited :
      (settings : List (Bytes × Bytes)) (code : ℕ) → set_all settings (exited code) ≡ exited code
  set_all-exited [] code = refl
  set_all-exited ((name, value) ∷ settings) code =
      ap (set_first name value) (set_all-exited settings code)

  undefined_fails :
      (name : Bytes) → name ≢ codes "help" → name ≢ codes "h" → undefined name ≡ fails 2
  undefined_fails name help help_short = ground (arith, help, help_short)

  -- A flag that is not registered ends the process with the exit code 2, wherever it stands behind
  -- settings, unless it asks for help.
  pub parse-undefined :
      (settings : List (Bytes × Bytes)) (name value : Bytes) (more : List Bytes)
      → All IsSetting settings
      → IsFlagName name
      → lookup formals name ≡ none
      → name ≢ codes "help"
      → name ≢ codes "h"
      → parse formals none (map print settings ++ (print (name, value) ∷ more)) ≡ exited 2
  unfolding parse
  parse-undefined settings name value more h n e help help_short =
      rw
        (
          parse-print settings (print (name, value) ∷ more) h,
          parse,
          read-print name value n,
          e,
          undefined_fails name help help_short,
        )
        (set_all-exited settings 2)

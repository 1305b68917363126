-- ===== src/Flag/Laws.antt =====
-- What a command line sets: only registered flags, and what was printed as `-name=value`.
use mathlib.Core.Path.{subst}
use k8s_athenz_syncer.Common.{
  ap, sym, ◌≡◌, refl, true, false, Option, none, some, List, [], ◌∷◌, Bytes, All, arith,
  Option-cases, Bool-cases, bytes_discrete, inl, inr, is_some, bytes_eq, nat_eq, codes, ◌==◌, ◌||◌,
  Bool,
}
use k8s_athenz_syncer.GoMap.{lookup}
use k8s_athenz_syncer.Common.{if◌then◌else◌}
use k8s_athenz_syncer.Flag.{
  with_value, Formal, Formals, Parsed, finished, exited, Reading, plain, terminator, given, awaits,
  fails, read, read_name, read_formal, undefined, parse, set_first, accepts_next, assigned,
  is_bad_name, dash,
}

-- More flags are registered, and those there are stay.
abbrev pub Extends : Formals → Formals → Type 0
Extends f g =
    (name : Bytes) (formal : Formal) → lookup f name ≡ some formal → lookup g name ≡ some formal

pub Extends-cons :
    (f : Formals) (name : Bytes) (formal : Formal)
    → lookup f name ≡ none
    → Extends f ((name, formal) ∷ f)
unfolding lookup
Extends-cons f name formal absent n x e = elim (bytes_discrete n name) [
  | yes same ↦ absurd (ground (arith, same, absent, e))
  | no other_name ↦ ground (arith, e)
]

abbrev pub Succeeds : Parsed → Type 0
Succeeds (finished settings rest) = Unit
Succeeds (exited code) = ⊥

set_first-Succeeds :
    (name value : Bytes) (p : Parsed) → Succeeds (set_first name value p) → Succeeds p
set_first-Succeeds name value (finished settings rest) h = tt
set_first-Succeeds name value (exited code) h = elim h [ ]

abbrev Goes : Reading → Type 0
Goes (fails code) = ⊥
Goes _ = Unit

undefined-Goes : (name : Bytes) → Goes (undefined name) → ⊥
undefined-Goes name goes = elim (Bool-cases (name == codes "help" || name == codes "h")) [
  | inl e ↦ (rw e at goes)
  | inr e ↦ (rw e at goes)
]

module _ (f g : Formals) (more : Extends f g) where
  read_formal-Extends :
      (name : Bytes) (value : Option Bytes)
      → Goes (read_formal (lookup f name) name value)
      → read_formal (lookup g name) name value ≡ read_formal (lookup f name) name value
  read_formal-Extends name value goes = elim (Option-cases (lookup f name)) [
    | inl e ↦ absurd (undefined-Goes name (rw e at goes))
    | inr (formal, e) ↦ rw (e, more name formal e) refl
  ]

  read_name-Extends : (text : Bytes) → Goes (read_name f text) → read_name g text ≡ read_name f text
  unfolding read_name
  read_name-Extends text goes = elim (Bool-cases (is_bad_name text)) [
    | inl bad ↦ rw bad refl
    | inr good ↦ rw good (read_formal-Extends _ _ (rw good at goes))
  ]

  read-Extends : (arg : Bytes) → Goes (read f arg) → read g arg ≡ read f arg
  unfolding read
  read-Extends [] goes = refl
  read-Extends (c ∷ []) goes = refl
  read-Extends (c ∷ d ∷ []) goes = ground (arith, read_name-Extends (d ∷ []))
  read-Extends (c ∷ d ∷ e ∷ rest) goes =
      ground (arith, read_name-Extends (e ∷ rest), read_name-Extends (d ∷ e ∷ rest))

  next-Extends :
      (name value : Bytes) → accepts_next f name value ≡ true → accepts_next g name value ≡ true
  next-Extends name value ok = elim (Option-cases (lookup f name)) [
    | inl e ↦ ground (arith, ok, e)
    | inr (formal, e) ↦ rw (accepts_next, more name formal e) (ground (arith, ok, e))
  ]

  after_reading :
      (arg : Bytes) (later : List Bytes) (r : Reading)
      → ((waiting : Option Bytes)
          → Succeeds (parse f waiting later)
          → parse g waiting later ≡ parse f waiting later)
      → read f arg ≡ r
      → Succeeds (parse f none (arg ∷ later))
      → parse g none (arg ∷ later) ≡ parse f none (arg ∷ later)
  unfolding parse
  after_reading arg later plain same e h =
      rw (parse, read-Extends arg (subst Goes (sym e) tt), e) refl
  after_reading arg later terminator same e h =
      rw (parse, read-Extends arg (subst Goes (sym e) tt), e) refl
  after_reading arg later (given name value) same e h =
      rw (parse, read-Extends arg (subst Goes (sym e) tt), e)
        (ap (set_first name value)
          (same none (set_first-Succeeds name value _ (rw (parse, e) at h))))
  after_reading arg later (awaits name) same e h =
      rw (parse, read-Extends arg (subst Goes (sym e) tt), e)
        (same (some name) (rw (parse, e) at h))
  after_reading arg later (fails code) same e h = absurd (rw (parse, e) at h)

  -- A command line that is accepted with some flags registered reads the same with more flags.
  pub parse-Extends :
      (waiting : Option Bytes) (args : List Bytes)
      → Succeeds (parse f waiting args)
      → parse g waiting args ≡ parse f waiting args
  unfolding parse
  parse-Extends none [] h = refl
  parse-Extends (some name) [] h = refl
  parse-Extends (some name) (value ∷ later) h = elim (Bool-cases (accepts_next f name value)) [
    | inl accepted ↦
        rw (accepted, next-Extends name value accepted)
          (ap (set_first name value)
            (parse-Extends none later (set_first-Succeeds name value _ (rw accepted at h))))
    | inr refused ↦ absurd (rw refused at h)
  ]
  parse-Extends none (arg ∷ later) h =
      after_reading arg later (read f arg) (λ waiting. parse-Extends waiting later) refl h

-- The settings and the arguments that are no flags.
abbrev pub settings_of : Parsed → List (Bytes × Bytes)
settings_of (finished settings rest) = settings
settings_of (exited code) = []

module _ (formals : Formals) where
  abbrev pub Defines : Bytes × Bytes → Type 0
  Defines (name, value) = is_some (lookup formals name) ≡ true

  abbrev Names : Reading → Type 0
  Names (given name value) = Defines (name, value)
  Names _ = Unit

  Names-if : (b : Bool) (x y : Reading) → Names x → Names y → Names (if b then x else y)
  Names-if true x y hx hy = hx
  Names-if false x y hx hy = hy

  with_value-Names :
      (formal : Formal) (name : Bytes) (value : Option Bytes)
      → Defines (name, [])
      → Names (with_value formal name value)
  with_value-Names formal name (some value) h =
      Names-if (formal.accepts value) (given name value) (fails 2) h tt
  with_value-Names formal name none h =
      Names-if formal.is_bool (given name (codes "true")) (awaits name) h tt

  read_formal-Names :
      (name : Bytes) (value : Option Bytes) → Names (read_formal (lookup formals name) name value)
  read_formal-Names name value = elim (Option-cases (lookup formals name)) [
    | inl e ↦ rw e (Names-if (name == codes "help" || name == codes "h") (fails 0) (fails 2) tt tt)
    | inr (formal, e) ↦ rw e (with_value-Names formal name value (rw e refl))
  ]

  read_name-Names : (text : Bytes) → Names (read_name formals text)
  unfolding read_name
  read_name-Names text = Names-if (is_bad_name text) (fails 2) _ tt (read_formal-Names _ _)

  read-Names : (arg : Bytes) → Names (read formals arg)
  unfolding read
  read-Names [] = tt
  read-Names (c ∷ []) = tt
  read-Names (c ∷ d ∷ []) =
      Names-if (c == dash) _ plain (Names-if (d == dash) terminator _ tt (read_name-Names (d ∷ [])))
        tt
  read-Names (c ∷ d ∷ e ∷ rest) =
      Names-if (c == dash) _ plain
        (Names-if (d == dash) _ _ (read_name-Names (e ∷ rest)) (read_name-Names (d ∷ e ∷ rest))) tt

  set_first-Defines :
      (name value : Bytes) (p : Parsed)
      → Defines (name, value)
      → All Defines (settings_of p)
      → All Defines (settings_of (set_first name value p))
  set_first-Defines name value (finished settings rest) h k = (h, k)
  set_first-Defines name value (exited code) h k = tt

  accepts_next-Defines :
      (name value : Bytes) → accepts_next formals name value ≡ true → Defines (name, value)
  accepts_next-Defines name value h = elim (Option-cases (lookup formals name)) [
    | inl e ↦ absurd (ground (arith, h, e))
    | inr (formal, e) ↦ rw e refl
  ]

  reading-Defines :
      (arg : Bytes) (later : List Bytes) (r : Reading)
      → ((waiting : Option Bytes) → All Defines (settings_of (parse formals waiting later)))
      → read formals arg ≡ r
      → Names r
      → All Defines (settings_of (parse formals none (arg ∷ later)))
  unfolding parse
  reading-Defines arg later plain all e h = rw (parse, e) tt
  reading-Defines arg later terminator all e h = rw (parse, e) tt
  reading-Defines arg later (given name value) all e h =
      rw (parse, e) (set_first-Defines name value (parse formals none later) h (all none))
  reading-Defines arg later (awaits name) all e h = rw (parse, e) (all (some name))
  reading-Defines arg later (fails code) all e h = rw (parse, e) tt

  -- A command line sets registered flags only.
  pub parse-Defines :
      (waiting : Option Bytes) (args : List Bytes)
      → All Defines (settings_of (parse formals waiting args))
  unfolding parse
  parse-Defines none [] = tt
  parse-Defines (some name) [] = tt
  parse-Defines (some name) (value ∷ later) = elim (Bool-cases (accepts_next formals name value)) [
    | inl accepted ↦ rw accepted (
        set_first-Defines name value (parse formals none later)
          (accepts_next-Defines name value accepted) (parse-Defines none later))
    | inr refused ↦ rw refused tt
  ]
  parse-Defines none (arg ∷ later) =
      reading-Defines arg later (read formals arg) (λ waiting. parse-Defines waiting later) refl
        (read-Names arg)

  -- A flag that is not registered has no value.
  pub assigned-undefined :
      (settings : List (Bytes × Bytes)) (name : Bytes)
      → All Defines settings
      → lookup formals name ≡ none
      → assigned settings name ≡ none
  unfolding assigned
  assigned-undefined [] name h e = refl
  assigned-undefined ((set, value) ∷ rest) name h e =
      rw (assigned-undefined rest name h.1 e) (ground (arith, h.0, e))

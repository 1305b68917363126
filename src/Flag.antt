-- ===== src/Flag.antt =====
-- Package flag, as far as main.go uses it: the reading of a command line by CommandLine.Parse, which
-- ends the process at an error.
pub mod Laws
pub mod Print
pub mod Values
use k8s_athenz_syncer.Common.{
  ℕ, Bool, true, false, ◌||◌, Option, none, some, List, [], ◌∷◌, ◌++◌, Bytes, bytes_eq, nat_eq,
  codes, ◌==◌, if◌then◌else◌, contains,
}
use k8s_athenz_syncer.GoMap.{GoMap, lookup}

-- A flag that is registered.
pub record Formal : Type 0 where
  -- Its value has a method IsBoolFlag that answers true.
  pub is_bool : Bool
  -- Set returns no error.
  pub accepts : Bytes → Bool
  pub default : Bytes

abbrev pub Formals : Type 0
Formals = GoMap Bytes Formal

-- What Parse leaves: the flags that it set, in order, and the arguments that are no flags; or the exit
-- code.
pub data Parsed : Type 0 where
  finished : List (Bytes × Bytes) → List Bytes → Parsed
  exited : ℕ → Parsed

-- What one argument is.
pub data Reading : Type 0 where
  -- The first argument that is no flag.
  plain : Reading
  -- Two dashes, which end the flags.
  terminator : Reading
  given : Bytes → Bytes → Reading
  -- A flag whose value is the next argument.
  awaits : Bytes → Reading
  fails : ℕ → Reading

-- The codes of a dash and of an equals sign.
abbrev pub dash : ℕ
dash = 45

abbrev pub equals : ℕ
equals = 61

-- The name before the first equals sign, and the value behind it.
unfoldable pub cut_equals : Bytes → Bytes × Option Bytes
cut_equals [] = ([], none)
cut_equals (c ∷ rest) =
    let (name, value) = cut_equals rest in
    if c == equals then ([], some rest) else (c ∷ name, value)

unfoldable pub is_bad_name : Bytes → Bool
is_bad_name [] = true
is_bad_name (c ∷ rest) = c == dash || c == equals

abbrev pub accepted : Formal → Bytes → Bytes → Reading
accepted formal name value = if formal.accepts value then given name value else fails 2

abbrev pub with_value : Formal → Bytes → Option Bytes → Reading
with_value formal name (some value) = accepted formal name value
with_value formal name none = if formal.is_bool then given name (codes "true") else awaits name

-- A flag that is not registered: help ends the process too.
abbrev pub undefined : Bytes → Reading
undefined name = if name == codes "help" || name == codes "h" then fails 0 else fails 2

abbrev pub read_formal : Option Formal → Bytes → Option Bytes → Reading
read_formal none name value = undefined name
read_formal (some formal) name value = with_value formal name value

module _ (formals : Formals) where
  unfoldable pub read_name : Bytes → Reading
  read_name text =
      let (name, value) = cut_equals text in
      if is_bad_name text then fails 2 else read_formal (lookup formals name) name value

  unfoldable pub read : Bytes → Reading
  read [] = plain
  read (c ∷ []) = plain
  read (c ∷ d ∷ []) =
      if c == dash then if d == dash then terminator else read_name (d ∷ []) else plain
  read (c ∷ d ∷ e ∷ rest) =
      if c == dash
      then if d == dash then read_name (e ∷ rest) else read_name (d ∷ e ∷ rest)
      else plain

  abbrev pub accepts_next : Bytes → Bytes → Bool
  accepts_next name value = elim (lookup formals name) [
    | some formal ↦ formal.accepts value
    | none ↦ false
  ]

abbrev pub set_first : Bytes → Bytes → Parsed → Parsed
set_first name value (finished settings rest) = finished ((name, value) ∷ settings) rest
set_first name value (exited code) = exited code

module _ (formals : Formals) where
  -- The name is the flag that waits for its value.
  unfoldable pub parse : Option Bytes → List Bytes → Parsed
  parse none [] = finished [] []
  parse (some name) [] = exited 2
  parse (some name) (value ∷ rest) =
      let after = parse none rest in
      if accepts_next formals name value then set_first name value after else exited 2
  parse none (arg ∷ rest) = elim (read formals arg) [
    | plain ↦ finished [] (arg ∷ rest)
    | terminator ↦ finished [] rest
    | given name value ↦ set_first name value (parse none rest)
    | awaits name ↦ parse (some name) rest
    | fails code ↦ exited code
  ]

-- The value that a flag was last set to.
unfoldable pub assigned : List (Bytes × Bytes) → Bytes → Option Bytes
assigned [] name = none
assigned ((set, value) ∷ rest) name = elim (assigned rest name) [
  | some later ↦ some later
  | none ↦ if set == name then some value else none
]

-- The value of a registered flag.
unfoldable pub value_of : Formals → List (Bytes × Bytes) → Bytes → Bytes
value_of formals settings name = elim (assigned settings name) [
  | some value ↦ value
  | none ↦ elim (lookup formals name) [ some formal ↦ formal.default | none ↦ [] ]
]

-- strconv.ParseBool, for the truth and for the absence of an error.
abbrev pub true_texts : List Bytes
true_texts = codes "1" ∷ codes "t" ∷ codes "T" ∷ codes "TRUE" ∷ codes "true" ∷ codes "True" ∷ []

abbrev pub false_texts : List Bytes
false_texts = codes "0" ∷ codes "f" ∷ codes "F" ∷ codes "FALSE" ∷ codes "false" ∷ codes "False" ∷ []

abbrev pub is_bool_text : Bytes → Bool
is_bool_text text = contains true_texts text || contains false_texts text

-- flag.String and flag.Bool.
abbrev pub string_flag : Bytes → Bytes → Bytes × Formal
string_flag name default =
    (name, record { is_bool = false; accepts = λ value. true; default = default })

abbrev pub bool_flag : Bytes → Bool → Bytes × Formal
bool_flag name default = (
  name,
  record {
    is_bool = true;
    accepts = is_bool_text;
    default = if default then codes "true" else codes "false";
  },
)

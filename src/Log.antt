-- ===== src/Log.antt =====
-- pkg/log/log.go. The logger of logrus, the file and the directories are parameters: a logger is kept
-- as what it is made of, and a call of it as an entry that it is given. logrus drops the entries below
-- the logger's level, and its Fatal and Panic functions end the process or the goroutine after that.
use k8s_athenz_syncer.Common.{
  ℕ, ◌≡◌, refl, inl, inr, Bool, Option, none, some, List, [], ◌∷◌, ◌++◌, Bytes, bytes_eq,
  if◌then◌else◌, leb, Bool-cases,
}

-- The levels of logrus, from the most severe one on.
pub data Level : Type 0 where
  panic : Level
  fatal : Level
  error : Level
  warn : Level
  info : Level
  debug : Level
  trace : Level

-- Where a logger writes: to standard output and the file, which is rotated, or to the first alone.
pub data Out : Type 0 where
  stdout_and_file : Bytes → Out
  stdout : Out

pub record Logger : Type 0 where
  pub out : Out
  pub level : Level

-- The warnings that newLogger writes to the standard logger of logrus.
pub data Warning : Type 0 where
  no_level : Warning
  no_directory : Warning

-- What newLogger asks of others: logrus.ParseLevel, and whether filepath.Dir and os.MkdirAll succeed
-- for the file.
pub record Surroundings : Type 0 where
  pub parse_level : Bytes → Option Level
  pub makes_directory : Bytes → Bool

module _ (s : Surroundings) where
  abbrev pub level_of : Option Level → Level × List Warning
  level_of (some level) = (level, [])
  level_of none = (info, no_level ∷ [])

  unfoldable pub new_logger : Bytes → Bytes → Logger × List Warning
  new_logger log_file level =
      let (log_level, warnings) = level_of (s.parse_level level) in
      if s.makes_directory log_file
      then (record { out = stdout_and_file log_file; level = log_level }, warnings)
      else (record { out = stdout; level = log_level }, warnings ++ (no_directory ∷ []))

-- The package's variable log, nil before InitLogger.
abbrev pub Log : Type 0
Log = Option Logger

unfoldable pub init_logger : Surroundings → Bytes → Bytes → Log
init_logger s log_file level = some (new_logger s log_file level).0

-- The functions of the package. Each stands for three, whose names end in nothing, f or ln and which
-- differ in how they make one text of their arguments.
pub data Function : Type 0 where
  debug_call : Function
  info_call : Function
  print_call : Function
  warn_call : Function
  warning_call : Function
  error_call : Function
  fatal_call : Function
  panic_call : Function

-- How a call ends: it returns, exits the process, or panics.
pub data End : Type 0 where
  returns : End
  exits : End
  panics : End

-- The method of logrus that a function forwards to, by its level and its end.
abbrev pub method : Function → Level × End
method debug_call = (debug, returns)
method info_call = (info, returns)
method print_call = (info, returns)
method warn_call = (warn, returns)
method warning_call = (warn, returns)
method error_call = (error, returns)
method fatal_call = (fatal, exits)
method panic_call = (panic, panics)

abbrev pub rank : Level → ℕ
rank panic = 0
rank fatal = 1
rank error = 2
rank warn = 3
rank info = 4
rank debug = 5
rank trace = 6

-- logrus writes the entries that are at least as severe as the logger's level.
abbrev pub written : Logger → Level → Bytes → List (Level × Bytes)
written logger level text = if leb (rank level) (rank logger.level) then (level, text) ∷ [] else []

-- A call with a text: its end and what it writes. A nil logger is dereferenced.
unfoldable pub call : Log → Function → Bytes → End × List (Level × Bytes)
call none function text = (panics, [])
call (some logger) function text =
    let (level, end) = method function in (end, written logger level text)

-- The record of a request, as AccessLogger.Log prints it.
unfoldable pub access_log : Logger → Bytes → List (Level × Bytes)
access_log logger record_text = written logger info record_text

unfoldable pub init_access_logger : Surroundings → Bytes → Bytes → Logger
init_access_logger s log_file level = (new_logger s log_file level).0

module _ (s : Surroundings) where
  new_logger-level :
      (log_file level : Bytes)
      → (new_logger s log_file level).0.level ≡ (level_of s (s.parse_level level)).0
  unfolding new_logger
  new_logger-level log_file level = elim (Bool-cases (s.makes_directory log_file)) [
    | inl e ↦ rw e refl
    | inr e ↦ rw e refl
  ]

  -- Before InitLogger every function of the package panics. After it, whether or not the directory could
  -- be made, a function ends as its name says, and writes its entry exactly if this is at least as
  -- severe as the level that was asked for, or as info where that could not be parsed.
  pub call-init_logger :
      (log_file level : Bytes) (function : Function) (text : Bytes)
      → let (end, entries) = call (init_logger s log_file level) function text in
        let (severity, as_named) = method function in
        ((call none function text).0 ≡ panics)
        × (end ≡ as_named)
        × (entries ≡ (
            if leb (rank severity) (rank (level_of s (s.parse_level level)).0)
            then (severity, text) ∷ []
            else []))
  unfolding call init_logger
  call-init_logger log_file level function text =
      (refl, refl, rw (new_logger-level log_file level) refl)

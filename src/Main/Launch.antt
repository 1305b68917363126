-- ===== src/Main/Launch.antt =====
-- main.go as a whole, from the command line to the controller that is about to run. The logger is made
-- between the two readings of the command line, of which the second changes no flag of the program.
pub mod Runs
use k8s_athenz_syncer.Common.{ℕ, List, Bytes}
use k8s_athenz_syncer.Go.{Go, ret, panic}
use k8s_athenz_syncer.Log.{Surroundings, Log, init_logger}
use k8s_athenz_syncer.Flag.{Formals}
use k8s_athenz_syncer.Main.{Flags, Outside, Setup, setup}
use k8s_athenz_syncer.Main.CommandLine.{Started, exits, starts, command_line}

-- How the process goes on: it exits with a code, it ends with a panic, or it runs a controller.
pub data Launched : Type 0 where
  exits_with : ℕ → Launched
  crashed : Launched
  runs : Log → Setup → Launched

abbrev pub with_setup : Log → Go Setup → Launched
with_setup log panic = crashed
with_setup log (ret s) = runs log s

-- The outside answers by the path of the kubeconfig.
module _ (surroundings : Surroundings) (outside : Bytes → Outside) where
  abbrev pub launch : Started → Launched
  launch (exits code) = exits_with code
  launch (starts flags kubeconfig) =
      with_setup (init_logger surroundings flags.log_location flags.log_mode)
        (setup (outside kubeconfig) flags)

  unfoldable pub main : Formals → Bytes → List Bytes → Launched
  main others default args = launch (command_line others default args)

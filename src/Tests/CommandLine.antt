-- ===== src/Tests/CommandLine.antt =====
-- Command lines.
use k8s_athenz_syncer.Common.{
  bytes_eq, ◌==◌, if◌then◌else◌, arith, ◌≡◌, refl, inl, none, true, false, [], ◌∷◌, Bytes, codes,
  bytes_discrete, ℕ_discrete, List,
}
use k8s_athenz_syncer.GoMap.{lookup}
use k8s_athenz_syncer.Flag.{
  value_of, assigned, parse, finished, read, read_name, cut_equals, is_bad_name,
}
use k8s_athenz_syncer.Flag.Print.{IsFlagName}
use k8s_athenz_syncer.Main.CommandLine.{
  own_flags, first_flags, command_line, exits, kubeconfig_name,
}
use k8s_athenz_syncer.Main.CommandLine.InCluster.{command_line-refuses}
use k8s_athenz_syncer.Main.{Outside, ZmsClient, Setup}
use k8s_athenz_syncer.Flag.Laws.{settings_of}
use k8s_athenz_syncer.Main.Launch.{main, runs}
use k8s_athenz_syncer.Main.Launch.Runs.{main-runs, IsGiven, by_token}
use k8s_athenz_syncer.Log.{Surroundings, init_logger}
use k8s_athenz_syncer.Cluster.{ok}
use k8s_athenz_syncer.Go.{ret}

-- A flag with its value behind an equals sign, one with its value in the next argument, and a
-- Boolean one.
abbrev args : List Bytes
args =
    codes "--zms-url=https://z"
    ∷ codes "-admin-domain"
    ∷ codes "home"
    ∷ codes "-use-ntoken"
    ∷ codes "more"
    ∷ []

abbrev settings : List (Bytes × Bytes)
settings =
    (codes "zms-url", codes "https://z")
    ∷ (codes "admin-domain", codes "home")
    ∷ (codes "use-ntoken", codes "true")
    ∷ []

args_read : parse (first_flags []) none args ≡ finished settings (codes "more" ∷ [])
unfolding parse read read_name cut_equals is_bad_name first_flags own_flags lookup bytes_discrete
    ℕ_discrete
args_read = refl

-- Everything outside answers, durations are those below, and the directory of the log can be made.
abbrev answering : Outside
answering = record {
  clients = ret none;
  parse_duration = λ text. ok (if text == codes "1m0s" then 1000000000 else 2000000000);
  token_provider = λ period. none;
  cert_reloader = none;
  read_file = λ file. ok [];
}

abbrev around : Surroundings
around = record { parse_level = λ text. none; makes_directory = λ file. true }

abbrev token_client : ZmsClient
token_client = record { url = codes "https://z"; root_cas = none; disable_keep_alives = false }

abbrev given : Bytes → Bytes
given = value_of (first_flags []) (settings_of (parse (first_flags []) none args))

-- One second for the update cron, and two for the rest.
main-runs_example :
    (s : Setup) × (main around (λ path. answering) [] (codes "/root/.kube/config") args
      ≡ runs (init_logger around (given (codes "log-location")) (given (codes "log-mode"))) s)
    × (s.zms_client ≡ token_client)
    × (s.update_period ≡ 1000000000)
    × (s.resync_period ≡ 2000000000)
    × (s.delay_interval ≡ 2000000000)
    × IsGiven given s
unfolding parse read read_name cut_equals is_bad_name first_flags own_flags lookup bytes_discrete
    ℕ_discrete value_of assigned
main-runs_example =
    main-runs [] (codes "/root/.kube/config") (refl, refl) around (λ path. answering) args
      token_client 1000000000 2000000000 2000000000 tt refl (by_token 2000000000 refl refl refl)
      refl refl refl

zms_url-IsFlagName : IsFlagName (codes "zms-url")
zms_url-IsFlagName = ground arith

command_line-refuses_example :
    command_line []
      (codes "/root/.kube/config")
      (codes "-zms-url=z" ∷ codes "-kubeconfig=/tmp/config" ∷ [])
    ≡ exits 2
unfolding first_flags own_flags lookup bytes_discrete ℕ_discrete
command_line-refuses_example =
    command_line-refuses [] (codes "/root/.kube/config") (refl, refl)
      ((codes "zms-url", codes "z") ∷ []) kubeconfig_name (codes "/tmp/config") []
      ((zms_url-IsFlagName, (_, refl, refl)), tt) (inl refl)

-- ===== src/Main/CommandLine/InCluster.antt =====
-- What a command line can say of the kubeconfig: nothing.
use mathlib.Core.Path.{subst}
use k8s_athenz_syncer.Common.{
  false, ◌==◌, ◌≢◌, sym, arith, ◌≡◌, refl, ◌⊎◌, inl, inr, true, none, List, [], ◌∷◌, ◌++◌, Bytes,
  All, map, ap, bytes_eq, bytes_discrete, ℕ_discrete, codes,
}
use k8s_athenz_syncer.GoMap.{lookup}
use k8s_athenz_syncer.Flag.{
  Formals, Parsed, finished, exited, parse, assigned, value_of, string_flag, bool_flag,
}
use k8s_athenz_syncer.Flag.Laws.{
  Extends, Extends-cons, Succeeds, settings_of, Defines, parse-Extends, parse-Defines,
  assigned-undefined,
}
use k8s_athenz_syncer.Flag.Print.{print, IsSetting, IsFlagName, parse-undefined}
use k8s_athenz_syncer.Flag.Values.{value_of-twice}
use k8s_athenz_syncer.Main.{kubeconfig}
use k8s_athenz_syncer.Main.CommandLine.{
  own_flags, first_flags, second_flags, in_cluster_config, kubeconfig_name, exits, starts,
  flags_from, flags_of, command_line, after_first, after_second,
}

-- The flags of other packages do not have the two names: a second registration would panic.
abbrev pub LeavesNames : Formals → Type 0
LeavesNames others =
    (lookup others kubeconfig_name ≡ none) × (lookup others in_cluster_config ≡ none)

kubeconfig-IsFlagName : IsFlagName kubeconfig_name
kubeconfig-IsFlagName = ground arith

in_cluster-IsFlagName : IsFlagName in_cluster_config
in_cluster-IsFlagName = ground arith

apart : (a b : Bytes) → (a == b) ≡ false → a ≢ b
apart a b e same = ground (arith, e, same)

kubeconfig_help : (kubeconfig_name ≢ codes "help") × (kubeconfig_name ≢ codes "h")
unfolding bytes_discrete ℕ_discrete
kubeconfig_help = (apart _ _ refl, apart _ _ refl)

in_cluster_help : (in_cluster_config ≢ codes "help") × (in_cluster_config ≢ codes "h")
unfolding bytes_discrete ℕ_discrete
in_cluster_help = (apart _ _ refl, apart _ _ refl)

module _ (others : Formals) (default : Bytes) (leaves : LeavesNames others) where
  first_flags-kubeconfig : lookup (first_flags others) kubeconfig_name ≡ none
  unfolding first_flags own_flags lookup bytes_discrete ℕ_discrete
  first_flags-kubeconfig = leaves.0

  first_flags-in_cluster : lookup (first_flags others) in_cluster_config ≡ none
  unfolding first_flags own_flags lookup bytes_discrete ℕ_discrete
  first_flags-in_cluster = leaves.1

  kubeconfig_absent :
      lookup
        ((in_cluster_config, (bool_flag in_cluster_config true).1) ∷ first_flags others)
        kubeconfig_name
      ≡ none
  unfolding first_flags own_flags lookup bytes_discrete ℕ_discrete
  kubeconfig_absent = leaves.0

  second_flags-Extends : Extends (first_flags others) (second_flags others default)
  unfolding second_flags
  second_flags-Extends name formal e =
      Extends-cons ((in_cluster_config, (bool_flag in_cluster_config true).1) ∷ first_flags others)
        kubeconfig_name (string_flag kubeconfig_name default).1 kubeconfig_absent name formal
        (Extends-cons (first_flags others) in_cluster_config (bool_flag in_cluster_config true).1
          first_flags-in_cluster name formal e)

  in_cluster_value :
      (settings : List (Bytes × Bytes))
      → assigned settings in_cluster_config ≡ none
      → value_of (second_flags others default) settings in_cluster_config ≡ codes "true"
  unfolding value_of second_flags lookup bytes_discrete ℕ_discrete
  in_cluster_value settings e = rw (value_of, e) refl

  after_second_lem :
      (settings : List (Bytes × Bytes)) (rest : List Bytes)
      → assigned settings in_cluster_config ≡ none
      → after_second others default settings (finished settings rest)
        ≡ starts (flags_of others settings) []
  unfolding after_second flags_of kubeconfig bytes_discrete ℕ_discrete
  after_second_lem settings rest cluster = rw (in_cluster_value settings cluster) (
      ap (λ f. starts (flags_from f) [])
        (λ i name. value_of-twice (first_flags others) settings name i))

  after_first_lem :
      (args : List Bytes) (read : Parsed)
      → parse (first_flags others) none args ≡ read
      → Succeeds read
      → after_first others default args read ≡ starts (flags_of others (settings_of read)) []
  unfolding after_first
  after_first_lem args (finished settings rest) e h =
      rw
        (
          parse-Extends (first_flags others) (second_flags others default) second_flags-Extends none
              args (subst Succeeds (sym e) tt),
          e,
        )
        (after_second_lem settings rest (
          assigned-undefined (first_flags others) settings in_cluster_config
            (subst (λ p. All (Defines (first_flags others)) (settings_of p)) e
              (parse-Defines (first_flags others) none args))
            first_flags-in_cluster))
  after_first_lem args (exited code) e h = elim h [ ]

  -- Whatever stands on the command line: when the first reading accepts it, so does the second, no
  -- flag has another value after it, and the clients are made with an empty kubeconfig path, that is
  -- inside of a cluster.
  pub command_line-starts :
      (args : List Bytes)
      → let read = parse (first_flags others) none args in
        Succeeds read
        → command_line others default args ≡ starts (flags_of others (settings_of read)) []
  unfolding command_line
  command_line-starts args h = after_first_lem args _ refl h

  -- A command line that sets known flags to values that they accept, each as one argument with a dash and its value behind an
  -- equals sign, and then kubeconfig or inClusterConfig in the same form, ends the process with the
  -- exit code 2, whatever comes after, although both flags are documented: the first reading comes
  -- before they are registered.
  pub command_line-refuses :
      (settings : List (Bytes × Bytes)) (name value : Bytes) (more : List Bytes)
      → All (IsSetting (first_flags others)) settings
      → (name ≡ kubeconfig_name) ⊎ (name ≡ in_cluster_config)
      → command_line others default (map print settings ++ (print (name, value) ∷ more)) ≡ exits 2
  unfolding command_line after_first
  command_line-refuses settings name value more h (inl e) =
      rw
        (
          e,
          parse-undefined (first_flags others) settings kubeconfig_name value more h
              kubeconfig-IsFlagName first_flags-kubeconfig kubeconfig_help.0 kubeconfig_help.1,
        )
        refl
  command_line-refuses settings name value more h (inr e) =
      rw
        (
          e,
          parse-undefined (first_flags others) settings in_cluster_config value more h
              in_cluster-IsFlagName first_flags-in_cluster in_cluster_help.0 in_cluster_help.1,
        )
        refl

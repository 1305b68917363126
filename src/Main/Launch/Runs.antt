-- ===== src/Main/Launch/Runs.antt =====
-- When main gets as far as the controller.
use k8s_athenz_syncer.Common.{
  ℕ, ◌≡◌, ◌≢◌, ◌↔◌, refl, ap, ◌∙◌, true, false, none, some, Bool, List, [], Bytes, codes, In, Any,
  arith, bytes_eq,
}
use k8s_athenz_syncer.Go.{ret}
use k8s_athenz_syncer.Cluster.{ok, Result}
use k8s_athenz_syncer.Log.{Surroundings, init_logger}
use k8s_athenz_syncer.Flag.{Formals, parse, value_of}
use k8s_athenz_syncer.Flag.Laws.{Succeeds, settings_of}
use k8s_athenz_syncer.Main.{
  Outside, ZmsClient, setup, authenticate, with_periods, create_zms_client, assemble,
}
use k8s_athenz_syncer.Main.CommandLine.{first_flags, flags_of, flags_from, is_true}
use k8s_athenz_syncer.Main.{with_roots, Setup, util_of}
use k8s_athenz_syncer.Main.Start.{util_of-is_system_namespace, util_of-is_namespace_excluded}
use k8s_athenz_syncer.Util.{new_util, is_system_namespace, is_namespace_excluded}
use k8s_athenz_syncer.GoStrings.{split, trim_space}
use k8s_athenz_syncer.Main.CommandLine.InCluster.{LeavesNames, command_line-starts}
use k8s_athenz_syncer.Main.Launch.{runs, with_setup, launch, main}

-- What the controller is given, by the values of the flags under their names.
abbrev pub IsGiven : (Bytes → Bytes) → Setup → Type 0
IsGiven value s =
    (s.contact_cm.cm_namespace ≡ value (codes "athenz-contact-time-cm-ns"))
    × (s.contact_cm.cm_name ≡ value (codes "athenz-contact-time-cm-name"))
    × (s.contact_cm.cm_key ≡ value (codes "athenz-contact-time-cm-key"))
    × (s.util.admin_domain ≡ value (codes "admin-domain"))
    × (s.util.exclude_msd_rules ≡ is_true (value (codes "exclude-msd-rules")))
    × ((ns : Bytes)
        → (is_system_namespace s.util ns ≡ true)
          ↔ ((ns ≢ []) × In ns (split (value (codes "system-namespaces")) 44)))
    × ((ns : Bytes)
        → (is_namespace_excluded s.util ns ≡ true) ↔ (
            (ns ≢ [])
            × Any (λ part. trim_space part ≡ ns) (split (value (codes "exclude-namespaces")) 44)))

-- The ZMS client by the values of the flags: with tokens, and with certificates without and with a file
-- of CA certificates.
pub data Authenticates (outside : Outside) (value : Bytes → Bytes) : ZmsClient → Type 0 where
  by_token :
      (period : ℕ)
      → is_true (value (codes "use-ntoken")) ≡ true
      → outside.parse_duration (value (codes "ntoken-expiry")) ≡ ok period
      → outside.token_provider period ≡ none
      → Authenticates outside value
          (record { url = value (codes "zms-url"); root_cas = none; disable_keep_alives = false })
  by_certificate :
      is_true (value (codes "use-ntoken")) ≡ false
      → outside.cert_reloader ≡ none
      → value (codes "cacert") ≡ []
      → Authenticates outside value (record {
        url = value (codes "zms-url");
        root_cas = none;
        disable_keep_alives = is_true (value (codes "disable-keep-alives"));
      })
  by_authority :
      (pem : Bytes)
      → is_true (value (codes "use-ntoken")) ≡ false
      → outside.cert_reloader ≡ none
      → value (codes "cacert") ≢ []
      → outside.read_file (value (codes "cacert")) ≡ ok pem
      → Authenticates outside value (record {
        url = value (codes "zms-url");
        root_cas = some pem;
        disable_keep_alives = is_true (value (codes "disable-keep-alives"));
      })

create_without :
    (read_file : Bytes → Result Bytes) (url ca_cert : Bytes) (keep : Bool)
    → ca_cert ≡ []
    → create_zms_client read_file url ca_cert keep
      ≡ ok (record { url = url; root_cas = none; disable_keep_alives = keep })
unfolding create_zms_client
create_without read_file url ca_cert keep empty = ground (arith, empty)

create_with :
    (read_file : Bytes → Result Bytes) (url ca_cert pem : Bytes) (keep : Bool)
    → ca_cert ≢ []
    → read_file ca_cert ≡ ok pem
    → create_zms_client read_file url ca_cert keep
      ≡ ok (record { url = url; root_cas = some pem; disable_keep_alives = keep })
unfolding create_zms_client with_roots
create_with read_file url ca_cert pem keep some_file reads = ground (arith, some_file, reads)

module _ (outside : Outside) (value : Bytes → Bytes) where
  authenticate-Authenticates :
      (client : ZmsClient)
      → Authenticates outside value client
      → authenticate outside (flags_from value) (flags_from value).use_n_token ≡ ret client
  unfolding authenticate
  authenticate-Authenticates client (by_token period is_on parses provides) =
      rw (is_on, parses, provides) refl
  authenticate-Authenticates client (by_certificate is_off reloads empty) =
      rw (is_off, reloads, create_without outside.read_file _ _ _ empty) refl
  authenticate-Authenticates client (by_authority pem is_off reloads given reads) =
      rw (is_off, reloads, create_with outside.read_file _ _ pem _ given reads) refl

  setup_ready :
      (client : ZmsClient) (update resync delay : ℕ)
      → outside.clients ≡ ret none
      → Authenticates outside value client
      → outside.parse_duration (value (codes "update-cron")) ≡ ok update
      → outside.parse_duration (value (codes "resync-cron")) ≡ ok resync
      → outside.parse_duration (value (codes "queue-delay-interval")) ≡ ok delay
      → setup outside (flags_from value)
        ≡ ret (assemble (flags_from value) client update resync delay)
  unfolding setup with_periods
  setup_ready client update resync delay connects authenticates e e' e'' =
      rw (connects, authenticate-Authenticates client authenticates, e, e', e'') refl

module _ (others : Formals) (default : Bytes) (leaves : LeavesNames others)
    (surroundings : Surroundings) (outside : Bytes → Outside) where
  -- Whatever stands on the command line: when it is accepted, the clients for an empty kubeconfig path
  -- are made, the ZMS client is made with tokens or with certificates, as the flag says, and the three
  -- intervals parse, main runs a controller, with a logger by log-location and log-mode. The controller
  -- has this client, each interval where it belongs, the config map, the admin domain and the choice on
  -- MSD rules that the flags of these names say. Its system namespaces are the items of their flag
  -- between commas, as they stand, and the excluded ones the items of theirs with the space around them
  -- removed; an empty item is neither. A flag has the value of the command line, or its default.
  pub main-runs :
      (args : List Bytes) (client : ZmsClient) (update resync delay : ℕ)
      → let read = parse (first_flags others) none args in
        let value = value_of (first_flags others) (settings_of read) in
        Succeeds read
        → (outside []).clients ≡ ret none
        → Authenticates (outside []) value client
        → (outside []).parse_duration (value (codes "update-cron")) ≡ ok update
        → (outside []).parse_duration (value (codes "resync-cron")) ≡ ok resync
        → (outside []).parse_duration (value (codes "queue-delay-interval")) ≡ ok delay
        → (s : Setup) × (main surroundings outside others default args
            ≡ runs
                (init_logger surroundings (value (codes "log-location")) (value (codes "log-mode")))
                s)
          × (s.zms_client ≡ client)
          × (s.update_period ≡ update)
          × (s.resync_period ≡ resync)
          × (s.delay_interval ≡ delay)
          × IsGiven value s
  unfolding main flags_of assemble util_of new_util
  main-runs args client update resync delay accepted connects authenticates e e' e'' =
      let value : Bytes → Bytes =
        value_of (first_flags others) (settings_of (parse (first_flags others) none args)) in
      (
        assemble (flags_from value) client update resync delay,
        ap (launch surroundings outside) (command_line-starts others default leaves args accepted)
            ∙ ap
                (with_setup (
                  init_logger surroundings (value (codes "log-location"))
                    (value (codes "log-mode"))))
                (setup_ready (outside []) value client update resync delay connects authenticates e
                  e' e''),
        refl,
        refl,
        refl,
        refl,
        (
          refl,
          refl,
          refl,
          refl,
          refl,
          util_of-is_system_namespace (flags_from value),
          util_of-is_namespace_excluded (flags_from value),
        ),
      )

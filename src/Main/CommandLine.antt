-- ===== src/Main/CommandLine.antt =====
-- main.go: the flags, and the two readings of the command line, the first before the flags
-- inClusterConfig and kubeconfig are registered and the second after. The flags of klog and of other
-- packages are a parameter; flag.Set changes flags of klog only.
pub mod InCluster
use k8s_athenz_syncer.Common.{
  ℕ, Bool, true, false, Option, none, some, List, [], ◌∷◌, ◌++◌, Bytes, codes, contains, bytes_eq,
}
use k8s_athenz_syncer.Flag.{
  Formals, Parsed, finished, exited, parse, assigned, value_of, string_flag, bool_flag, true_texts,
}
use k8s_athenz_syncer.Main.{Flags, kubeconfig, kubeconfig_default}

-- The flags that main registers.
unfoldable pub own_flags : Formals
own_flags =
    string_flag (codes "key") (codes "/var/run/athenz/service.key.pem")
    ∷ string_flag (codes "cert") (codes "/var/run/athenz/service.cert.pem")
    ∷ string_flag (codes "cacert") []
    ∷ string_flag (codes "zms-url") []
    ∷ string_flag (codes "update-cron") (codes "1m0s")
    ∷ string_flag (codes "athenz-contact-time-cm-ns") (codes "kube-yahoo")
    ∷ string_flag (codes "athenz-contact-time-cm-name") (codes "athenzcall-config")
    ∷ string_flag (codes "athenz-contact-time-cm-key") (codes "latest_contact")
    ∷ string_flag (codes "resync-cron") (codes "1h0m0s")
    ∷ string_flag (codes "queue-delay-interval") (codes "250ms")
    ∷ string_flag (codes "admin-domain") []
    ∷ string_flag (codes "system-namespaces") []
    ∷ bool_flag (codes "disable-keep-alives") true
    ∷ string_flag (codes "log-location") (codes "/var/log/k8s-athenz-syncer/k8s-athenz-syncer.log")
    ∷ string_flag (codes "log-mode") (codes "info")
    ∷ string_flag (codes "identity-key") (codes "/var/run/keys/identity")
    ∷ bool_flag (codes "use-ntoken") false
    ∷ string_flag (codes "service-name") (codes "k8s-athenz-syncer")
    ∷ string_flag (codes "service-domain") []
    ∷ string_flag (codes "secret-name") (codes "k8s-athenz-syncer")
    ∷ string_flag (codes "auth-header") []
    ∷ string_flag (codes "ntoken-expiry") (codes "1h0m0s")
    ∷ string_flag (codes "exclude-namespaces") []
    ∷ bool_flag (codes "exclude-msd-rules") false
    ∷ []

-- All flags at the first reading, with those of other packages.
unfoldable pub first_flags : Formals → Formals
unfolding own_flags
first_flags others = own_flags ++ others

abbrev pub in_cluster_config : Bytes
in_cluster_config = codes "inClusterConfig"

abbrev pub kubeconfig_name : Bytes
kubeconfig_name = codes "kubeconfig"

-- All flags at the second reading, in getClients.
unfoldable pub second_flags : Formals → Bytes → Formals
unfolding first_flags
second_flags others default =
    string_flag kubeconfig_name default ∷ bool_flag in_cluster_config true ∷ first_flags others

-- What main goes on with: the values of the flags and the path of the kubeconfig; or the exit code.
pub data Started : Type 0 where
  exits : ℕ → Started
  starts : Flags → Bytes → Started

abbrev pub is_true : Bytes → Bool
is_true text = contains true_texts text

-- The values that the pointers of main read.
abbrev pub flags_from : (Bytes → Bytes) → Flags
flags_from value = record {
  ca_cert = value (codes "cacert");
  zms_url = value (codes "zms-url");
  update_cron = value (codes "update-cron");
  contact_cm_ns = value (codes "athenz-contact-time-cm-ns");
  contact_cm_name = value (codes "athenz-contact-time-cm-name");
  contact_cm_key = value (codes "athenz-contact-time-cm-key");
  resync_cron = value (codes "resync-cron");
  queue_delay_interval = value (codes "queue-delay-interval");
  admin_domain = value (codes "admin-domain");
  system_namespaces = value (codes "system-namespaces");
  disable_keep_alives = is_true (value (codes "disable-keep-alives"));
  use_n_token = is_true (value (codes "use-ntoken"));
  n_token_expire_time = value (codes "ntoken-expiry");
  exclude_namespaces = value (codes "exclude-namespaces");
  exclude_msd_rules = is_true (value (codes "exclude-msd-rules"));
  log_location = value (codes "log-location");
  log_mode = value (codes "log-mode");
}

unfoldable pub flags_of : Formals → List (Bytes × Bytes) → Flags
flags_of others settings = flags_from (value_of (first_flags others) settings)

module _ (others : Formals) (default : Bytes) where
  -- The values at the end: the second reading sets flags that the first one has set.
  after_second : List (Bytes × Bytes) → Parsed → Started
  after_second settings (exited code) = exits code
  after_second settings (finished again rest) =
      let formals = second_flags others default in
      starts (flags_of others (settings ++ again)) (
        kubeconfig (is_true (value_of formals again in_cluster_config))
          (assigned again kubeconfig_name) default)

  after_first : List Bytes → Parsed → Started
  unfolding after_second
  after_first args (exited code) = exits code
  after_first args (finished settings rest) =
      after_second settings (parse (second_flags others default) none args)

  unfoldable pub command_line : List Bytes → Started
  unfolding after_first
  command_line args = after_first args (parse (first_flags others) none args)

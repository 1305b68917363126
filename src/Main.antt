-- ===== src/Main.antt =====
-- main.go: from the values of the flags to the parts of the controller. Clients, token provider and
-- reloader are made outside, as Outside says; a log.Panicf is a panic.
pub mod CommandLine
pub mod Launch
pub mod Start
use k8s_athenz_syncer.Common.{
  ℕ, Bool, true, false, not, Option, none, some, List, [], ◌∷◌, Bytes, bytes_eq, codes, ◌==◌,
  if◌then◌else◌, ◌≡◌,
}
use k8s_athenz_syncer.Go.{Go, ret, panic}
use k8s_athenz_syncer.Go
use k8s_athenz_syncer.GoStrings.{split, trim_space}
use k8s_athenz_syncer.Util.{Util, new_util, home_dir}
use k8s_athenz_syncer.Cluster.{GoError, Result, ok, err}
use k8s_athenz_syncer.Cron.{ContactTimeConfigMap}

-- The default of the kubeconfig flag, for the environment and filepath.Join.
unfoldable pub kubeconfig_default : (Bytes → Bytes) → (Bytes → Bytes → Bytes → Bytes) → Bytes
kubeconfig_default env join =
    if not (home_dir env == []) then join (home_dir env) (codes ".kube") (codes "config") else []

-- The path of the kubeconfig: inside of a cluster it is empty, whatever the flag says.
unfoldable pub kubeconfig : Bool → Option Bytes → Bytes → Bytes
kubeconfig in_cluster given default =
    if in_cluster then [] else elim given [ some path ↦ path | none ↦ default ]

-- getClients, from the kubeconfig on. The errors are those of BuildConfigFromFlags, which panics, and
-- of the two NewForConfig.
unfoldable pub get_clients : Option GoError → Option GoError → Option GoError → Go (Option GoError)
get_clients (some config) client versioned = panic
get_clients none (some client) versioned = ret (some client)
get_clients none none versioned = ret versioned

-- A ZMS client: its certificates come from the reloader at every handshake.
pub record ZmsClient : Type 0 where
  pub url : Bytes
  pub root_cas : Option Bytes
  pub disable_keep_alives : Bool

with_roots : Bytes → Bool → Result Bytes → Result ZmsClient
with_roots url keep (err e) = err e
with_roots url keep (ok pem) =
    ok (record { url = url; root_cas = some pem; disable_keep_alives = keep })

unfoldable pub create_zms_client : (Bytes → Result Bytes) → Bytes → Bytes → Bool → Result ZmsClient
unfolding with_roots
create_zms_client read_file zms_url ca_cert disable_keep_alives =
    if not (ca_cert == [])
    then with_roots zms_url disable_keep_alives (read_file ca_cert)
    else ok (record { url = zms_url; root_cas = none; disable_keep_alives = disable_keep_alives })

-- The values of the flags that setup and its parts read; the others only go to Outside.
pub record Flags : Type 0 where
  pub ca_cert : Bytes
  pub zms_url : Bytes
  pub update_cron : Bytes
  pub contact_cm_ns : Bytes
  pub contact_cm_name : Bytes
  pub contact_cm_key : Bytes
  pub resync_cron : Bytes
  pub queue_delay_interval : Bytes
  pub admin_domain : Bytes
  pub system_namespaces : Bytes
  pub disable_keep_alives : Bool
  pub use_n_token : Bool
  pub n_token_expire_time : Bytes
  pub exclude_namespaces : Bytes
  pub exclude_msd_rules : Bool
  pub log_location : Bytes
  pub log_mode : Bytes

-- What the start asks of others: the clients, time.ParseDuration, the token provider for an
-- expiration, the certificate reloader, and reading a file.
pub record Outside : Type 0 where
  pub clients : Go (Option GoError)
  pub parse_duration : Bytes → Result ℕ
  pub token_provider : ℕ → Option GoError
  pub cert_reloader : Option GoError
  pub read_file : Bytes → Result Bytes

-- What the controller is made from.
pub record Setup : Type 0 where
  pub zms_client : ZmsClient
  pub update_period : ℕ
  pub resync_period : ℕ
  pub delay_interval : ℕ
  pub util : Util
  pub contact_cm : ContactTimeConfigMap

-- An error ends the process.
abbrev pub no_error : Option GoError → Go (Unit {0})
no_error (some e) = panic
no_error none = ret tt

abbrev pub value {ℓ} : {A : Type ℓ} → Result A → Go A
value (err e) = panic
value (ok a) = ret a

-- The code of a comma.
abbrev pub comma : ℕ
comma = 44

process : List Bytes → List Bytes
process [] = []
process (item ∷ rest) = if not (item == []) then item ∷ process rest else process rest

unfoldable pub process_list : Bytes → List Bytes
unfolding process
process_list system_namespaces = process (split system_namespaces comma)

exclude : List Bytes → List Bytes
exclude [] = []
exclude (part ∷ rest) =
    let item = trim_space part in if not (item == []) then item ∷ exclude rest else exclude rest

unfoldable pub exclusion_list : Bytes → List Bytes
unfolding exclude
exclusion_list exclude_namespaces = exclude (split exclude_namespaces comma)

unfoldable pub util_of : Flags → Util
util_of flags =
    new_util flags.admin_domain (process_list flags.system_namespaces)
      (exclusion_list flags.exclude_namespaces) flags.exclude_msd_rules

-- What NewController is given.
unfoldable pub assemble : Flags → ZmsClient → ℕ → ℕ → ℕ → Setup
assemble flags zms_client update_period resync_period delay_interval = record {
  zms_client = zms_client;
  update_period = update_period;
  resync_period = resync_period;
  delay_interval = delay_interval;
  util = util_of flags;
  contact_cm = record {
    cm_namespace = flags.contact_cm_ns;
    cm_name = flags.contact_cm_name;
    cm_key = flags.contact_cm_key;
  };
}

module _ (outside : Outside) where
  -- The ZMS client, with tokens or with certificates.
  authenticate : Flags → Bool → Go ZmsClient
  authenticate flags true =
      Go.◌>>=◌ (value (outside.parse_duration flags.n_token_expire_time)) λ period.
        Go.◌>>=◌ (no_error (outside.token_provider period))
          λ _. ret (record { url = flags.zms_url; root_cas = none; disable_keep_alives = false })
  authenticate flags false = Go.◌>>=◌ (no_error outside.cert_reloader) λ _.
      value
        (create_zms_client outside.read_file flags.zms_url flags.ca_cert flags.disable_keep_alives)

  -- The intervals, after the ZMS client.
  with_periods : Flags → ZmsClient → Go Setup
  with_periods flags zms_client =
      Go.◌>>=◌ (value (outside.parse_duration flags.update_cron)) λ update_period.
        Go.◌>>=◌ (value (outside.parse_duration flags.resync_cron)) λ resync_period.
          Go.◌>>=◌ (value (outside.parse_duration flags.queue_delay_interval)) λ delay_interval.
            ret (assemble flags zms_client update_period resync_period delay_interval)

  unfoldable pub setup : Flags → Go Setup
  unfolding authenticate with_periods
  setup flags = Go.◌>>=◌ outside.clients λ failure. Go.◌>>=◌ (no_error failure) λ _.
      Go.◌>>=◌ (authenticate flags flags.use_n_token) λ zms_client. with_periods flags zms_client

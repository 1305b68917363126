-- ===== src/Client/Informers.antt =====
-- pkg/client/informers/externalversions/factory.go and generic.go. The client, the informers and their
-- creation are parameters; a type of Go is a name. The range over a map visits the entries in the
-- order of the model's list.
pub mod Started
use k8s_athenz_syncer.Common.{
  ℕ, Bool, true, false, not, Option, none, some, List, [], ◌∷◌, ◌++◌, Bytes, bytes_eq, ◌==◌,
  if◌then◌else◌, map, codes, ◌&&◌,
}
use k8s_athenz_syncer.GoMap.{GoMap, lookup, insert}
use k8s_athenz_syncer.Client.Requests.{athenz_domains}
use k8s_athenz_syncer.Client.Sets.{scheme_group_version}
use k8s_athenz_syncer.Cluster.{GoError, message, Result, ok, err}

-- reflect.TypeOf(&athenzv1.AthenzDomain{})
abbrev pub domain_type : Bytes
domain_type = codes "*v1.AthenzDomain"

-- What the factory only hands on: clients, informers and changes of list options.
pub record Parts : Type 1 where
  pub Client : Type 0
  pub Informer : Type 0
  pub Tweak : Type 0

pub record SharedInformerFactory (p : Parts) : Type 0 where
  pub client : p.Client
  pub namespace : Bytes
  pub tweak_list_options : Option p.Tweak
  pub default_resync : ℕ
  pub custom_resync : GoMap Bytes ℕ
  pub informers : GoMap Bytes p.Informer
  pub started_informers : GoMap Bytes Bool

-- schema.GroupVersionResource
pub record GroupVersionResource : Type 0 where
  pub group : Bytes
  pub version : Bytes
  pub resource : Bytes

-- A SharedInformerOption.
abbrev pub Apply : Parts → Type 0
Apply p = SharedInformerFactory p → SharedInformerFactory p

insert_all : GoMap Bytes ℕ → GoMap Bytes ℕ → GoMap Bytes ℕ
insert_all m [] = m
insert_all m ((k, v) ∷ rest) = insert_all (insert m k v) rest

-- A read of the map: false if it has no entry.
abbrev pub is_started : GoMap Bytes Bool → Bytes → Bool
is_started started kind = elim (lookup started kind) [ some b ↦ b | none ↦ false ]

module _ {Informer : Type 0} where
  -- The loop of Start: what is started after it, and the types of the informers that it runs.
  unfoldable pub start_all : GoMap Bytes Informer → GoMap Bytes Bool → GoMap Bytes Bool × List Bytes
  start_all [] started = (started, [])
  start_all ((kind, informer) ∷ rest) started =
      let skipped = start_all rest started in
      let (later, runs) = start_all rest (insert started kind true) in
      if not (is_started started kind) then (later, kind ∷ runs) else skipped

  -- The informers that WaitForCacheSync waits for, with what each wait answers.
  synced_of : (Informer → Bool) → GoMap Bytes Bool → GoMap Bytes Informer → GoMap Bytes Bool
  synced_of wait started [] = []
  synced_of wait started ((kind, informer) ∷ rest) =
      let later = synced_of wait started rest in
      if is_started started kind then insert later kind (wait informer) else later

module _ (p : Parts) where
  unfoldable pub with_custom_resync_config : GoMap Bytes ℕ → Apply p
  unfolding insert_all
  with_custom_resync_config resync_config f = record f {
    custom_resync = insert_all f.custom_resync resync_config;
  }

  unfoldable pub with_tweak_list_options : Option p.Tweak → Apply p
  with_tweak_list_options tweak f = record f { tweak_list_options = tweak }

  unfoldable pub with_namespace : Bytes → Apply p
  with_namespace ns f = record f { namespace = ns }

  apply_all : List (Apply p) → SharedInformerFactory p → SharedInformerFactory p
  apply_all [] f = f
  apply_all (option ∷ options) f = apply_all options (option f)

  unfoldable pub new_shared_informer_factory_with_options :
      p.Client → ℕ → List (Apply p) → SharedInformerFactory p
  unfolding apply_all
  new_shared_informer_factory_with_options client default_resync options =
      apply_all options (record {
        client = client;
        namespace = [];
        tweak_list_options = none;
        default_resync = default_resync;
        custom_resync = [];
        informers = [];
        started_informers = [];
      })

  unfoldable pub new_shared_informer_factory : p.Client → ℕ → SharedInformerFactory p
  new_shared_informer_factory client default_resync =
      new_shared_informer_factory_with_options client default_resync []

  unfoldable pub new_filtered_shared_informer_factory :
      p.Client → ℕ → Bytes → Option p.Tweak → SharedInformerFactory p
  new_filtered_shared_informer_factory client default_resync ns tweak =
      new_shared_informer_factory_with_options client default_resync
        (with_namespace ns ∷ with_tweak_list_options tweak ∷ [])

module _ {p : Parts} where
  unfoldable pub start_informers : SharedInformerFactory p → SharedInformerFactory p × List Bytes
  start_informers f =
      let (started, runs) = start_all f.informers f.started_informers in
      (record f { started_informers = started }, runs)

  unfoldable pub wait_for_cache_sync :
      (p.Informer → Bool) → SharedInformerFactory p → GoMap Bytes Bool
  unfolding synced_of
  wait_for_cache_sync wait f = synced_of wait f.started_informers f.informers

  -- The custom resync period of a type, or the default.
  abbrev pub resync_period : SharedInformerFactory p → Bytes → ℕ
  resync_period f kind = elim (lookup f.custom_resync kind) [
    | some period ↦ period
    | none ↦ f.default_resync
  ]

  request :
      SharedInformerFactory p
      → Bytes
      → (p.Client → ℕ → p.Informer)
      → Option p.Informer
      → p.Informer × SharedInformerFactory p
  request f kind new_func (some informer) = (informer, f)
  request f kind new_func none =
      let informer = new_func f.client (resync_period f kind) in
      (informer, record f { informers = insert f.informers kind informer })

  unfoldable pub informer_for :
      SharedInformerFactory p
      → Bytes
      → (p.Client → ℕ → p.Informer)
      → p.Informer × SharedInformerFactory p
  unfolding request
  informer_for f kind new_func = request f kind new_func (lookup f.informers kind)

  -- The shared informer of AthenzDomain, by the filtered informers that `new_filtered` makes: what
  -- Athenz().V1().AthenzDomains().Informer() gives.
  unfoldable pub domain_informer :
      (p.Client → ℕ → Option p.Tweak → p.Informer)
      → SharedInformerFactory p
      → p.Informer × SharedInformerFactory p
  domain_informer new_filtered f =
      informer_for f domain_type (λ client resync. new_filtered client resync f.tweak_list_options)

  -- ForResource knows one resource.
  unfoldable pub for_resource :
      (p.Client → ℕ → Option p.Tweak → p.Informer)
      → SharedInformerFactory p
      → GroupVersionResource
      → Result p.Informer × SharedInformerFactory p
  for_resource new_filtered f resource =
      let (informer, g) = domain_informer new_filtered f in
      if resource.group == scheme_group_version.group
        && resource.version == scheme_group_version.version
        && resource.resource == athenz_domains
      then (ok informer, g)
      else (err (message (codes "no informer found")), f)

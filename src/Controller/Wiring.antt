-- ===== src/Controller/Wiring.antt =====
-- NewController of pkg/controller/controller.go, NewCron of pkg/cron/cron.go and NewCRUtil of
-- pkg/cr/cr.go: which parts are shared, and what an event of the informers puts into the queue. The
-- clients, informers and the queue are parameters, as are the key functions of package cache.
use k8s_athenz_syncer.Common.{
  ℕ, ◌*◌, ◌≡◌, refl, List, [], ◌∷◌, Bytes, codes, Bool-cases, inl, inr, if◌then◌else◌,
}
use k8s_athenz_syncer.Util.{Util, is_namespace_excluded, namespace_to_domain}
use k8s_athenz_syncer.RateLimiter.{RateLimiter, new_rate_limiter}
use k8s_athenz_syncer.WorkQueue.{WorkQueue}
use k8s_athenz_syncer.Cluster.{Result, ok, err}
use k8s_athenz_syncer.World.{World, M, after_adding}
use k8s_athenz_syncer.Cron.{ContactTimeConfigMap}
use k8s_athenz_syncer.Controller.Worker.{ns_informer_handler, cr_informer_handler}

-- The calls of ResourceEventHandlerFuncs.
pub data Event (A : Type 0) : Type 0 where
  added : A → Event A
  updated : A → A → Event A
  deleted : A → Event A

-- MetaNamespaceKeyFunc, and DeletionHandlingMetaNamespaceKeyFunc, which reads tombstones too.
pub record KeyFuncs (A : Type 0) : Type 0 where
  pub meta_namespace_key : A → Result Bytes
  pub deletion_handling_key : A → Result Bytes

module _ {A : Type 0} {q : WorkQueue} where
  unfoldable pub on_ns_event : Util → KeyFuncs A → Event A → M q Bytes
  on_ns_event u keys (added object) = ns_informer_handler u (keys.meta_namespace_key object)
  on_ns_event u keys (updated before object) =
      ns_informer_handler u (keys.meta_namespace_key object)
  on_ns_event u keys (deleted object) = ns_informer_handler u (keys.deletion_handling_key object)

  unfoldable pub on_cr_event : KeyFuncs A → Event A → M q Bytes
  on_cr_event keys (added object) = cr_informer_handler (keys.meta_namespace_key object)
  on_cr_event keys (updated before object) = cr_informer_handler (keys.meta_namespace_key object)
  on_cr_event keys (deleted object) = cr_informer_handler (keys.deletion_handling_key object)

-- What NewController makes its parts with.
pub record Makers : Type 1 where
  pub K8sClient : Type 0
  pub VersionedClient : Type 0
  pub AthenzV1 : Type 0
  pub ZmsClient : Type 0
  pub NsInformer : Type 0
  pub CrInformer : Type 0
  pub Queue : Type 0
  -- An informer of all namespaces, with its resync period.
  pub new_ns_informer : K8sClient → ℕ → NsInformer
  -- An informer of the resources, with its resync period and the key of its one index.
  pub new_cr_informer : VersionedClient → ℕ → Bytes → CrInformer
  pub new_queue : RateLimiter Bytes → Queue
  pub athenz_v1 : VersionedClient → AthenzV1

module _ (m : Makers) where
  pub record CrHandle : Type 0 where
    pub athenz_clientset : m.AthenzV1
    pub cr_index_informer : m.CrInformer

  pub record CronHandle : Type 0 where
    pub k8s_client : m.K8sClient
    pub check_interval : ℕ
    pub sync_interval : ℕ
    pub etag : Bytes
    pub zms_client : m.ZmsClient
    pub ns_informer : m.NsInformer
    pub queue : m.Queue
    pub util : Util
    pub cr : CrHandle
    pub contact_time_cm : ContactTimeConfigMap

  pub record Controller : Type 0 where
    pub clientset : m.K8sClient
    pub queue : m.Queue
    pub ns_index_informer : m.NsInformer
    pub zms_client : m.ZmsClient
    pub cron : CronHandle
    pub util : Util
    pub cr : CrHandle

  unfoldable pub new_cr_util : m.VersionedClient → m.CrInformer → CrHandle
  new_cr_util athenz_clientset cr_index_informer = record {
    athenz_clientset = m.athenz_v1 athenz_clientset;
    cr_index_informer = cr_index_informer;
  }

  unfoldable pub new_cron :
      m.K8sClient
      → ℕ
      → ℕ
      → Bytes
      → m.ZmsClient
      → m.NsInformer
      → m.Queue
      → Util
      → CrHandle
      → ContactTimeConfigMap
      → CronHandle
  new_cron k8s_client check_interval sync_interval etag zms_client informer queue util cr cm =
      record {
        k8s_client = k8s_client;
        check_interval = check_interval;
        sync_interval = sync_interval;
        etag = etag;
        zms_client = zms_client;
        ns_informer = informer;
        queue = queue;
        util = util;
        cr = cr;
        contact_time_cm = cm;
      }

  -- The clock's reading is that of NewRateLimiter; an hour is the namespaces' resync period.
  unfoldable pub new_controller :
      m.K8sClient
      → m.VersionedClient
      → m.ZmsClient
      → ℕ
      → ℕ
      → ℕ
      → ℕ
      → Util
      → ContactTimeConfigMap
      → Controller
  new_controller k8s_client versiond_client zms_client update_cron resync_cron delay_interval now
        util cm =
      let ns_informer = m.new_ns_informer k8s_client (3600 * 1000000000) in
      let queue = m.new_queue (new_rate_limiter delay_interval now) in
      let cr =
        new_cr_util versiond_client (m.new_cr_informer versiond_client 0 (codes "trustDomain")) in
      record {
        clientset = k8s_client;
        queue = queue;
        ns_index_informer = ns_informer;
        zms_client = zms_client;
        cron =
            new_cron k8s_client update_cron resync_cron [] zms_client ns_informer queue util cr cm;
        util = util;
        cr = cr;
      }

module _ {A : Type 0} (keys : KeyFuncs A) where
  -- The key of an event: of the new object for an update, and with tombstones for a delete.
  abbrev pub event_key : Event A → Result Bytes
  event_key (added object) = keys.meta_namespace_key object
  event_key (updated before object) = keys.meta_namespace_key object
  event_key (deleted object) = keys.deletion_handling_key object

-- The name that an event of a key puts into the queue.
abbrev pub ns_names : Util → Result Bytes → List Bytes
ns_names u (err e) = []
ns_names u (ok key) = if is_namespace_excluded u key then [] else namespace_to_domain u key ∷ []

abbrev pub cr_names : Result Bytes → List Bytes
cr_names (err e) = []
cr_names (ok key) = key ∷ []

module _ {A : Type 0} {q : WorkQueue} (keys : KeyFuncs A) where
  ns_informer_handler_lem :
      (u : Util) (key : Result Bytes) (w : World q)
      → (ns_informer_handler u key w).1 ≡ after_adding w (ns_names u key)
  unfolding ns_informer_handler
  ns_informer_handler_lem u (err e) w = refl
  ns_informer_handler_lem u (ok key) w = elim (Bool-cases (is_namespace_excluded u key)) [
    | inl e ↦ rw e refl
    | inr e ↦ rw e refl
  ]

  cr_informer_handler_lem :
      (key : Result Bytes) (w : World q)
      → (cr_informer_handler key w).1 ≡ after_adding w (cr_names key)
  unfolding cr_informer_handler
  cr_informer_handler_lem (err e) w = refl
  cr_informer_handler_lem (ok key) w = refl

  -- An event of a namespace puts the domain of its key into the queue, unless the namespace is
  -- excluded, and an event of a resource puts its key there; an object without a key puts nothing
  -- there. No event calls the API server.
  on_event_adds :
      (u : Util) (event : Event A) (w : World q)
      → ((on_ns_event u keys event w).1 ≡ after_adding w (ns_names u (event_key keys event)))
        × ((on_cr_event keys event w).1 ≡ after_adding w (cr_names (event_key keys event)))
  unfolding on_ns_event on_cr_event
  on_event_adds u (added object) w = (ns_informer_handler_lem u _ w, cr_informer_handler_lem _ w)
  on_event_adds u (updated before object) w =
      (ns_informer_handler_lem u _ w, cr_informer_handler_lem _ w)
  on_event_adds u (deleted object) w = (ns_informer_handler_lem u _ w, cr_informer_handler_lem _ w)

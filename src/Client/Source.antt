-- ===== src/Client/Source.antt =====
-- pkg/client/informers/externalversions/athenz/v1/athenzdomain.go: the requests by which an informer of
-- AthenzDomain lists and watches.
use k8s_athenz_syncer.Common.{ℕ, Option, none, some, Bytes}
use k8s_athenz_syncer.Cluster.{Result, AthenzDomainList}
use k8s_athenz_syncer.Client.Requests.{Rest, ListOptions, list_domains, watch_domains}

-- A TweakListOptionsFunc.
abbrev pub Tweak : Type 0
Tweak = ListOptions → ListOptions

abbrev pub tweaked : Option Tweak → ListOptions → ListOptions
tweaked none options = options
tweaked (some tweak) options = tweak options

module _ (rest : Rest) where
  -- An informer by its resync period, its indexers and the tweak of its list and watch functions.
  pub record DomainInformer : Type 0 where
    pub list_func : rest.State → ListOptions → Result AthenzDomainList × rest.State
    pub watch_func : rest.State → ListOptions → Result rest.Watch × rest.State
    pub resync_period : ℕ
    pub indexers : Bytes

  unfoldable pub new_filtered_athenz_domain_informer : ℕ → Bytes → Option Tweak → DomainInformer
  new_filtered_athenz_domain_informer resync_period indexers tweak = record {
    list_func = λ s options. list_domains rest s (tweaked tweak options);
    watch_func = λ s options. watch_domains rest s (tweaked tweak options);
    resync_period = resync_period;
    indexers = indexers;
  }

  unfoldable pub new_athenz_domain_informer : ℕ → Bytes → DomainInformer
  new_athenz_domain_informer resync_period indexers =
      new_filtered_athenz_domain_informer resync_period indexers none

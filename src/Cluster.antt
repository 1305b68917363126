-- ===== src/Cluster.antt =====
-- What the controller, the cron jobs and CRUtil see of the world: the custom resources of
-- pkg/apis/athenz/v1/types.go, the informers' caches, the API server and ZMS. The caches are read as
-- one snapshot by each operation; the servers answer as parameters say.
use k8s_athenz_syncer.Common.{ℕ, Option, List, Bytes, ℕ_discrete, Eq}
use k8s_athenz_syncer.Go.{Slice}
use k8s_athenz_syncer.Zms.{SignedDomain}

-- Go's `error` values: of ZMS (rdl.ResourceError), of the API server, made by errors.New, and made
-- by fmt.Errorf around another.
pub data GoError : Type 0 where
  resource_error : ℕ → Bytes → GoError
  already_exists : GoError
  not_found : GoError
  api_error : Bytes → GoError
  message : Bytes → GoError
  wrapped : Bytes → GoError → GoError

-- A Go result `(value, err)`.
pub data Result {ℓ} (A : Type ℓ) : Type ℓ where
  ok : A → Result A
  err : GoError → Result A

pub record ObjectMeta : Type 0 where
  pub name : Bytes
  pub resource_version : Bytes
  pub rest : Bytes

pub record AthenzDomainStatus : Type 0 where
  pub message : Bytes

pub record AthenzDomainSpec : Type 0 where
  pub signed_domain : SignedDomain

pub record AthenzDomain : Type 0 where
  pub object_meta : ObjectMeta
  pub status : AthenzDomainStatus
  pub spec : AthenzDomainSpec

pub record AthenzDomainList : Type 0 where
  pub list_meta : Bytes
  pub list_items : Slice AthenzDomain

unfoldable pub AthenzDomainSpec-discrete : Discrete AthenzDomainSpec
AthenzDomainSpec-discrete = hlevel ℕ_discrete

instance abbrev pub athenz_domain_spec_eq : Eq AthenzDomainSpec
athenz_domain_spec_eq = record { dec = AthenzDomainSpec-discrete }

unfoldable pub AthenzDomainStatus-discrete : Discrete AthenzDomainStatus
AthenzDomainStatus-discrete = hlevel ℕ_discrete

instance abbrev pub athenz_domain_status_eq : Eq AthenzDomainStatus
athenz_domain_status_eq = record { dec = AthenzDomainStatus-discrete }

-- An interface{} of the custom resources' informer.
pub data Object : Type 0 where
  athenz_domain : AthenzDomain → Object
  -- cache.DeletedFinalStateUnknown, with the object that it holds
  tombstone : Object → Object
  other : Object

-- An interface{} of the namespaces' informer: a namespace by its name, or something else.
pub data NsObject : Type 0 where
  namespace : Bytes → NsObject
  other : NsObject

-- The caches and what answers for a key or an index.
pub record Caches : Type 0 where
  -- GetStore().GetByKey: the object, if the key exists
  pub cr_by_key : Bytes → Option Object
  -- GetStore().List
  pub cr_list : List Object
  -- GetIndexer().ByIndex(trustDomain, ·): none for an error
  pub cr_by_trust : Bytes → Option (List Object)
  -- GetIndexer().ListIndexFuncValues(trustDomain)
  pub cr_trust_values : List Bytes
  pub ns_by_key : Bytes → Option NsObject
  pub ns_list : List NsObject

-- A config map of one key, as the program writes it.
pub record ConfigMap : Type 0 where
  pub name : Bytes
  pub key : Bytes
  pub value : Bytes

-- The calls of the API server.
pub data Call : Type 0 where
  create_cr : AthenzDomain → Call
  update_cr : AthenzDomain → Call
  delete_cr : Bytes → Call
  get_config_map : Bytes → Bytes → Call
  create_config_map : Bytes → ConfigMap → Call
  update_config_map : Bytes → ConfigMap → Call

-- What the server answers, from the calls before.
pub record Server : Type 0 where
  pub on_create : List Call → AthenzDomain → Result AthenzDomain
  pub on_update : List Call → AthenzDomain → Result AthenzDomain
  pub on_delete : List Call → Bytes → Option GoError
  pub on_get_config_map : List Call → Bytes → Bytes → Result (Option ConfigMap)
  pub on_create_config_map : List Call → Bytes → ConfigMap → Option GoError
  pub on_update_config_map : List Call → Bytes → ConfigMap → Option GoError

-- A call of ZMS's GetSignedDomains with master and conditions false; an empty domain is all domains.
pub record ZmsRequest : Type 0 where
  pub domain : Bytes
  pub meta_only : Bytes
  pub matching_tag : Bytes

pub record SignedDomains : Type 0 where
  pub domains : Slice (Option SignedDomain)

pub data ZmsAnswer : Type 0 where
  answered : Option SignedDomains → Bytes → ZmsAnswer
  failed : GoError → ZmsAnswer

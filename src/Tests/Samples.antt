-- ===== src/Tests/Samples.antt =====
-- Values that the tests share.
use k8s_athenz_syncer.Common.{
  Option, none, some, true, [], ◌∷◌, Bytes, bytes_eq, ◌==◌, codes, if◌then◌else◌,
}
use k8s_athenz_syncer.Zms.{Role, DomainPolicies, SignedPolicies, DomainData, SignedDomain}
use k8s_athenz_syncer.Util.{Util}
use k8s_athenz_syncer.WorkQueue.{Limited, limited_queue}
use k8s_athenz_syncer.Cluster.{
  not_found, ok, err, AthenzDomain, AthenzDomainSpec, athenz_domain, namespace, Caches, Server,
}
use k8s_athenz_syncer.World.{World}
use k8s_athenz_syncer.Cron.{ContactTimeConfigMap}

abbrev pub home : Util
home = record {
  admin_domain = codes "home";
  system_namespaces = codes "kube-system" ∷ [];
  exclude_namespaces = (codes "skip", true) ∷ [];
  exclude_msd_rules = true;
}

abbrev pub role : Bytes → Bytes → Option Role
role name trust = some (record { name = name; trust = trust; rest = [] })

abbrev pub contents : DomainPolicies
contents = record {
  policies = some (
      some (record { name = codes "a.b:policy.acl.x"; rest = [] })
      ∷ some (record { name = codes "a.b:policy.admin"; rest = [] })
      ∷ []);
  rest = [];
}

abbrev pub signed_policies : SignedPolicies
signed_policies = record { contents = some contents; signature = codes "p"; rest = [] }

abbrev pub domain_data : DomainData
domain_data = record {
  name = codes "a.b";
  roles =
      some (role (codes "a.b:role.acl.x") [] ∷ role (codes "a.b:role.admin") (codes "c.d") ∷ []);
  policies = some signed_policies;
  modified = some 62135596801000000000;
  rest = [];
}

-- The same without the rules of the MSD service.
abbrev pub kept_contents : DomainPolicies
kept_contents = record {
  policies = some (some (record { name = codes "a.b:policy.admin"; rest = [] }) ∷ []);
  rest = [];
}

abbrev pub kept_data : DomainData
kept_data = record {
  name = codes "a.b";
  roles = some (role (codes "a.b:role.admin") (codes "c.d") ∷ []);
  policies = some (record { contents = some kept_contents; signature = codes "p"; rest = [] });
  modified = some 62135596801000000000;
  rest = [];
}

abbrev pub signed_domain : DomainData → Bytes → SignedDomain
signed_domain d signature = record { domain = some d; signature = signature; rest = [] }

abbrev pub resource : SignedDomain → AthenzDomain
resource signed = record {
  object_meta = record { name = codes "a.b"; resource_version = codes "7"; rest = [] };
  status = record { message = [] };
  spec = record { signed_domain = signed };
}

abbrev pub empty_caches : Caches
empty_caches = record {
  cr_by_key = λ key. none;
  cr_list = [];
  cr_by_trust = λ trust. some [];
  cr_trust_values = [];
  ns_by_key = λ key. if key == codes "a-b" then some (namespace (codes "a-b")) else none;
  ns_list = namespace (codes "a-b") ∷ namespace (codes "skip") ∷ [];
}

abbrev pub stored : AthenzDomain
stored = resource (signed_domain kept_data (codes "s"))

-- The cache holds the resource of a.b, whose role delegates to c.d.
abbrev pub full_caches : Caches
full_caches = record {
  cr_by_key = λ key. if key == codes "a.b" then some (athenz_domain stored) else none;
  cr_list = athenz_domain stored ∷ [];
  cr_by_trust = λ trust. if trust == codes "c.d" then some (athenz_domain stored ∷ []) else some [];
  cr_trust_values = codes "c.d" ∷ [];
  ns_by_key = λ key. if key == codes "a-b" then some (namespace (codes "a-b")) else none;
  ns_list = namespace (codes "a-b") ∷ namespace (codes "skip") ∷ [];
}

abbrev pub server : Server
server = record {
  on_create = λ calls new. ok new;
  on_update = λ calls new. ok new;
  on_delete = λ calls name. none;
  on_get_config_map = λ calls ns name. err not_found;
  on_create_config_map = λ calls ns cm. none;
  on_update_config_map = λ calls ns cm. none;
}

abbrev pub contact_cm : ContactTimeConfigMap
contact_cm = record { cm_namespace = codes "kube"; cm_name = codes "call"; cm_key = codes "latest" }

abbrev pub copy : AthenzDomainSpec → Option AthenzDomainSpec
copy spec = some spec

abbrev pub limited : Limited
limited = record {
  limiter = record { failures = []; current_delay = 90; delay_interval = 10 };
  clock = 100;
  ticks = [];
  released = [];
  finished = [];
}

abbrev pub world : World limited_queue
world = record { queue = limited; calls = []; etag = [] }

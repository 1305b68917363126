-- ===== src/Named.antt =====
-- Properties of the calls of the API server that operations keep.
use k8s_athenz_syncer.Common.{All, ◌≡◌, some, List}
use k8s_athenz_syncer.Zms.{DomainData}
use k8s_athenz_syncer.Cluster.{
  delete_cr, AthenzDomain, Call, create_cr, update_cr, get_config_map, create_config_map,
  update_config_map,
}

-- A resource is named after the domain in its spec.
abbrev pub IsNamed : AthenzDomain → Type 0
IsNamed a =
    (d : DomainData) × (a.spec.signed_domain.domain ≡ some d) × (d.name ≡ a.object_meta.name)

-- A call that writes a resource writes a named one.
abbrev pub WritesNamed : Call → Type 0
WritesNamed (create_cr a) = IsNamed a
WritesNamed (update_cr a) = IsNamed a
WritesNamed _ = Unit

abbrev pub AllNamed : List Call → Type 0
AllNamed calls = All WritesNamed calls

-- The calls about config maps.
abbrev pub IsConfigMapCall : Call → Type 0
IsConfigMapCall (get_config_map ns name) = Unit
IsConfigMapCall (create_config_map ns config_map) = Unit
IsConfigMapCall (update_config_map ns config_map) = Unit
IsConfigMapCall _ = ⊥

pub WritesNamed-config : (c : Call) → IsConfigMapCall c → WritesNamed c
WritesNamed-config (get_config_map ns name) h = tt
WritesNamed-config (create_config_map ns config_map) h = tt
WritesNamed-config (update_config_map ns config_map) h = tt
WritesNamed-config (create_cr a) h = absurd h
WritesNamed-config (update_cr a) h = absurd h
WritesNamed-config (delete_cr name) h = absurd h

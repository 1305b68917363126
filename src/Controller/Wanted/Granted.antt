-- ===== src/Controller/Wanted/Granted.antt =====
-- The store in memory refuses no write that is due, so that there only agreement is left.
use k8s_athenz_syncer.Common.{◌≡◌, refl, Option, none, some, Bytes, bytes_eq, arith}
use k8s_athenz_syncer.GoMap.{lookup}
use k8s_athenz_syncer.Cluster.{AthenzDomain}
use k8s_athenz_syncer.ApiServer.Memory.{Memory, memory}
use k8s_athenz_syncer.Controller.Wanted.{RefusesFrom, Refuses}

-- The resource, if there is one, has this name.
abbrev pub IsOf : Bytes → Option AthenzDomain → Type 0
IsOf domain none = Unit
IsOf domain (some wanted) = wanted.object_meta.name ≡ domain

granted :
    (s : Memory) (domain : Bytes) (found wanted : Option AthenzDomain)
    → IsOf domain wanted
    → lookup s.resources domain ≡ found
    → ¬ RefusesFrom memory s domain found wanted
granted s domain none none of stored refuses = refuses
granted s domain none (some new) of stored (e, refused) = ground (arith, of, stored, refused)
granted s domain (some old) none of stored (e, refused) = ground (arith, stored, refused)
granted s domain (some old) (some new) of stored (e, refused) = ground (arith, of, stored, refused)

pub memory-Grants :
    (s : Memory) (domain : Bytes) (wanted : Option AthenzDomain)
    → IsOf domain wanted
    → ¬ Refuses memory s domain wanted
memory-Grants s domain wanted of = granted s domain (lookup s.resources domain) wanted of refl

-- ===== src/ApiServer/Memory.antt =====
-- A store in memory that keeps the laws: a map by name, and a counter for the resource versions.
use k8s_athenz_syncer.Common.{
  Bool-cases, inr, inl, ℕ, ◌≡◌, ◌≢◌, refl, Option, none, some, Bytes, bytes_eq, ◌==◌, if◌then◌else◌,
  [], ◌∷◌, arith, ◌+◌,
}
use k8s_athenz_syncer.GoMap.{GoMap, lookup, insert, erase, lookup-insert, lookup-erase}
use k8s_athenz_syncer.Cluster.{
  GoError, not_found, already_exists, api_error, Result, ok, err, AthenzDomain,
}
use k8s_athenz_syncer.ApiServer.{ApiServer, IsLawful, Stores, Deletes}
use k8s_athenz_syncer.ApiServer.Origin.{IsStrict}

pub record Memory : Type 0 where
  pub resources : GoMap Bytes AthenzDomain
  pub version : ℕ

abbrev stamped : Memory → AthenzDomain → AthenzDomain
stamped s object = record object {
  object_meta = record (object.object_meta) { resource_version = s.version ∷ [] };
}

abbrev stored : Memory → AthenzDomain → Result AthenzDomain × Memory
stored s object = (
  ok (stamped s object),
  record {
    resources = insert s.resources object.object_meta.name (stamped s object);
    version = s.version + 1;
  },
)

abbrev create : Memory → Option AthenzDomain → AthenzDomain → Result AthenzDomain × Memory
create s none object = stored s object
create s (some old) object = (err already_exists, s)

abbrev update : Memory → Option AthenzDomain → AthenzDomain → Result AthenzDomain × Memory
update s none object = (err not_found, s)
update s (some old) object =
    if object.object_meta.resource_version == old.object_meta.resource_version
    then stored s object
    else (err (api_error []), s)

abbrev delete : Memory → Bytes → Option AthenzDomain → Option GoError × Memory
delete s name none = (some not_found, s)
delete s name (some old) = (none, record s { resources = erase s.resources name })

abbrev pub memory : ApiServer
memory = record {
  State = Memory;
  get = λ s name. lookup s.resources name;
  create = λ s object. create s (lookup s.resources object.object_meta.name) object;
  update = λ s object. update s (lookup s.resources object.object_meta.name) object;
  delete = λ s name. delete s name (lookup s.resources name);
}

stored-Stores : (s : Memory) (object : AthenzDomain) → Stores memory s object (stored s object)
stored-Stores s object = (
  ground (
    arith,
    lookup-insert s.resources object.object_meta.name (stamped s object) object.object_meta.name,
  ),
  refl,
  refl,
)

get-stored :
    (s : Memory) (object : AthenzDomain) (name : Bytes)
    → name ≢ object.object_meta.name
    → lookup (stored s object).1.resources name ≡ lookup s.resources name
get-stored s object name other =
    ground (arith, lookup-insert s.resources object.object_meta.name (stamped s object) name)

update-Stores :
    (s : Memory) (old object : AthenzDomain)
    → object.object_meta.resource_version ≡ old.object_meta.resource_version
    → Stores memory s object (update s (some old) object)
update-Stores s old object v =
    elim (Bool-cases (object.object_meta.resource_version == old.object_meta.resource_version)) [
      | inl e ↦ rw e (stored-Stores s object)
      | inr e ↦ absurd (ground (arith, e, v))
    ]

get-update :
    (s : Memory) (found : Option AthenzDomain) (object : AthenzDomain) (name : Bytes)
    → name ≢ object.object_meta.name
    → lookup (update s found object).1.resources name ≡ lookup s.resources name
get-update s none object name other = refl
get-update s (some old) object name other =
    elim (Bool-cases (object.object_meta.resource_version == old.object_meta.resource_version)) [
      | inl e ↦ rw e (get-stored s object name other)
      | inr e ↦ rw e refl
    ]

get-create :
    (s : Memory) (found : Option AthenzDomain) (object : AthenzDomain) (name : Bytes)
    → name ≢ object.object_meta.name
    → lookup (create s found object).1.resources name ≡ lookup s.resources name
get-create s none object name other = get-stored s object name other
get-create s (some old) object name other = refl

get-delete :
    (s : Memory) (found : Option AthenzDomain) (deleted name : Bytes)
    → name ≢ deleted
    → lookup (delete s deleted found).1.resources name ≡ lookup s.resources name
get-delete s none deleted name other = refl
get-delete s (some old) deleted name other = ground (arith, lookup-erase s.resources deleted name)

pub memory-IsLawful : IsLawful memory
memory-IsLawful = record {
  create-Stores = λ s object e. rw e (stored-Stores s object);
  update-Stores = λ s object old e v. rw e (update-Stores s old object v);
  delete-Deletes = λ s name old e. rw e (ground (arith, lookup-erase s.resources name name));
  get-create = λ s object. get-create s (lookup s.resources object.object_meta.name) object;
  get-update = λ s object. get-update s (lookup s.resources object.object_meta.name) object;
  get-delete = λ s deleted. get-delete s (lookup s.resources deleted) deleted;
}

create-Stores :
    (s : Memory) (found : Option AthenzDomain) (object : AthenzDomain)
    → Stores memory s object (create s found object)
create-Stores s none object = stored-Stores s object
create-Stores s (some old) object = refl

update_any-Stores :
    (s : Memory) (found : Option AthenzDomain) (object : AthenzDomain)
    → Stores memory s object (update s found object)
update_any-Stores s none object = refl
update_any-Stores s (some old) object =
    elim (Bool-cases (object.object_meta.resource_version == old.object_meta.resource_version)) [
      | inl e ↦ rw e (stored-Stores s object)
      | inr e ↦ rw e refl
    ]

delete-Deletes :
    (s : Memory) (name : Bytes) (found : Option AthenzDomain)
    → Deletes memory s name (delete s name found)
delete-Deletes s name none = refl
delete-Deletes s name (some old) = ground (arith, lookup-erase s.resources name name)

pub memory-IsStrict : IsStrict memory
memory-IsStrict = record {
  create-Stores = λ s object. create-Stores s (lookup s.resources object.object_meta.name) object;
  update-Stores =
      λ s object. update_any-Stores s (lookup s.resources object.object_meta.name) object;
  delete-Deletes = λ s name. delete-Deletes s name (lookup s.resources name);
}

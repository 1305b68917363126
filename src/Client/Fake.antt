-- ===== src/Client/Fake.antt =====
-- pkg/client/clientset/versioned/typed/athenz/v1/fake/fake_athenzdomain.go: the client that the unit
-- tests use, over the tracker of client-go as the parameter `fake`.
pub mod Clientset
pub mod Mirrors
use k8s_athenz_syncer.Common.{
  ℕ, Bool, true, false, Option, none, some, List, [], ◌∷◌, Bytes, codes, if◌then◌else◌, is_empty,
}
use k8s_athenz_syncer.Go.{Go, ret, panic, Slice, items, appended}
use k8s_athenz_syncer.Cluster.{GoError, Result, AthenzDomain, AthenzDomainList}
use k8s_athenz_syncer.Client.Requests.{ListOptions}
use k8s_athenz_syncer.Client.Informers.{GroupVersionResource}

abbrev pub athenzdomains_resource : GroupVersionResource
athenzdomains_resource = record {
  group = codes "athenz";
  version = codes "v1";
  resource = codes "athenzdomains";
}

-- The root actions of package testing, each with the resource.
pub data Action : Type 0 where
  get_action : GroupVersionResource → Bytes → Action
  list_action : GroupVersionResource → ListOptions → Action
  watch_action : GroupVersionResource → ListOptions → Action
  create_action : GroupVersionResource → AthenzDomain → Action
  update_action : GroupVersionResource → AthenzDomain → Action
  delete_action : GroupVersionResource → Bytes → Action
  delete_collection_action : GroupVersionResource → ListOptions → Action
  patch_action : GroupVersionResource → Bytes → Bytes → Bytes → List Bytes → Action

-- A runtime.Object that the tracker returns.
pub data FakeObject : Type 0 where
  domain : AthenzDomain → FakeObject
  list : AthenzDomainList → FakeObject
  other : FakeObject

-- An object, nil where it is not set, and an error.
abbrev pub Invoked : Type 0
Invoked = Option FakeObject × Option GoError

pub record Fake : Type 1 where
  pub State : Type 0
  pub Watch : Type 0
  pub invokes : State → Action → Invoked × State
  pub invokes_watch : State → Action → Result Watch × State
  -- What ExtractFromListOptions and Matches say of an item.
  pub matches : ListOptions → AthenzDomain → Bool

-- A nil object is returned as nil; another type fails the assertion.
abbrev pub as_domain : Invoked → Go (Option AthenzDomain × Option GoError)
as_domain (none, error) = ret (none, error)
as_domain (some (domain a), error) = ret (some a, error)
as_domain (some _, error) = panic

abbrev pub matching : (AthenzDomain → Bool) → List AthenzDomain → List AthenzDomain
matching test [] = []
matching test (a ∷ rest) = let later = matching test rest in if test a then a ∷ later else later

abbrev pub as_list : (AthenzDomain → Bool) → Invoked → Go (Option AthenzDomainList × Option GoError)
as_list test (none, error) = ret (none, error)
as_list test (some (list l), error) =
    ret (some (record l { list_items = appended (matching test (items l.list_items)) }), error)
as_list test (some _, error) = panic

module _ (fake : Fake) where
  abbrev pub Called : Type 0
  Called = Go (Option AthenzDomain × Option GoError) × fake.State

  unfoldable pub invoke : fake.State → Action → Called
  invoke s action = (as_domain (fake.invokes s action).0, (fake.invokes s action).1)

  unfoldable pub fake_get : fake.State → Bytes → Bytes → Called
  unfolding invoke
  fake_get s name options = invoke s (get_action athenzdomains_resource name)

  unfoldable pub fake_list :
      fake.State → ListOptions → Go (Option AthenzDomainList × Option GoError) × fake.State
  fake_list s options =
      let (invoked, t) = fake.invokes s (list_action athenzdomains_resource options) in
      (as_list (fake.matches options) invoked, t)

  unfoldable pub fake_watch : fake.State → ListOptions → Result fake.Watch × fake.State
  fake_watch s options = fake.invokes_watch s (watch_action athenzdomains_resource options)

  unfoldable pub fake_create : fake.State → AthenzDomain → Bytes → Called
  unfolding invoke
  fake_create s athenz_domain options =
      invoke s (create_action athenzdomains_resource athenz_domain)

  unfoldable pub fake_update : fake.State → AthenzDomain → Bytes → Called
  unfolding invoke
  fake_update s athenz_domain options =
      invoke s (update_action athenzdomains_resource athenz_domain)

  unfoldable pub fake_delete : fake.State → Bytes → Bytes → Option GoError × fake.State
  fake_delete s name options =
      let (invoked, t) = fake.invokes s (delete_action athenzdomains_resource name) in
      (invoked.1, t)

  unfoldable pub fake_delete_collection :
      fake.State → Bytes → ListOptions → Option GoError × fake.State
  fake_delete_collection s options list_opts =
      let (invoked, t) =
        fake.invokes s (delete_collection_action athenzdomains_resource list_opts) in
      (invoked.1, t)

  unfoldable pub fake_patch : fake.State → Bytes → Bytes → Bytes → Bytes → List Bytes → Called
  unfolding invoke
  fake_patch s name patch_type data_of options subresources =
      invoke s (patch_action athenzdomains_resource name patch_type data_of subresources)

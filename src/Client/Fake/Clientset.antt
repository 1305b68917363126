-- ===== src/Client/Fake/Clientset.antt =====
-- pkg/client/clientset/versioned/fake/clientset_generated.go: the clientset of the unit tests. The
-- tracker and the walk over a reaction chain, both of client-go, are the parameter `testing`.
pub mod Preloaded
pub mod Reactions
use k8s_athenz_syncer.Common.{
  Bool, true, false, Option, none, some, List, [], ◌∷◌, ◌++◌, Bytes, codes,
}
use k8s_athenz_syncer.Go.{Go, ret, panic}
use k8s_athenz_syncer.Cluster.{GoError, Result, ok, err, AthenzDomain}
use k8s_athenz_syncer.Client.Requests.{ListOptions}
use k8s_athenz_syncer.Client.Informers.{GroupVersionResource}
use k8s_athenz_syncer.Client.Fake.{
  Action, get_action, list_action, watch_action, create_action, update_action, delete_action,
  delete_collection_action, patch_action, FakeObject, Invoked, Fake,
}

-- What a reaction says: whether it handled the action, and with what result.
abbrev pub Handled : Type 0 → Type 0
Handled A = Bool × Option A × Option GoError

-- A reaction of the chain, with the verb and the resource that it is registered for.
abbrev pub Reactor : Type 0 → Type 0 → Type 0
Reactor S A = Bytes × Bytes × (S → Action → Handled A × S)

-- Packages testing and fake of client-go.
pub record Testing : Type 1 where
  pub Tracker : Type 0
  pub Watch : Type 0
  pub new_object_tracker : Tracker
  pub add : Tracker → FakeObject → Option GoError × Tracker
  pub object_reaction : Tracker → Action → Handled FakeObject × Tracker
  -- By resource and namespace.
  pub watch : Tracker → GroupVersionResource → Bytes → Result Watch × Tracker
  -- Fake.Invokes and Fake.InvokesWatch, over the chain of reactions.
  pub invokes : List (Reactor Tracker FakeObject) → Tracker → Action → Invoked × Tracker
  pub invokes_watch : List (Reactor Tracker Watch) → Tracker → Action → Result Watch × Tracker
  pub matches : ListOptions → AthenzDomain → Bool

-- Action.GetResource
abbrev pub resource_of : Action → GroupVersionResource
resource_of (get_action gvr name) = gvr
resource_of (list_action gvr options) = gvr
resource_of (watch_action gvr options) = gvr
resource_of (create_action gvr a) = gvr
resource_of (update_action gvr a) = gvr
resource_of (delete_action gvr name) = gvr
resource_of (delete_collection_action gvr options) = gvr
resource_of (patch_action gvr name kind data_of subresources) = gvr

-- Action.GetNamespace: the actions of a resource without namespaces have none.
abbrev pub namespace_of : Action → Bytes
namespace_of action = []

module _ (testing : Testing) where
  -- The discovery client only refers to the embedded Fake, and is left out.
  pub record FakeClientset : Type 0 where
    pub tracker : testing.Tracker
    pub reaction_chain : List (Reactor testing.Tracker FakeObject)
    pub watch_reaction_chain : List (Reactor testing.Tracker testing.Watch)

  unfoldable pub watch_answer :
      Result testing.Watch × testing.Tracker → Handled testing.Watch × testing.Tracker
  watch_answer (ok watch, t) = ((true, some watch, none), t)
  watch_answer (err e, t) = ((false, none, some e), t)

  unfoldable pub watch_reaction : testing.Tracker → Action → Handled testing.Watch × testing.Tracker
  watch_reaction t action =
      watch_answer (testing.watch t (resource_of action) (namespace_of action))

  unfoldable pub add_reactor :
      Bytes
      → Bytes
      → (testing.Tracker → Action → Handled FakeObject × testing.Tracker)
      → FakeClientset
      → FakeClientset
  add_reactor verb resource reaction cs = record cs {
    reaction_chain = cs.reaction_chain ++ ((verb, resource, reaction) ∷ []);
  }

  unfoldable pub add_watch_reactor :
      Bytes
      → (testing.Tracker → Action → Handled testing.Watch × testing.Tracker)
      → FakeClientset
      → FakeClientset
  add_watch_reactor resource reaction cs = record cs {
    watch_reaction_chain = cs.watch_reaction_chain ++ ((codes "watch", resource, reaction) ∷ []);
  }

  abbrev pub after_add :
      (testing.Tracker → Go testing.Tracker) → Option GoError × testing.Tracker → Go testing.Tracker
  after_add next (some e, t) = panic
  after_add next (none, t) = next t

  -- The loop over the objects, which panics at the first that the tracker refuses.
  unfoldable pub add_objects : List FakeObject → testing.Tracker → Go testing.Tracker
  add_objects [] t = ret t
  add_objects (object ∷ rest) t = after_add (add_objects rest) (testing.add t object)

  unfoldable pub clientset_over : testing.Tracker → FakeClientset
  clientset_over o = add_watch_reactor (codes "*") watch_reaction (
      add_reactor (codes "*") (codes "*") testing.object_reaction
        (record { tracker = o; reaction_chain = []; watch_reaction_chain = [] }))

  wired : Go testing.Tracker → Go FakeClientset
  wired panic = panic
  wired (ret o) = ret (clientset_over o)

  unfoldable pub new_simple_clientset : List FakeObject → Go FakeClientset
  unfolding wired
  new_simple_clientset objects = wired (add_objects objects testing.new_object_tracker)

  -- AthenzV1: the client of the resource over the chains of the clientset.
  abbrev pub fake_athenz_v1 : FakeClientset → Fake
  fake_athenz_v1 cs = record {
    State = testing.Tracker;
    Watch = testing.Watch;
    invokes = testing.invokes cs.reaction_chain;
    invokes_watch = testing.invokes_watch cs.watch_reaction_chain;
    matches = testing.matches;
  }

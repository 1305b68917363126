-- ===== src/Client/Fake/Clientset/Preloaded.antt =====
-- Where the objects that a clientset of the unit tests is made with are found.
use k8s_athenz_syncer.Common.{
  Bool, true, false, none, some, List, [], ◌∷◌, ◌≡◌, ◌≢◌, ◌∙◌, Bytes, map,
}
use k8s_athenz_syncer.Go.{ret}
use k8s_athenz_syncer.Cluster.{GoError, not_found, AthenzDomain}
use k8s_athenz_syncer.Client.Sets.{scheme_group_version}
use k8s_athenz_syncer.Client.Informers.{GroupVersionResource}
use k8s_athenz_syncer.Client.Fake.{athenzdomains_resource, Action, get_action, domain, fake_get}
use k8s_athenz_syncer.Client.Fake.Mirrors.{groups_apart}
use k8s_athenz_syncer.Client.Fake.Clientset.{
  Testing, clientset_over, new_simple_clientset, fake_athenz_v1,
}
use k8s_athenz_syncer.Client.Fake.Clientset.Reactions.{
  IsTesting, Accepts, no_more, one_more, new_simple_clientset-Accepts, new_invoke_answers,
}

-- The tracker holds an object under a resource and a name. It adds a domain under a resource of the
-- group that the domain is registered with in the scheme, and it answers a get of an object that it
-- does not hold with not found.
pub record IsTracker (testing : Testing)
    (holds : testing.Tracker → GroupVersionResource → Bytes → Bool) : Type 0 where
  pub holds-new :
      (gvr : GroupVersionResource) (name : Bytes)
      → holds testing.new_object_tracker gvr name ≡ false
  pub holds-add :
      (t u : testing.Tracker) (a : AthenzDomain) (gvr : GroupVersionResource) (name : Bytes)
      → testing.add t (domain a) ≡ (none, u)
      → gvr.group ≢ scheme_group_version.group
      → holds u gvr name ≡ holds t gvr name
  pub reaction-missing :
      (t : testing.Tracker) (gvr : GroupVersionResource) (name : Bytes)
      → holds t gvr name ≡ false
      → testing.object_reaction t (get_action gvr name) ≡ ((true, none, some not_found), t)

module _ (testing : Testing) (unhandled : Action → GoError)
    (holds : testing.Tracker → GroupVersionResource → Bytes → Bool)
    (lawful : IsTesting testing unhandled) (tracks : IsTracker testing holds) where
  not_held :
      (domains : List AthenzDomain) (t u : testing.Tracker) (gvr : GroupVersionResource)
      (name : Bytes)
      → gvr.group ≢ scheme_group_version.group
      → Accepts testing t (map domain domains) u
      → holds t gvr name ≡ false
      → holds u gvr name ≡ false
  not_held [] t u gvr name other (no_more _) missing = missing
  not_held (a ∷ domains) t v gvr name other (one_more _ _ _ u _ accepts later) missing =
      not_held domains u v gvr name other later
        (tracks.holds-add t u a gvr name accepts other ∙ missing)

  -- The clientset that is made with domains that the tracker accepts answers a get of any name, theirs
  -- included, with not found: the client asks for the group athenz, and they are held in athenz.io.
  pub preloaded-missing :
      (domains : List AthenzDomain) (t : testing.Tracker) (name options : Bytes)
      → Accepts testing testing.new_object_tracker (map domain domains) t
      → (new_simple_clientset testing (map domain domains) ≡ ret (clientset_over testing t))
        × (fake_get (fake_athenz_v1 testing (clientset_over testing t)) t name options
            ≡ (ret (none, some not_found), t))
  unfolding fake_get
  preloaded-missing domains t name options accepts = (
    new_simple_clientset-Accepts testing (map domain domains) t accepts,
    new_invoke_answers testing unhandled lawful t t t (get_action athenzdomains_resource name) none
        (some not_found)
        (tracks.reaction-missing t athenzdomains_resource name (
          not_held domains testing.new_object_tracker t athenzdomains_resource name groups_apart
            accepts (tracks.holds-new athenzdomains_resource name))),
  )

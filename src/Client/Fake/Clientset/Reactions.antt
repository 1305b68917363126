-- ===== src/Client/Fake/Clientset/Reactions.antt =====
-- What a client of the unit tests answers, for the tracker that its objects were added to.
use k8s_athenz_syncer.Common.{
  ◌++◌, codes, true, false, Option, none, some, List, [], ◌∷◌, ◌≡◌, refl, ap, ◌∙◌,
}
use k8s_athenz_syncer.Go.{ret, panic}
use k8s_athenz_syncer.Cluster.{GoError, Result, ok, err}
use k8s_athenz_syncer.Client.Requests.{ListOptions}
use k8s_athenz_syncer.Client.Fake.{
  codes, athenzdomains_resource, Action, watch_action, FakeObject, fake_watch, invoke, as_domain,
}
use k8s_athenz_syncer.Client.Fake.Clientset.{
  after_add, Handled, Testing, watch_answer, watch_reaction, add_reactor, add_watch_reactor,
  add_objects, clientset_over, wired, new_simple_clientset, fake_athenz_v1,
}

-- Every reaction here is registered for all verbs and resources. The first that handles an action
-- answers it; a watch that none handles gets the error `unhandled`, whatever they returned.
pub record IsTesting (testing : Testing) (unhandled : Action → GoError) : Type 0 where
  pub invokes-handled :
      (reaction : testing.Tracker → Action → Handled FakeObject × testing.Tracker)
      (t u : testing.Tracker) (action : Action) (object : Option FakeObject)
      (error : Option GoError)
      → reaction t action ≡ ((true, object, error), u)
      → testing.invokes ((codes "*", codes "*", reaction) ∷ []) t action ≡ ((object, error), u)
  pub invokes_watch-handled :
      (reaction : testing.Tracker → Action → Handled testing.Watch × testing.Tracker)
      (t u : testing.Tracker) (action : Action) (w : testing.Watch)
      → reaction t action ≡ ((true, some w, none), u)
      → testing.invokes_watch ((codes "watch", codes "*", reaction) ∷ []) t action ≡ (ok w, u)
  pub invokes_watch-unhandled :
      (reaction : testing.Tracker → Action → Handled testing.Watch × testing.Tracker)
      (t u : testing.Tracker) (action : Action) (dropped : Option testing.Watch)
      (e : Option GoError)
      → reaction t action ≡ ((false, dropped, e), u)
      → testing.invokes_watch ((codes "watch", codes "*", reaction) ∷ []) t action
        ≡ (err (unhandled action), u)

abbrev watched {ℓ} : {A : Type ℓ} → GoError → Result A → Result A
watched e (ok w) = ok w
watched e (err _) = err e

-- The tracker accepts the objects in turn.
pub data Accepts (testing : Testing)
    : testing.Tracker → List FakeObject → testing.Tracker → Type 0 where
  no_more : (t : testing.Tracker) → Accepts testing t [] t
  one_more :
      (object : FakeObject) (rest : List FakeObject) (t u v : testing.Tracker)
      → testing.add t object ≡ (none, u)
      → Accepts testing u rest v
      → Accepts testing t (object ∷ rest) v

module _ (testing : Testing) where
  add_objects-Accepts :
      (before rest : List FakeObject) (t u : testing.Tracker)
      → Accepts testing t before u
      → add_objects testing (before ++ rest) t ≡ add_objects testing rest u
  unfolding add_objects
  add_objects-Accepts [] rest t u (no_more _) = refl
  add_objects-Accepts (object ∷ before) rest t v (one_more _ _ _ u _ accepts later) =
      ap (after_add testing (add_objects testing (before ++ rest))) accepts
      ∙ add_objects-Accepts before rest u v later

  added_all :
      (objects : List FakeObject) (t u : testing.Tracker)
      → Accepts testing t objects u
      → add_objects testing objects t ≡ ret u
  unfolding add_objects
  added_all [] t u (no_more _) = refl
  added_all (object ∷ rest) t v (one_more _ _ _ u _ accepts later) =
      ap (after_add testing (add_objects testing rest)) accepts ∙ added_all rest u v later

  refused_first :
      (object : FakeObject) (rest : List FakeObject) (t u : testing.Tracker) (e : GoError)
      → testing.add t object ≡ (some e, u)
      → add_objects testing (object ∷ rest) t ≡ panic
  unfolding add_objects
  refused_first object rest t u e refuses =
      ap (after_add testing (add_objects testing rest)) refuses

  -- The clientset of objects that the tracker accepts in turn is the one over the tracker with all of
  -- them.
  pub new_simple_clientset-Accepts :
      (objects : List FakeObject) (t : testing.Tracker)
      → Accepts testing testing.new_object_tracker objects t
      → new_simple_clientset testing objects ≡ ret (clientset_over testing t)
  unfolding new_simple_clientset wired
  new_simple_clientset-Accepts objects t accepts =
      ap (wired testing) (added_all objects testing.new_object_tracker t accepts)

  -- With an object that the tracker refuses after it accepted those before, the call panics.
  new_simple_clientset_refused :
      (before rest : List FakeObject) (object : FakeObject) (t u : testing.Tracker) (e : GoError)
      → Accepts testing testing.new_object_tracker before t
      → testing.add t object ≡ (some e, u)
      → new_simple_clientset testing (before ++ (object ∷ rest)) ≡ panic
  unfolding new_simple_clientset wired
  new_simple_clientset_refused before rest object t u e accepts refuses = ap (wired testing) (
      add_objects-Accepts before (object ∷ rest) testing.new_object_tracker t accepts
      ∙ refused_first object rest t u e refuses)

module _ (testing : Testing) (unhandled : Action → GoError)
    (lawful : IsTesting testing unhandled) where
  -- A watch by the client of a new clientset has the watch of the tracker, and when the tracker fails,
  -- the error of an unhandled watch in place of the tracker's.
  new_watch_answers :
      (t s u : testing.Tracker) (options : ListOptions) (answer : Result testing.Watch)
      → testing.watch s athenzdomains_resource [] ≡ (answer, u)
      → fake_watch (fake_athenz_v1 testing (clientset_over testing t)) s options
        ≡ (watched (unhandled (watch_action athenzdomains_resource options)) answer, u)
  unfolding fake_watch watch_reaction watch_answer clientset_over add_watch_reactor add_reactor
  new_watch_answers t s u options (ok w) watches =
      lawful.invokes_watch-handled (watch_reaction testing) s u
        (watch_action athenzdomains_resource options) w (rw watches refl)
  new_watch_answers t s u options (err e) watches =
      lawful.invokes_watch-unhandled (watch_reaction testing) s u
        (watch_action athenzdomains_resource options) none (some e) (rw watches refl)

  -- The other operations that return the resource have the answer of the reaction of the tracker, when
  -- that reaction handles them.
  pub new_invoke_answers :
      (t s u : testing.Tracker) (action : Action) (object : Option FakeObject)
      (error : Option GoError)
      → testing.object_reaction s action ≡ ((true, object, error), u)
      → invoke (fake_athenz_v1 testing (clientset_over testing t)) s action
        ≡ (as_domain (object, error), u)
  unfolding invoke clientset_over add_watch_reactor add_reactor
  new_invoke_answers t s u action object error reacts =
      rw (lawful.invokes-handled testing.object_reaction s u action object error reacts) refl

-- ===== src/Tests/Fakes.antt =====
-- The clientset of the unit tests and the filled scheme, over a tracker and a scheme of lists.
use k8s_athenz_syncer.Common.{
  ◌&&◌, Bool, true, false, Option, none, some, List, [], ◌∷◌, ◌≡◌, ◌≢◌, refl, Bytes, codes,
  bytes_discrete, bytes_eq, contains, ◌==◌, if◌then◌else◌, inl, inr, sym, ◌∙◌, ◌||◌, In, or-true,
}
use k8s_athenz_syncer.Go.{ret}
use k8s_athenz_syncer.Cluster.{GoError, not_found, Result, ok, err}
use k8s_athenz_syncer.Client.Sets.{scheme_group_version}
use k8s_athenz_syncer.Client.Informers.{GroupVersionResource}
use k8s_athenz_syncer.Client.Fake.{Action, get_action, FakeObject, domain, other, Invoked, fake_get}
use k8s_athenz_syncer.Client.Fake.Clientset.{
  Handled, Reactor, Testing, clientset_over, new_simple_clientset, fake_athenz_v1,
}
use k8s_athenz_syncer.Client.Fake.Clientset.Reactions.{IsTesting, no_more, one_more}
use k8s_athenz_syncer.Client.Fake.Clientset.Preloaded.{IsTracker, preloaded-missing}
use k8s_athenz_syncer.Client.Scheme.{Machinery, IsMachinery, applied}
use k8s_athenz_syncer.Tests.Samples.{stored}

-- The tracker keeps the names that it holds in the group athenz.io.
abbrev Names : Type 0
Names = List Bytes

abbrev added : Names → FakeObject → Option GoError × Names
added t (domain a) = (none, a.object_meta.name ∷ t)
added t _ = (some not_found, t)

abbrev in_group : Names → GroupVersionResource → Bytes → Bool
in_group t gvr name = if gvr.group == codes "athenz.io" then contains t name else false

abbrev reaction : Names → Action → Handled FakeObject × Names
reaction t (get_action gvr name) =
    if in_group t gvr name then ((true, some other, none), t) else ((true, none, some not_found), t)
reaction t _ = ((false, none, none), t)

abbrev answer_of : Handled FakeObject → Invoked
answer_of (true, object, error) = (object, error)
answer_of (false, object, error) = (none, none)

abbrev invokes : List (Reactor Names FakeObject) → Names → Action → Invoked × Names
invokes [] t action = ((none, none), t)
invokes ((verb, resource, react) ∷ later) t action =
    (answer_of (react t action).0, (react t action).1)

abbrev watch_result : GoError → Handled Bytes → Result Bytes
watch_result e (true, some w, none) = ok w
watch_result e _ = err e

abbrev invokes_watch : List (Reactor Names Bytes) → Names → Action → Result Bytes × Names
invokes_watch [] t action = (err not_found, t)
invokes_watch ((verb, resource, react) ∷ later) t action =
    (watch_result not_found (react t action).0, (react t action).1)

abbrev names_testing : Testing
names_testing = record {
  Tracker = Names;
  Watch = Bytes;
  new_object_tracker = [];
  add = added;
  object_reaction = reaction;
  watch = λ t gvr ns. (err not_found, t);
  invokes = invokes;
  invokes_watch = invokes_watch;
  matches = λ options a. true;
}

names_testing-IsTesting : IsTesting names_testing (λ action. not_found)
names_testing-IsTesting = record {
  invokes-handled = λ react t u action object error reacts. rw reacts refl;
  invokes_watch-handled = λ react t u action w reacts. rw reacts refl;
  invokes_watch-unhandled = λ react t u action dropped e reacts. rw reacts refl;
}

not_in_group :
    (t : Names) (gvr : GroupVersionResource) (name : Bytes)
    → gvr.group ≢ scheme_group_version.group
    → in_group t gvr name ≡ false
not_in_group t gvr name apart =
    elim (bytes_discrete gvr.group (codes "athenz.io"))
      as (λ d.
        (if elim d [ yes _ ↦ true | no _ ↦ false ] then contains t name else false) ≡ false) [
          | yes e ↦ absurd (apart e)
          | no n ↦ refl
        ]

names_testing-IsTracker : IsTracker names_testing in_group
names_testing-IsTracker = record {
  holds-new = λ gvr name.
      (elim (bytes_discrete gvr.group (codes "athenz.io"))
        as (λ d. (if elim d [ yes _ ↦ true | no _ ↦ false ] then false else false) ≡ false) [
          | yes _ ↦ refl
          | no _ ↦ refl
        ]);
  holds-add = λ t u a gvr name adds apart.
      not_in_group u gvr name apart ∙ sym (not_in_group t gvr name apart);
  reaction-missing = λ t gvr name missing. rw missing refl;
}

preloaded-missing_example :
    (new_simple_clientset names_testing (domain stored ∷ [])
      ≡ ret (clientset_over names_testing (codes "a.b" ∷ [])))
    × (fake_get
          (fake_athenz_v1 names_testing (clientset_over names_testing (codes "a.b" ∷ [])))
          (codes "a.b" ∷ [])
          (codes "a.b")
          []
        ≡ (ret (none, some not_found), codes "a.b" ∷ []))
preloaded-missing_example =
    preloaded-missing names_testing (λ action. not_found) in_group names_testing-IsTesting
      names_testing-IsTracker (stored ∷ []) (codes "a.b" ∷ []) (codes "a.b") []
      (one_more (domain stored) [] [] (codes "a.b" ∷ []) (codes "a.b" ∷ []) refl
        (no_more (codes "a.b" ∷ [])))

-- The scheme keeps the kinds of each group that it knows.
abbrev Known : Type 0
Known = Bytes → Bytes → Bool

abbrev known_with : Known → Bytes → List Bytes → Known
known_with s g new = λ group kind. s group kind || (group == g && contains new kind)

abbrev continue : (Known → Option GoError × Known) → Option GoError × Known → Option GoError × Known
continue next (some e, s) = (some e, s)
continue next (none, s) = next s

abbrev builds : List (Known → Option GoError × Known) → Known → Option GoError × Known
builds [] s = (none, s)
builds (f ∷ later) s = continue (builds later) (f s)

abbrev known_machinery : Machinery
known_machinery = record {
  Scheme = Known;
  new_scheme = λ group kind. false;
  add_known_types = λ s gv new. known_with s gv.group new;
  add_to_group_version = λ s gv. s;
  recognizes = λ s gv kind. s gv.group kind;
  add_to_scheme = builds;
}

same : (a : Bytes) → (a == a) ≡ true
same a = elim (bytes_discrete a a) as (λ d. elim d [ yes _ ↦ true | no _ ↦ false ] ≡ true) [
  | yes _ ↦ refl
  | no n ↦ absurd (n refl)
]

contains-In : (new : List Bytes) (kind : Bytes) → In kind new → contains new kind ≡ true
contains-In [] kind i = absurd i
contains-In (k ∷ new) kind (inl e) = rw (e, same kind) refl
contains-In (k ∷ new) kind (inr i) = rw (contains-In new kind i) (or-true (kind == k))

applied-continue :
    (later : List (Known → Option GoError × Known)) (r : Option GoError × Known)
    → continue (builds later) r ≡ applied known_machinery later r
applied-continue later (none, s) = refl
applied-continue later (some e, s) = refl

known_machinery-IsMachinery : IsMachinery known_machinery
known_machinery-IsMachinery = record {
  recognizes-add =
      λ s gv new kind i. rw (same gv.group, contains-In new kind i) (or-true (s gv.group kind));
  recognizes-kept = λ s gv added new kind h. rw h refl;
  recognizes-group = λ s gv added kind h. h;
  add_to_scheme-nil = λ s. refl;
  add_to_scheme-cons = λ f later s. applied-continue later (f s);
}

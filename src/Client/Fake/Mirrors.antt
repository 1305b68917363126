-- ===== src/Client/Fake/Mirrors.antt =====
-- What the fake client records of each operation, beside what the typed client sends.
use k8s_athenz_syncer.Common.{
  ap, arith, length, ℕ, ◌≡◌, refl, ◌≢◌, true, Option, none, some, List, Bytes,
}
use k8s_athenz_syncer.Cluster.{not_found, err, AthenzDomain}
use k8s_athenz_syncer.Client.Requests.{
  ListOptions, Request, Rest, get, post, put, delete, patch, list_options, object, patch_data,
  get_domain, list_domains, watch_domains, create_domain, update_domain, delete_domain,
  delete_collection, patch_domain,
}
use k8s_athenz_syncer.Client.Sets.{scheme_group_version}
use k8s_athenz_syncer.Client.Fake.{
  athenzdomains_resource, Action, get_action, list_action, watch_action, create_action,
  update_action, delete_action, delete_collection_action, patch_action, Fake, fake_get, fake_list,
  fake_watch, fake_create, fake_update, fake_delete, fake_delete_collection, fake_patch,
}

-- An operation of AthenzDomainInterface, with its arguments.
pub data Operation : Type 0 where
  gets : Bytes → Bytes → Operation
  lists : ListOptions → Operation
  watches : ListOptions → Operation
  creates : AthenzDomain → Bytes → Operation
  updates : AthenzDomain → Bytes → Operation
  deletes_one : Bytes → Bytes → Operation
  deletes_all : Bytes → ListOptions → Operation
  patches : Bytes → Bytes → Bytes → Bytes → List Bytes → Operation

-- A REST client and a tracker that keep the last request or action.
abbrev recorder : Rest
recorder = record {
  State = Option Request;
  Watch = Unit;
  do_object = λ s request. (err not_found, some request);
  do_list = λ s request. (err not_found, some request);
  do_error = λ s request. (none, some request);
  do_watch = λ s request. (err not_found, some request);
}

abbrev tracker : Fake
tracker = record {
  State = Option Action;
  Watch = Unit;
  invokes = λ s action. ((none, none), some action);
  invokes_watch = λ s action. (err not_found, some action);
  matches = λ options a. true;
}

unfoldable pub sent : Operation → Option Request
sent (gets name options) = (get_domain recorder none name options).1
sent (lists options) = (list_domains recorder none options).1
sent (watches options) = (watch_domains recorder none options).1
sent (creates a options) = (create_domain recorder none a options).1
sent (updates a options) = (update_domain recorder none a options).1
sent (deletes_one name options) = (delete_domain recorder none name options).1
sent (deletes_all options list_opts) = (delete_collection recorder none options list_opts).1
sent (patches name kind data_of options subresources) =
    (patch_domain recorder none name kind data_of options subresources).1

unfoldable pub recorded : Operation → Option Action
recorded (gets name options) = (fake_get tracker none name options).1
recorded (lists options) = (fake_list tracker none options).1
recorded (watches options) = (fake_watch tracker none options).1
recorded (creates a options) = (fake_create tracker none a options).1
recorded (updates a options) = (fake_update tracker none a options).1
recorded (deletes_one name options) = (fake_delete tracker none name options).1
recorded (deletes_all options list_opts) = (fake_delete_collection tracker none options list_opts).1
recorded (patches name kind data_of options subresources) =
    (fake_patch tracker none name kind data_of options subresources).1

-- Whether an action is what a request asks for: the same verb, and the name, the list options, the
-- object or the patch with its subresources. The flag of a watch is set in the request only.
abbrev pub Mirrors : Option Request → Option Action → Type 0
Mirrors (some r) (some (get_action g name)) =
    (r.verb ≡ get) × (r.name ≡ some name) × (r.resource ≡ g.resource)
Mirrors (some r) (some (list_action g options)) =
    (r.verb ≡ get)
    × (r.name ≡ none)
    × (r.params ≡ some (list_options options))
    × (r.resource ≡ g.resource)
Mirrors (some r) (some (watch_action g options)) =
    (r.verb ≡ get)
    × (r.name ≡ none)
    × (r.params ≡ some (list_options (record options { watch = true })))
    × (r.resource ≡ g.resource)
Mirrors (some r) (some (create_action g a)) =
    (r.verb ≡ post) × (r.body ≡ some (object a)) × (r.resource ≡ g.resource)
Mirrors (some r) (some (update_action g a)) =
    (r.verb ≡ put)
    × (r.name ≡ some a.object_meta.name)
    × (r.body ≡ some (object a))
    × (r.resource ≡ g.resource)
Mirrors (some r) (some (delete_action g name)) =
    (r.verb ≡ delete) × (r.name ≡ some name) × (r.resource ≡ g.resource)
Mirrors (some r) (some (delete_collection_action g options)) =
    (r.verb ≡ delete)
    × (r.name ≡ none)
    × (r.params ≡ some (list_options options))
    × (r.resource ≡ g.resource)
Mirrors (some r) (some (patch_action g name kind data_of subresources)) =
    (r.verb ≡ patch kind)
    × (r.name ≡ some name)
    × (r.subresources ≡ subresources)
    × (r.body ≡ some (patch_data data_of))
    × (r.resource ≡ g.resource)
Mirrors _ _ = ⊥

lengths_apart : ¬ Path ℕ 6 9
lengths_apart e = omega (arith, e)

pub groups_apart : athenzdomains_resource.group ≢ scheme_group_version.group
groups_apart e = lengths_apart (ap length e)

-- The fake client records for every operation the action that the typed client's request asks for,
-- on the resource of the same name; but in the group athenz, where the scheme has athenz.io.
recorded-Mirrors :
    (op : Operation)
    → Mirrors (sent op) (recorded op) × (athenzdomains_resource.group ≢ scheme_group_version.group)
unfolding sent recorded get_domain list_domains watch_domains create_domain update_domain
    delete_domain delete_collection patch_domain fake_get fake_list fake_watch fake_create
    fake_update fake_delete fake_delete_collection fake_patch
recorded-Mirrors (gets name options) = ((refl, refl, refl), groups_apart)
recorded-Mirrors (lists options) = ((refl, refl, refl, refl), groups_apart)
recorded-Mirrors (watches options) = ((refl, refl, refl, refl), groups_apart)
recorded-Mirrors (creates a options) = ((refl, refl, refl), groups_apart)
recorded-Mirrors (updates a options) = ((refl, refl, refl, refl), groups_apart)
recorded-Mirrors (deletes_one name options) = ((refl, refl, refl), groups_apart)
recorded-Mirrors (deletes_all options list_opts) = ((refl, refl, refl, refl), groups_apart)
recorded-Mirrors (patches name kind data_of options subresources) =
    ((refl, refl, refl, refl, refl), groups_apart)

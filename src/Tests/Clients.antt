-- ===== src/Tests/Clients.antt =====
-- The clients and informers at concrete inputs.
use k8s_athenz_syncer.Common.{
  ℕ, ◌≡◌, refl, true, none, some, List, [], ◌∷◌, Bytes, codes, bytes_discrete, ℕ_discrete,
}
use k8s_athenz_syncer.GoMap.{lookup, insert}
use k8s_athenz_syncer.Cluster.{not_found, Result, ok, err, AthenzDomain}
use k8s_athenz_syncer.ApiServer.Memory.{Memory, memory}
use k8s_athenz_syncer.ApiServer.Replay.{server_over}
use k8s_athenz_syncer.Client.Requests.{Rest, Verb, post, put, Body, object}
use k8s_athenz_syncer.Client.Requests.Served.{Serves, client_server, client_server-server_over}
use k8s_athenz_syncer.Client.Informers.{
  Parts, SharedInformerFactory, new_shared_informer_factory,
  new_shared_informer_factory_with_options, informer_for, start_informers, start_all,
}
use k8s_athenz_syncer.Client.Informers.Started.{Operation, requests, starts, runs_of}
use k8s_athenz_syncer.Controller.Wiring.{KeyFuncs}
use k8s_athenz_syncer.Tests.Samples.{server, stored}

-- A REST client in front of the store in memory.
abbrev on_object : Memory → Verb → Body → Result AthenzDomain × Memory
on_object s post (object a) = memory.create s a
on_object s put (object a) = memory.update s a
on_object s _ _ = (err not_found, s)

abbrev memory_rest : Rest
memory_rest = record {
  State = Memory;
  Watch = Unit;
  do_object = λ s request. elim request.body [
    | some body ↦ on_object s request.verb body
    | none ↦ (err not_found, s)
  ];
  do_list = λ s request. (err not_found, s);
  do_error = λ s request. elim request.name [
    | some name ↦ memory.delete s name
    | none ↦ (some not_found, s)
  ];
  do_watch = λ s request. (err not_found, s);
}

memory_rest-Serves : Serves memory memory_rest
memory_rest-Serves = record {
  to_rest = λ s. s;
  do_post = λ s a params. refl;
  do_put = λ s a params. refl;
  do_delete = λ s name options. refl;
}

abbrev first : Memory
first = record { resources = (codes "a.b", stored) ∷ []; version = 8 }

client_server-server_over_example :
    client_server memory_rest (memory_rest-Serves.to_rest first) server
    ≡ server_over memory first server
client_server-server_over_example =
    client_server-server_over memory memory_rest memory_rest-Serves first server

-- Informers are numbers.
abbrev numbered : Parts
numbered = record { Client = ℕ; Informer = ℕ; Tweak = Unit }

abbrev factory : SharedInformerFactory numbered
factory = new_shared_informer_factory numbered 7 60

abbrev use_twice : List (Operation numbered)
use_twice =
    requests (codes "A") (λ client resync. client)
    ∷ starts
    ∷ requests (codes "B") (λ client resync. resync)
    ∷ requests (codes "A") (λ client resync. resync)
    ∷ starts
    ∷ starts
    ∷ []

both_run : runs_of use_twice factory ≡ codes "A" ∷ codes "B" ∷ []
unfolding runs_of new_shared_informer_factory new_shared_informer_factory_with_options informer_for
    start_informers start_all lookup insert bytes_discrete ℕ_discrete
both_run = refl

abbrev requested : SharedInformerFactory numbered
requested = record {
  client = 7;
  namespace = [];
  tweak_list_options = none;
  default_resync = 60;
  custom_resync = [];
  informers = (codes "A", 1) ∷ (codes "B", 2) ∷ [];
  started_informers = (codes "A", true) ∷ [];
}

-- Objects that are their own keys.
abbrev own_keys : KeyFuncs Bytes
own_keys = record { meta_namespace_key = λ o. ok o; deletion_handling_key = λ o. ok o }

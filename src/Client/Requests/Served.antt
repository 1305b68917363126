-- ===== src/Client/Requests/Served.antt =====
-- The typed client over a REST client that serves the store of the API server.
use k8s_athenz_syncer.Common.{ap, ◌≡◌, refl, none, some, codes, List, [], ◌∷◌, Bytes}
use k8s_athenz_syncer.Cluster.{AthenzDomain, Server, Call, create_cr, update_cr, delete_cr}
use k8s_athenz_syncer.ApiServer.{ApiServer}
use k8s_athenz_syncer.ApiServer.Replay.{apply, replay, server_over}
use k8s_athenz_syncer.Client.Requests.{
  Rest, post, put, delete, Params, create_options, update_options, object, delete_options,
  create_domain, update_domain, delete_domain,
}

-- The REST client answers for a store, as the API of a cluster-wide resource documents: a POST to the
-- path athenzdomains creates, a PUT to it under the object's name updates, and a DELETE under a name
-- deletes.
pub record Serves (api : ApiServer) (rest : Rest) : Type 0 where
  pub to_rest : api.State → rest.State
  pub do_post :
      (s : api.State) (a : AthenzDomain) (params : Params)
      → rest.do_object (to_rest s) (record {
        verb = post;
        resource = codes "athenzdomains";
        name = none;
        subresources = [];
        params = some params;
        timeout = none;
        body = some (object a);
      })
        ≡ ((api.create s a).0, to_rest (api.create s a).1)
  pub do_put :
      (s : api.State) (a : AthenzDomain) (params : Params)
      → rest.do_object (to_rest s) (record {
        verb = put;
        resource = codes "athenzdomains";
        name = some a.object_meta.name;
        subresources = [];
        params = some params;
        timeout = none;
        body = some (object a);
      })
        ≡ ((api.update s a).0, to_rest (api.update s a).1)
  pub do_delete :
      (s : api.State) (name options : Bytes)
      → rest.do_error (to_rest s) (record {
        verb = delete;
        resource = codes "athenzdomains";
        name = some name;
        subresources = [];
        params = none;
        timeout = none;
        body = some (delete_options options);
      })
        ≡ ((api.delete s name).0, to_rest (api.delete s name).1)

module _ (rest : Rest) where
  -- The state after the calls of CRUtil, which gives empty options.
  abbrev pub client_apply : rest.State → Call → rest.State
  client_apply s (create_cr a) = (create_domain rest s a []).1
  client_apply s (update_cr a) = (update_domain rest s a []).1
  client_apply s (delete_cr name) = (delete_domain rest s name []).1
  client_apply s _ = s

  abbrev pub client_replay : rest.State → List Call → rest.State
  client_replay s [] = s
  client_replay s (call ∷ calls) = client_replay (client_apply s call) calls

  -- What CRUtil is answered through the typed client.
  abbrev pub client_server : rest.State → Server → Server
  client_server s base = record base {
    on_create = λ calls a. (create_domain rest (client_replay s calls) a []).0;
    on_update = λ calls a. (update_domain rest (client_replay s calls) a []).0;
    on_delete = λ calls name. (delete_domain rest (client_replay s calls) name []).0;
  }

module _ (api : ApiServer) (rest : Rest) (serves : Serves api rest) where
  client_apply-apply :
      (s : api.State) (call : Call)
      → client_apply rest (serves.to_rest s) call ≡ serves.to_rest (apply api s call)
  unfolding create_domain update_domain delete_domain
  client_apply-apply s (create_cr a) = ap (λ r. r.1) (serves.do_post s a (create_options []))
  client_apply-apply s (update_cr a) = ap (λ r. r.1) (serves.do_put s a (update_options []))
  client_apply-apply s (delete_cr name) = ap (λ r. r.1) (serves.do_delete s name [])
  client_apply-apply s _ = refl

  client_replay-replay :
      (s : api.State) (calls : List Call)
      → client_replay rest (serves.to_rest s) calls ≡ serves.to_rest (replay api s calls)
  client_replay-replay s [] = refl
  client_replay-replay s (call ∷ calls) =
      rw (client_apply-apply s call) (client_replay-replay (apply api s call) calls)

  created_same :
      (s : api.State) (calls : List Call) (a : AthenzDomain)
      → (create_domain rest (client_replay rest (serves.to_rest s) calls) a []).0
        ≡ (api.create (replay api s calls) a).0
  unfolding create_domain
  created_same s calls a =
      rw (client_replay-replay s calls)
        (ap (λ r. r.0) (serves.do_post (replay api s calls) a (create_options [])))

  updated_same :
      (s : api.State) (calls : List Call) (a : AthenzDomain)
      → (update_domain rest (client_replay rest (serves.to_rest s) calls) a []).0
        ≡ (api.update (replay api s calls) a).0
  unfolding update_domain
  updated_same s calls a =
      rw (client_replay-replay s calls)
        (ap (λ r. r.0) (serves.do_put (replay api s calls) a (update_options [])))

  deleted_same :
      (s : api.State) (calls : List Call) (name : Bytes)
      → (delete_domain rest (client_replay rest (serves.to_rest s) calls) name []).0
        ≡ (api.delete (replay api s calls) name).0
  unfolding delete_domain
  deleted_same s calls name =
      rw (client_replay-replay s calls)
        (ap (λ r. r.0) (serves.do_delete (replay api s calls) name []))

  -- The requests that the typed client makes for CRUtil's calls are answered as the store answers the
  -- operations, after any calls before, when the REST client serves the store at the path athenzdomains:
  -- a POST creates, a PUT under the object's name updates, and a DELETE under a name deletes.
  pub client_server-server_over :
      (s : api.State) (base : Server)
      → client_server rest (serves.to_rest s) base ≡ server_over api s base
  client_server-server_over s base = λ i. record base {
    on_create = λ calls a. created_same s calls a i;
    on_update = λ calls a. updated_same s calls a i;
    on_delete = λ calls name. deleted_same s calls name i;
  }

-- ===== src/System/Elsewhere.antt =====
-- The calls of the API server that leave the resource of a domain as it is.
use k8s_athenz_syncer.Common.{◌≡◌, refl, ◌∙◌, ◌≢◌, Option, [], ◌∷◌, ◌++◌, Bytes}
use k8s_athenz_syncer.World.{World}
use k8s_athenz_syncer.Cluster.{
  AthenzDomain, Call, create_cr, update_cr, delete_cr, get_config_map, create_config_map,
  update_config_map,
}
use k8s_athenz_syncer.ApiServer.{ApiServer, IsLawful}
use k8s_athenz_syncer.ApiServer.Replay.{apply, replay, replay-append, server_over}
use k8s_athenz_syncer.WorkQueue.{WorkQueue}
use k8s_athenz_syncer.Named.{IsConfigMapCall}
use k8s_athenz_syncer.Stable.{IsStable}
use k8s_athenz_syncer.Controller.Effects.{Touches}
use k8s_athenz_syncer.Util.{Util}
use k8s_athenz_syncer.Cluster.{Caches, ZmsRequest, ZmsAnswer}
use k8s_athenz_syncer.System.{Setting}

-- Calls that are not about the domain's resource.
abbrev pub Elsewhere : Bytes → Call → Type 0
Elsewhere domain (create_cr a) = domain ≢ a.object_meta.name
Elsewhere domain (update_cr a) = domain ≢ a.object_meta.name
Elsewhere domain (delete_cr removed) = domain ≢ removed
Elsewhere domain _ = Unit

pub Elsewhere-config : (domain : Bytes) (c : Call) → IsConfigMapCall c → Elsewhere domain c
Elsewhere-config domain (get_config_map ns n) h = tt
Elsewhere-config domain (create_config_map ns config_map) h = tt
Elsewhere-config domain (update_config_map ns config_map) h = tt
Elsewhere-config domain (create_cr a) h = absurd h
Elsewhere-config domain (update_cr a) h = absurd h
Elsewhere-config domain (delete_cr n) h = absurd h

module _ (u : Util) (caches : Caches) (zms : ZmsRequest → ZmsAnswer) where
  pub Touches-Elsewhere :
      (domain synced : Bytes) (c : Call)
      → domain ≢ synced
      → Touches u caches zms synced c
      → Elsewhere domain c
  Touches-Elsewhere domain synced (create_cr a) apart (named, e, sent) = λ same. apart (same ∙ e)
  Touches-Elsewhere domain synced (update_cr a) apart (named, e, sent) = λ same. apart (same ∙ e)
  Touches-Elsewhere domain synced (delete_cr removed) apart (e, why) = λ same. apart (same ∙ e)
  Touches-Elsewhere domain synced (get_config_map ns n) apart h = absurd h
  Touches-Elsewhere domain synced (create_config_map ns config_map) apart h = absurd h
  Touches-Elsewhere domain synced (update_config_map ns config_map) apart h = absurd h

-- The setting with the API server's store in place of its answers about resources.
abbrev pub over : (api : ApiServer) → api.State → Setting → Setting
over api first s = record s { server = server_over api first s.server }

module _ {q : WorkQueue} (api : ApiServer) (first : api.State) where
  abbrev pub stored : Bytes → World q → Option AthenzDomain
  stored domain w = api.get (replay api first w.calls) domain

module _ {q : WorkQueue} (api : ApiServer) (lawful : IsLawful api) (first : api.State)
    (domain : Bytes) (found : Option AthenzDomain) where
  abbrev pub Holds : World q → Type 0
  Holds w = stored api first domain w ≡ found

  Elsewhere-Holds :
      (w : World q) (c : Call)
      → Elsewhere domain c
      → Holds w
      → api.get (replay api first (w.calls ++ (c ∷ []))) domain ≡ found
  Elsewhere-Holds w c elsewhere holds =
      rw (replay-append api first w.calls c) (kept c elsewhere ∙ holds)
    where
      kept :
          (c : Call)
          → Elsewhere domain c
          → api.get (apply api (replay api first w.calls) c) domain ≡ stored api first domain w
      kept (create_cr a) apart = lawful.get-create (replay api first w.calls) a domain apart
      kept (update_cr a) apart = lawful.get-update (replay api first w.calls) a domain apart
      kept (delete_cr n) apart = lawful.get-delete (replay api first w.calls) n domain apart
      kept (get_config_map ns n) apart = refl
      kept (create_config_map ns config_map) apart = refl
      kept (update_config_map ns config_map) apart = refl

  pub Holds-IsStable : IsStable (Elsewhere domain) Holds
  Holds-IsStable = record {
    enqueued = λ w item holds. holds;
    forgotten = λ w item holds. holds;
    finished = λ w key holds. holds;
    called = Elsewhere-Holds;
    noted = λ w etag holds. holds;
  }

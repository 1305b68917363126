-- ===== src/ApiServer/Replay.antt =====
-- The answers to the program's calls that a store gives: the state is the one that the calls before
-- have left.
use k8s_athenz_syncer.Common.{◌≡◌, refl, List, [], ◌∷◌, ◌++◌}
use k8s_athenz_syncer.Cluster.{Server, Call, create_cr, update_cr, delete_cr}
use k8s_athenz_syncer.ApiServer.{ApiServer}

module _ (api : ApiServer) where
  abbrev pub apply : api.State → Call → api.State
  apply s (create_cr object) = (api.create s object).1
  apply s (update_cr object) = (api.update s object).1
  apply s (delete_cr name) = (api.delete s name).1
  apply s _ = s

  abbrev pub replay : api.State → List Call → api.State
  replay s [] = s
  replay s (call ∷ calls) = replay (apply s call) calls

  pub replay-append :
      (s : api.State) (calls : List Call) (call : Call)
      → replay s (calls ++ (call ∷ [])) ≡ apply (replay s calls) call
  replay-append s [] call = refl
  replay-append s (c ∷ calls) call = replay-append (apply s c) calls call

  -- The config maps are answered by `base`.
  abbrev pub server_over : api.State → Server → Server
  server_over s base = record base {
    on_create = λ calls object. (api.create (replay s calls) object).0;
    on_update = λ calls object. (api.update (replay s calls) object).0;
    on_delete = λ calls name. (api.delete (replay s calls) name).0;
  }

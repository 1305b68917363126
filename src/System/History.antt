-- ===== src/System/History.antt =====
-- Which rounds of the worker a reached world has behind it, and what they explain.
use k8s_athenz_syncer.Common.{sym, ◌≡◌, ◌⊎◌, inl, inr, false, some, List, [], ◌∷◌, Bytes, All, Any}
use k8s_athenz_syncer.WorkQueue.{WorkQueue, name}
use k8s_athenz_syncer.Cluster.{
  Call, create_cr, update_cr, delete_cr, get_config_map, create_config_map, update_config_map,
}
use k8s_athenz_syncer.World.{World}
use k8s_athenz_syncer.Named.{IsNamed, IsConfigMapCall}
use k8s_athenz_syncer.Stable.{AllCalls, AllCalls-IsStable}
use k8s_athenz_syncer.Cron.{validate_domain}
use k8s_athenz_syncer.Cron.Resync.{full_resync_lem}
use k8s_athenz_syncer.Cron.Effects.{request_call-Keeps}
use k8s_athenz_syncer.Cluster.{AthenzDomain}
use k8s_athenz_syncer.Controller.Effects.{Sent, Touches, sync-Keeps}
use k8s_athenz_syncer.Controller.Keeping.{deletes}
use k8s_athenz_syncer.Controller.Sync.{IsMissing, request_for}
use k8s_athenz_syncer.Controller.Worker.{Round}
use k8s_athenz_syncer.Controller.Worker.Effects.{
  process_next_item-Keeps, start-Keeps, ns_informer_handler-Keeps, cr_informer_handler-Keeps,
}
use k8s_athenz_syncer.System.{
  Setting, Step, shift, ns_event, cr_event, work, update, resync, Reach, started, next,
}

module _ (s : Setting) where
  -- A round for the domain in which the domain is not valid, or missing in ZMS.
  abbrev pub Justifies : Bytes → Round → Type 0
  Justifies domain round =
      (round.key ≡ some (name domain))
      × ((validate_domain s.util round.caches domain ≡ false)
          ⊎ IsMissing (round.zms (request_for domain)))

  -- A round for the name of the resource, which is the name of the domain in its spec, in which ZMS
  -- has sent what the resource holds.
  abbrev pub Supplies : AthenzDomain → Round → Type 0
  Supplies a round =
      (round.key ≡ some (name a.object_meta.name))
      × IsNamed a
      × Sent s.util round.zms a.object_meta.name a.spec.signed_domain

  abbrev pub Explained : List Round → Call → Type 0
  Explained rounds (create_cr a) = Any (Supplies a) rounds
  Explained rounds (update_cr a) = Any (Supplies a) rounds
  Explained rounds (delete_cr domain) = Any (Justifies domain) rounds
  Explained rounds _ = Unit

  Explained-config : (rounds : List Round) (c : Call) → IsConfigMapCall c → Explained rounds c
  Explained-config rounds (get_config_map ns n) h = tt
  Explained-config rounds (create_config_map ns config_map) h = tt
  Explained-config rounds (update_config_map ns config_map) h = tt
  Explained-config rounds (create_cr a) h = absurd h
  Explained-config rounds (update_cr a) h = absurd h
  Explained-config rounds (delete_cr n) h = absurd h

  Explained-Touches :
      (round : Round) (rounds : List Round) (domain : Bytes) (c : Call)
      → round.key ≡ some (name domain)
      → Touches s.util round.caches round.zms domain c
      → Explained (round ∷ rounds) c
  Explained-Touches round rounds domain (create_cr a) key (named, same, sent) =
      inl (rw same (key, rw (sym same) named, sent))
  Explained-Touches round rounds domain (update_cr a) key (named, same, sent) =
      inl (rw same (key, rw (sym same) named, sent))
  Explained-Touches round rounds domain (delete_cr n) key (same, why) = inl (rw same (key, why))
  Explained-Touches round rounds domain (get_config_map ns n) key h = absurd h
  Explained-Touches round rounds domain (create_config_map ns config_map) key h = absurd h
  Explained-Touches round rounds domain (update_config_map ns config_map) key h = absurd h

  Explained-more :
      (round : Round) (rounds : List Round) (calls : List Call)
      → All (Explained rounds) calls
      → All (Explained (round ∷ rounds)) calls
  Explained-more round rounds [] h = tt
  Explained-more round rounds (create_cr a ∷ calls) h =
      (inr h.0, Explained-more round rounds calls h.1)
  Explained-more round rounds (update_cr a ∷ calls) h =
      (inr h.0, Explained-more round rounds calls h.1)
  Explained-more round rounds (delete_cr n ∷ calls) h =
      (inr h.0, Explained-more round rounds calls h.1)
  Explained-more round rounds (_ ∷ calls) h = (tt, Explained-more round rounds calls h.1)

  to_deletes :
      (rounds : List Round) (calls : List Call)
      → All (Explained rounds) calls
      → All (λ domain. Any (Justifies domain) rounds) (deletes calls)
  to_deletes rounds [] h = tt
  to_deletes rounds (delete_cr n ∷ calls) h = (h.0, to_deletes rounds calls h.1)
  to_deletes rounds (_ ∷ calls) h = to_deletes rounds calls h.1

module _ {q : WorkQueue} (s : Setting) where
  -- The rounds of the worker so far, the last one first.
  abbrev round_of : {v w : World q} → Step s v w → List Round → List Round
  round_of (work round more w e) rounds = round ∷ rounds
  round_of _ rounds = rounds

  abbrev pub rounds_of : {w : World q} → Reach s w → List Round
  rounds_of (started queue synced caches) = []
  rounds_of (next r step) = round_of step (rounds_of r)

  Step-Explained :
      {v w : World q} (step : Step s v w) (rounds : List Round)
      → All (Explained s rounds) v.calls
      → All (Explained s (round_of step rounds)) w.calls
  Step-Explained (shift queue w) rounds h = h
  Step-Explained (ns_event key w) rounds h =
      ns_informer_handler-Keeps (Explained s rounds) (AllCalls (Explained s rounds))
        (AllCalls-IsStable (Explained s rounds)) s.util key w h
  Step-Explained (cr_event key w) rounds h =
      cr_informer_handler-Keeps (Explained s rounds) (AllCalls (Explained s rounds))
        (AllCalls-IsStable (Explained s rounds)) key w h
  Step-Explained (work round more w e) rounds h =
      process_next_item-Keeps (Explained s (round ∷ rounds))
        (AllCalls (Explained s (round ∷ rounds))) (AllCalls-IsStable (Explained s (round ∷ rounds)))
        s.copy s.util s.server round
        (λ domain key.
          sync-Keeps (Explained s (round ∷ rounds)) (AllCalls (Explained s (round ∷ rounds)))
            (AllCalls-IsStable (Explained s (round ∷ rounds))) s.copy s.util round.caches s.server
            round.zms domain (λ c. Explained-Touches s round rounds domain c key))
        w (Explained-more s round rounds w.calls h)
  Step-Explained (update caches zms result w e) rounds h =
      request_call-Keeps (Explained s rounds) (AllCalls (Explained s rounds))
        (AllCalls-IsStable (Explained s rounds)) (Explained-config s rounds) s.util caches s.server
        zms s.contact_cm w h
  Step-Explained (resync caches w) rounds h = rw (full_resync_lem s.util caches w) h

  pub Reach-Explained : {w : World q} (r : Reach s w) → All (Explained s (rounds_of r)) w.calls
  Reach-Explained (started queue synced caches) =
      start-Keeps (Explained s []) (AllCalls (Explained s [])) (AllCalls-IsStable (Explained s []))
        s.util s.format synced caches _ tt
  Reach-Explained (next r step) = Step-Explained step (rounds_of r) (Reach-Explained r)

  -- However events, worker rounds and cron rounds interleave, and whatever the servers answer: every
  -- resource that the controller has deleted was deleted in a round of the worker for this domain, in
  -- which the domain was not valid or ZMS did not have it.
  pub Reach-deletes :
      {w : World q} (r : Reach s w)
      → All (λ domain. Any (Justifies s domain) (rounds_of r)) (deletes w.calls)
  Reach-deletes {w} r = to_deletes s (rounds_of r) w.calls (Reach-Explained r)

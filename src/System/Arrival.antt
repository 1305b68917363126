-- ===== src/System/Arrival.antt =====
-- What a run of the controller does to the resource of one domain in the API server's store.
use k8s_athenz_syncer.Common.{
  ◌≡◌, refl, sym, ap, ◌∙◌, ◌⊎◌, inl, inr, Option, some, List, [], ◌∷◌, Bytes,
}
use k8s_athenz_syncer.Go.{ret}
use k8s_athenz_syncer.World.{World}
use k8s_athenz_syncer.Cluster.{AthenzDomain, Caches, ZmsRequest, ZmsAnswer}
use k8s_athenz_syncer.ApiServer.{ApiServer, IsLawful}
use k8s_athenz_syncer.ApiServer.Replay.{replay}
use k8s_athenz_syncer.CrUtil.Update.{Copies}
use k8s_athenz_syncer.WorkQueue.{WorkQueue, name}
use k8s_athenz_syncer.WorkQueue.Order.{Handout}
use k8s_athenz_syncer.Controller.Sync.{as_object}
use k8s_athenz_syncer.Controller.Effects.{sync-Keeps}
use k8s_athenz_syncer.Controller.Wanted.{Wants, Agrees, IsWhole, Refuses}
use k8s_athenz_syncer.Controller.Worker.Settles.{Settles, process_next_item-Settles}
use k8s_athenz_syncer.System.{Setting}
use k8s_athenz_syncer.System.Run.{
  Event, ns_changed, cr_changed, turn, update_due, resync_due, act, run, take_turn, taken,
  after_get, run_goes_on, world_of,
}
use k8s_athenz_syncer.System.Paths.{Starts, Syncs, act-Keeps}
use k8s_athenz_syncer.System.Elsewhere.{
  Elsewhere, Elsewhere-config, Touches-Elsewhere, over, stored, Holds, Holds-IsStable,
}
use k8s_athenz_syncer.System.Own.{Own, IsApart, key_cases, of_own, to_own, apart_own}

module _ {q : WorkQueue} (s : Setting) (copies : Copies s.copy) (h : Handout q) (api : ApiServer)
    (lawful : IsLawful api) (first : api.State) (domain : Bytes)
    (wanted : Option AthenzDomain) where
  -- In a turn for the domain, the cache holds what the store holds for it, which has its domain and
  -- policies set, and the domain should have `wanted`.
  abbrev pub InStep : Event → World q → Type 0
  InStep (turn caches zms) w = Own domain (h.get w.queue).0 (
      IsWhole (stored api first domain w)
      × (caches.cr_by_key domain ≡ as_object (stored api first domain w))
      × Wants s.util caches zms domain wanted)
  InStep _ w = Unit

  abbrev pub AllInStep : List Event → World q → Type 0
  AllInStep [] w = Unit
  AllInStep (event ∷ events) w =
      InStep event w × AllInStep events (act (over api first s) h event w).1

  -- In a turn for the domain, the server refuses the write that takes its resource to `wanted`.
  abbrev pub IsRefused : Event → World q → Type 0
  IsRefused (turn caches zms) w =
      Own domain (h.get w.queue).0 (Refuses api (replay api first w.calls) domain wanted)
  IsRefused _ w = Unit

  abbrev pub AllRefused : List Event → World q → Type 0
  AllRefused [] w = Unit
  AllRefused (event ∷ events) w =
      IsRefused event w × AllRefused events (act (over api first s) h event w).1

  -- The store has what the domain should have, or the server refused it in all turns for it.
  abbrev pub Arrives : List Event → World q → World q → Type 0
  Arrives events w after =
      Agrees (stored api first domain after) wanted
      ⊎ ((stored api first domain after ≡ stored api first domain w) × AllRefused events w)

  own_turn :
      (caches : Caches) (zms : ZmsRequest → ZmsAnswer) (w : World q)
      → (h.get w.queue).0 ≡ some (name domain)
      → InStep (turn caches zms) w
      → Settles api first domain wanted w (act (over api first s) h (turn caches zms) w).1
  unfolding act take_turn
  own_turn caches zms w own in_step =
      let (whole, seen, wants) = of_own domain _ _ own in_step in
      rw world_of
        (process_next_item-Settles s.copy copies s.util api lawful first s.server
          (taken (over api first s) h caches zms w) domain (stored api first domain w) wanted
          (after_get (over api first s) h w) own whole seen refl wants).1

  -- An event other than a turn for the domain.
  abbrev IsOther : Event → World q → Type 0
  IsOther (turn caches zms) w = IsApart domain (h.get w.queue).0
  IsOther _ w = Unit

  other_event :
      (event : Event) (w : World q)
      → IsOther event w
      → stored api first domain (act (over api first s) h event w).1 ≡ stored api first domain w
  other_event event w is_other =
      act-Keeps (Elsewhere domain) (Holds api lawful first domain _)
        (Holds-IsStable api lawful first domain _) (over api first s) h (Elsewhere-config domain)
        event w (syncs event w is_other) (starts event w)
    where
      syncs :
          (event : Event) (w : World q)
          → IsOther event w
          → Syncs
              (over api first s)
              h
              (Holds api lawful first domain (stored api first domain w))
              event
              w
      syncs (turn caches zms) w apart = λ other key.
          sync-Keeps (Elsewhere domain) (Holds api lawful first domain _)
            (Holds-IsStable api lawful first domain _) s.copy s.util caches
            (over api first s).server zms other
            (λ c. Touches-Elsewhere s.util caches zms domain other c (apart other key))
      syncs (ns_changed key) w apart = tt
      syncs (cr_changed key) w apart = tt
      syncs (update_due caches zms) w apart = tt
      syncs (resync_due caches) w apart = tt

      starts :
          (event : Event) (w : World q)
          → Starts
              (over api first s)
              h
              (Holds api lawful first domain (stored api first domain w))
              event
              w
      starts (turn caches zms) w = refl
      starts (ns_changed key) w = refl
      starts (cr_changed key) w = refl
      starts (update_due caches zms) w = refl
      starts (resync_due caches) w = refl

  other-IsRefused : (event : Event) (w : World q) → IsOther event w → IsRefused event w
  other-IsRefused (turn caches zms) w apart = apart_own domain _ _ apart
  other-IsRefused (ns_changed key) w apart = tt
  other-IsRefused (cr_changed key) w apart = tt
  other-IsRefused (update_due caches zms) w apart = tt
  other-IsRefused (resync_due caches) w apart = tt

  Arrives-other :
      (event : Event) (events : List Event) (w after : World q)
      → IsOther event w
      → Arrives events (act (over api first s) h event w).1 after
      → Arrives (event ∷ events) w after
  Arrives-other event events w after is_other (inl agrees) = inl agrees
  Arrives-other event events w after is_other (inr (kept, refused)) =
      inr (kept ∙ other_event event w is_other, (other-IsRefused event w is_other, refused))

  Arrives-own :
      (caches : Caches) (zms : ZmsRequest → ZmsAnswer) (events : List Event) (w after : World q)
      → Settles api first domain wanted w (act (over api first s) h (turn caches zms) w).1
      → Arrives events (act (over api first s) h (turn caches zms) w).1 after
      → Arrives (turn caches zms ∷ events) w after
  Arrives-own caches zms events w after settles (inl agrees) = inl agrees
  Arrives-own caches zms events w after (inl agrees) (inr (kept, refused)) = inl (rw kept agrees)
  Arrives-own caches zms events w after (inr (same, refuses)) (inr (kept, refused)) =
      inr (kept ∙ same, (to_own domain _ _ refuses, refused))

  Arrives-cons :
      (event : Event) (events : List Event) (w after : World q)
      → InStep event w
      → Arrives events (act (over api first s) h event w).1 after
      → Arrives (event ∷ events) w after
  Arrives-cons (turn caches zms) events w after in_step rest =
      elim (key_cases domain (h.get w.queue).0) [
        | inl own ↦ Arrives-own caches zms events w after (own_turn caches zms w own in_step) rest
        | inr apart ↦ Arrives-other (turn caches zms) events w after apart rest
      ]
  Arrives-cons (ns_changed key) events w after in_step rest =
      Arrives-other (ns_changed key) events w after tt rest
  Arrives-cons (cr_changed key) events w after in_step rest =
      Arrives-other (cr_changed key) events w after tt rest
  Arrives-cons (update_due caches zms) events w after in_step rest =
      Arrives-other (update_due caches zms) events w after tt rest
  Arrives-cons (resync_due caches) events w after in_step rest =
      Arrives-other (resync_due caches) events w after tt rest

  pub run-Arrives :
      (events : List Event) (w : World q)
      → (run (over api first s) h events w).0 ≡ ret tt
      → AllInStep events w
      → Arrives events w (run (over api first s) h events w).1
  run-Arrives [] w e in_step = unfold run in inr (refl, tt)
  run-Arrives (event ∷ events) w e (in_step, more) =
      let (ran, rest) = run_goes_on (over api first s) h event events w e in
      let v : World q = (act (over api first s) h event w).1 in
      rw rest (
        Arrives-cons event events w (run (over api first s) h events v).1 in_step
          (run-Arrives events v (ap (λ r. r.0) (sym rest) ∙ e) more))

-- ===== src/System/Outage.antt =====
-- What an outage of ZMS does to the controller.
use k8s_athenz_syncer.Common.{
  ◌≡◌, ◌≢◌, sym, ap, ◌∙◌, ◌<◌, ℕ, true, inl, inr, Option, none, some, List, [], ◌∷◌, ◌++◌, Bytes,
  All, In, arith,
}
use k8s_athenz_syncer.Go.{ret, panic, Go-cases}
use k8s_athenz_syncer.World.{World}
use k8s_athenz_syncer.Cluster.{
  AthenzDomain, athenz_domain, Caches, ZmsRequest, ZmsAnswer, failed, resource_error,
}
use k8s_athenz_syncer.WorkQueue.{WorkQueue, Key, name}
use k8s_athenz_syncer.WorkQueue.Order.{Handout, IsFair, Waits}
use k8s_athenz_syncer.Cron.{validate_domain}
use k8s_athenz_syncer.Controller.Sync.{request_for, sync_zms_error}
use k8s_athenz_syncer.Controller.Worker.Effects.{process_next_item_panics}
use k8s_athenz_syncer.System.{Setting}
use k8s_athenz_syncer.System.Run.{
  Event, ns_changed, cr_changed, turn, update_due, resync_due, act, run, take_turn, taken,
  after_get, turns, key_list, handed_out, run_goes_on, done_ret,
}
use k8s_athenz_syncer.System.Fair.{run_serves}

module _ (s : Setting) (domain : Bytes) where
  -- The domain is valid and the cache holds a resource for it, and ZMS answers its request with an
  -- error other than 404.
  abbrev pub IsOutage : Event → Type 0
  IsOutage (turn caches zms) =
      (validate_domain s.util caches domain ≡ true)
      × ((old : AthenzDomain) × (caches.cr_by_key domain ≡ some (athenz_domain old)))
      × ((code : ℕ) × (text : Bytes) × (zms (request_for domain)
            ≡ failed (resource_error code text))
          × (code ≢ 404))
  IsOutage _ = Unit

module _ {q : WorkQueue} (s : Setting) (h : Handout q) (domain : Bytes) where
  turn_panics :
      (caches : Caches) (zms : ZmsRequest → ZmsAnswer) (w : World q)
      → (h.get w.queue).0 ≡ some (name domain)
      → IsOutage s domain (turn caches zms)
      → (take_turn s h caches zms w).0 ≡ panic
  unfolding take_turn
  turn_panics caches zms w own (valid, (old, held), (code, text, answer, other)) =
      process_next_item_panics s.copy s.util s.server (taken s h caches zms w) domain
        (after_get s h w) own
        (ap (λ r. r.0)
          (sync_zms_error s.copy s.util caches s.server zms domain code text (some old)
            (after_get s h w) valid answer other held))

  act_panics :
      (caches : Caches) (zms : ZmsRequest → ZmsAnswer) (w : World q)
      → (h.get w.queue).0 ≡ some (name domain)
      → IsOutage s domain (turn caches zms)
      → (act s h (turn caches zms) w).0 ≢ ret tt
  unfolding act
  act_panics caches zms w own outage e =
      let (more, ran) = done_ret (take_turn s h caches zms) w e in
      absurd (ground (arith, ran, turn_panics caches zms w own outage))

  not_first :
      (taken : Option Key) (rest : List Key)
      → taken ≢ some (name domain)
      → In (name domain) (key_list taken ++ rest)
      → In (name domain) rest
  not_first none rest apart i = i
  not_first (some key) rest apart (inl same) = absurd (apart (ap some same))
  not_first (some key) rest apart (inr i) = i

  -- No run that hands out the domain in an outage returns.
  not_handed_out :
      (events : List Event) (w : World q)
      → All (IsOutage s domain) events
      → (run s h events w).0 ≡ ret tt
      → ¬ In (name domain) (handed_out s h events w)
  not_handed_out [] w outage e i = i
  not_handed_out (turn caches zms ∷ events) w (now, outage) e i =
      let (ran, rest) = run_goes_on s h (turn caches zms) events w e in
      not_handed_out events _ outage (ap (λ r. r.0) (sym rest) ∙ e)
        (not_first (h.get w.queue).0 _ (λ own. act_panics caches zms w own now ran) i)
  not_handed_out (ns_changed key ∷ events) w (now, outage) e i =
      let (ran, rest) = run_goes_on s h (ns_changed key) events w e in
      not_handed_out events _ outage (ap (λ r. r.0) (sym rest) ∙ e) i
  not_handed_out (cr_changed key ∷ events) w (now, outage) e i =
      let (ran, rest) = run_goes_on s h (cr_changed key) events w e in
      not_handed_out events _ outage (ap (λ r. r.0) (sym rest) ∙ e) i
  not_handed_out (update_due caches zms ∷ events) w (now, outage) e i =
      let (ran, rest) = run_goes_on s h (update_due caches zms) events w e in
      not_handed_out events _ outage (ap (λ r. r.0) (sym rest) ∙ e) i
  not_handed_out (resync_due caches ∷ events) w (now, outage) e i =
      let (ran, rest) = run_goes_on s h (resync_due caches) events w e in
      not_handed_out events _ outage (ap (λ r. r.0) (sym rest) ∙ e) i

  -- While ZMS answers the requests for a domain with an error other than 404, such as 429, and the
  -- cache holds a resource for the valid domain, the process does not survive: a run that gives the
  -- worker more turns than keys wait before the domain ends in a panic, whatever else happens. The
  -- queue hands out its items in the order in which they were added.
  pub run_outage :
      (fair : IsFair h) (n : ℕ) (events : List Event) (w : World q)
      → Waits h w.queue domain n
      → n < turns events
      → All (IsOutage s domain) events
      → (run s h events w).0 ≡ panic
  run_outage fair n events w waits many outage = elim (Go-cases (run s h events w).0) [
    | inl panics ↦ panics
    | inr (a, returns) ↦ absurd (
        not_handed_out events w outage returns
          (run_serves s h fair domain n events w waits many returns))
  ]

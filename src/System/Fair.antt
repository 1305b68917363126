-- ===== src/System/Fair.antt =====
-- That the worker comes to every domain in the queue, whatever else happens meanwhile.
pub mod Again
use k8s_athenz_syncer.Common.{
  Any-append_right, ℕ, suc, ◌<◌, ◌≡◌, refl, sym, ap, ◌∙◌, inl, inr, Option, none, some, List, [],
  ◌∷◌, ◌++◌, Bytes, In, arith,
}
use k8s_athenz_syncer.Go.{ret}
use k8s_athenz_syncer.World.{World}
use k8s_athenz_syncer.Cluster.{Call, Caches, ZmsRequest, ZmsAnswer}
use k8s_athenz_syncer.WorkQueue.{WorkQueue, Key, name}
use k8s_athenz_syncer.WorkQueue.Order.{Handout, IsFair, Waits, Approaches}
use k8s_athenz_syncer.Stable.{IsStable}
use k8s_athenz_syncer.Controller.Effects.{sync-Keeps}
use k8s_athenz_syncer.System.{Setting}
use k8s_athenz_syncer.System.Run.{
  Event, ns_changed, cr_changed, turn, update_due, resync_due, act, run, turns, key_list,
  handed_out, run_goes_on,
}
use k8s_athenz_syncer.System.Paths.{Starts, Syncs, act-Keeps}

abbrev AnyCall : Call → Type 0
AnyCall c = Unit

pub In-append : {A : Type 0} (a : A) (xs ys : List A) → In a ys → In a (xs ++ ys)
In-append a xs ys i = Any-append_right (λ x. x ≡ a) xs ys i

first_taken :
    (key : Key) (taken : Option Key) (rest : List Key)
    → taken ≡ some key
    → In key (key_list taken ++ rest)
first_taken key none rest e = absurd (ground (arith, e))
first_taken key (some first) rest e = inl (ground (arith, e))

module _ {q : WorkQueue} (s : Setting) (h : Handout q) (fair : IsFair h) (domain : Bytes) where
  abbrev WaitsIn : ℕ → World q → Type 0
  WaitsIn n w = Waits h w.queue domain n

  WaitsIn-IsStable : (n : ℕ) → IsStable AnyCall (WaitsIn n)
  WaitsIn-IsStable n = record {
    enqueued = λ w item waits. fair.Waits-add w.queue domain item n waits;
    forgotten = λ w item waits. fair.Waits-forget w.queue domain item n waits;
    finished = λ w key waits. fair.Waits-finish w.queue domain key n waits;
    called = λ w c p waits. waits;
    noted = λ w etag waits. waits;
  }

  Syncs-WaitsIn : (n : ℕ) (event : Event) (w : World q) → Syncs s h (WaitsIn n) event w
  Syncs-WaitsIn n (turn caches zms) w = λ other key.
      sync-Keeps AnyCall (WaitsIn n) (WaitsIn-IsStable n) s.copy s.util caches s.server zms other
        (λ c t. tt)
  Syncs-WaitsIn n (ns_changed key) w = tt
  Syncs-WaitsIn n (cr_changed key) w = tt
  Syncs-WaitsIn n (update_due caches zms) w = tt
  Syncs-WaitsIn n (resync_due caches) w = tt

  -- An event keeps the domain waiting where its Get, if it has one, does.
  act-WaitsIn :
      (n : ℕ) (event : Event) (w : World q)
      → Starts s h (WaitsIn n) event w
      → WaitsIn n (act s h event w).1
  act-WaitsIn n event w waits =
      act-Keeps AnyCall (WaitsIn n) (WaitsIn-IsStable n) s h (λ c e. tt) event w
        (Syncs-WaitsIn n event w) waits

  after_turn :
      (n : ℕ) (caches : Caches) (zms : ZmsRequest → ZmsAnswer) (events : List Event) (w : World q)
      (taken : Option Key × q.State)
      → h.get w.queue ≡ taken
      → Approaches h w.queue domain n taken
      → ((m : ℕ)
          → n ≡ suc m
          → WaitsIn m (act s h (turn caches zms) w).1
          → In (name domain) (handed_out s h events (act s h (turn caches zms) w).1))
      → In (name domain) (handed_out s h (turn caches zms ∷ events) w)
  after_turn n caches zms events w (key, t) got (inl own) later =
      first_taken (name domain) _ _ (ap (λ r. r.0) got ∙ own)
  after_turn n caches zms events w (key, t) got (inr (m, same, waits)) later =
      In-append (name domain) _ _
        (later m same (act-WaitsIn m (turn caches zms) w (rw (ap (λ r. r.1) got) waits)))

  -- A domain that waits in the queue behind at most `n` keys is handed out in every run that gives the
  -- worker more than `n` turns and does not panic, whatever events, cron rounds and retries come
  -- between, and whatever the caches, the API server and ZMS answer. The queue hands out its items in
  -- the order in which they were added.
  pub run_serves :
      (n : ℕ) (events : List Event) (w : World q)
      → Waits h w.queue domain n
      → n < turns events
      → (run s h events w).0 ≡ ret tt
      → In (name domain) (handed_out s h events w)
  run_serves n [] w waits many e = absurd (omega (arith, many))
  run_serves n (turn caches zms ∷ events) w waits many e =
      let (ran, rest) = run_goes_on s h (turn caches zms) events w e in
      after_turn n caches zms events w (h.get w.queue) refl
        (fair.get-Approaches w.queue domain n waits)
        (λ m same waits.
          run_serves m events _ waits (omega (arith, many, same)) (ap (λ r. r.0) (sym rest) ∙ e))
  run_serves n (ns_changed key ∷ events) w waits many e =
      let (ran, rest) = run_goes_on s h (ns_changed key) events w e in
      run_serves n events _ (act-WaitsIn n (ns_changed key) w waits) many
        (ap (λ r. r.0) (sym rest) ∙ e)
  run_serves n (cr_changed key ∷ events) w waits many e =
      let (ran, rest) = run_goes_on s h (cr_changed key) events w e in
      run_serves n events _ (act-WaitsIn n (cr_changed key) w waits) many
        (ap (λ r. r.0) (sym rest) ∙ e)
  run_serves n (update_due caches zms ∷ events) w waits many e =
      let (ran, rest) = run_goes_on s h (update_due caches zms) events w e in
      run_serves n events _ (act-WaitsIn n (update_due caches zms) w waits) many
        (ap (λ r. r.0) (sym rest) ∙ e)
  run_serves n (resync_due caches ∷ events) w waits many e =
      let (ran, rest) = run_goes_on s h (resync_due caches) events w e in
      run_serves n events _ (act-WaitsIn n (resync_due caches) w waits) many
        (ap (λ r. r.0) (sym rest) ∙ e)

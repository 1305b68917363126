-- ===== src/System/Run.antt =====
-- The running controller as a program on a list of events, in which the worker takes its keys from
-- the queue. A panic ends the process, and the run with it.
use k8s_athenz_syncer.Common.{
  ap, ◌++◌, arith, ℕ, suc, ◌≡◌, refl, Bool, Option, none, some, List, [], ◌∷◌, Bytes,
}
use k8s_athenz_syncer.Go.{Go, ret, panic}
use k8s_athenz_syncer.WorkQueue.{WorkQueue, Key}
use k8s_athenz_syncer.WorkQueue.Order.{Handout}
use k8s_athenz_syncer.Cluster.{Result, Caches, ZmsRequest, ZmsAnswer}
use k8s_athenz_syncer.World.{World, M, continue, ◌>>=◌, ◌>>◌, done}
use k8s_athenz_syncer.Cron.{request_call, full_resync}
use k8s_athenz_syncer.Controller.Worker.{
  Round, ns_informer_handler, cr_informer_handler, process_next_item,
}
use k8s_athenz_syncer.System.{Setting}

abbrev pub key_list : Option Key → List Key
key_list none = []
key_list (some key) = key ∷ []

-- What the goroutines of the controller wake up for, with what they meet then: an event of a
-- namespace or of a resource, a turn of the worker, an attempt of the update cron and a round of the
-- resync cron.
pub data Event : Type 0 where
  ns_changed : Result Bytes → Event
  cr_changed : Result Bytes → Event
  turn : Caches → (ZmsRequest → ZmsAnswer) → Event
  update_due : Caches → (ZmsRequest → ZmsAnswer) → Event
  resync_due : Caches → Event

module _ {q : WorkQueue} (s : Setting) (h : Handout q) where
  -- The key that Get returns, and the round of the worker for it.
  abbrev pub taken : Caches → (ZmsRequest → ZmsAnswer) → World q → Round
  taken caches zms w = record { caches = caches; zms = zms; key = (h.get w.queue).0 }

  abbrev pub after_get : World q → World q
  after_get w = record w { queue = (h.get w.queue).1 }

  unfoldable pub take_turn : Caches → (ZmsRequest → ZmsAnswer) → M q Bool
  take_turn caches zms w =
      process_next_item s.copy s.util s.server (taken caches zms w) (after_get w)

  -- A turn for a queue that is shut down ends runWorker, and wait.Until calls it again: so the next
  -- turn is one whatever this one returned.
  unfoldable pub act : Event → M q (Unit {0})
  act (ns_changed key) = do logged ← ns_informer_handler s.util key; done tt
  act (cr_changed key) = do logged ← cr_informer_handler key; done tt
  act (turn caches zms) = do more ← take_turn caches zms; done tt
  act (update_due caches zms) = do
    result ← request_call s.util caches s.server zms s.contact_cm
    done tt
  act (resync_due caches) = full_resync s.util caches

  unfoldable pub run : List Event → M q (Unit {0})
  run [] = done tt
  run (event ∷ events) = let rest = run events in do act event; rest

  -- The keys that the worker is handed in a run.
  abbrev taken_of : Event → World q → List Key
  taken_of (turn caches zms) w = key_list (h.get w.queue).0
  taken_of _ w = []

  abbrev pub handed_out : List Event → World q → List Key
  handed_out [] w = []
  handed_out (event ∷ events) w = taken_of event w ++ handed_out events (act event w).1

-- How many turns the worker has.
abbrev pub turns : List Event → ℕ
turns [] = 0
turns (turn caches zms ∷ events) = suc (turns events)
turns (_ ∷ events) = turns events

module _ {q : WorkQueue} where
  continue-ret :
      {A : Type 0} (f : A → M q (Unit {0})) (r : Go A × World q)
      → (continue f r).0 ≡ ret tt
      → (a : A) × (r ≡ (ret a, r.1))
  continue-ret f (ret a, w) e = (a, refl)
  continue-ret f (panic, w) e = absurd (ground (arith, e))

  pub done_ret :
      {A : Type 0} (m : M q A) (w : World q)
      → ((do a ← m; done tt) w).0 ≡ ret tt
      → (a : A) × ((m w).0 ≡ ret a)
  done_ret m w e = let (a, ran) = continue-ret (λ a. done tt) (m w) e in (a, ap (λ r. r.0) ran)

  continue_goes_on :
      (next : M q (Unit {0})) (r : Go (Unit {0}) × World q)
      → r.0 ≡ ret tt
      → (next r.1).0 ≡ ret tt
      → (continue (λ _. next) r).0 ≡ ret tt
  continue_goes_on next (ret _, w) ran rest = rest
  continue_goes_on next (panic, w) ran rest = absurd (ground (arith, ran))

  pub then_done :
      {A : Type 0} (r : Go A × World q) {a : A}
      → r.0 ≡ ret a
      → (continue (λ a. done tt) r).0 ≡ ret tt
  then_done (ret b, w) e = refl
  then_done (panic, w) e = absurd (ground (arith, e))

  pub world_of : {A : Type 0} (r : Go A × World q) → (continue (λ a. done tt) r).1 ≡ r.1
  world_of (ret a, w) = refl
  world_of (panic, w) = refl

module _ {q : WorkQueue} (s : Setting) (h : Handout q) where
  -- A run that returns has gone through its first event and returns from there on.
  pub run_goes_on :
      (event : Event) (events : List Event) (w : World q)
      → (run s h (event ∷ events) w).0 ≡ ret tt
      → ((act s h event w).0 ≡ ret tt)
        × (run s h (event ∷ events) w ≡ run s h events (act s h event w).1)
  unfolding run
  run_goes_on event events w e =
      let (a, ran) = continue-ret (λ _. run s h events) (act s h event w) e in
      (ap (λ r. r.0) ran, ap (continue (λ _. run s h events)) ran)

  pub goes_on_run :
      (event : Event) (events : List Event) (w : World q)
      → (act s h event w).0 ≡ ret tt
      → (run s h events (act s h event w).1).0 ≡ ret tt
      → (run s h (event ∷ events) w).0 ≡ ret tt
  unfolding run
  goes_on_run event events w ran rest = continue_goes_on (run s h events) (act s h event w) ran rest

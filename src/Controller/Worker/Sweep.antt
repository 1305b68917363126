-- ===== src/Controller/Worker/Sweep.antt =====
-- What a run of the worker over several domains does to the API server's store.
use mathlib.Core.Path.{subst}
use k8s_athenz_syncer.Common.{
  arith, ◌≡◌, refl, sym, ◌∙◌, ◌≢◌, ◌⊎◌, inl, inr, Bool, true, false, Option, some, List, [], ◌∷◌,
  Bytes, All, In, Distinct, map, if◌then◌else◌,
}
use k8s_athenz_syncer.Go.{Go, ret, panic}
use k8s_athenz_syncer.Util.{Util}
use k8s_athenz_syncer.WorkQueue.{WorkQueue, name}
use k8s_athenz_syncer.Cluster.{GoError, AthenzDomain, AthenzDomainSpec, Server}
use k8s_athenz_syncer.World.{World, M, continue, done}
use k8s_athenz_syncer.ApiServer.{ApiServer, IsLawful}
use k8s_athenz_syncer.ApiServer.Replay.{replay, server_over}
use k8s_athenz_syncer.CrUtil.Update.{Copies}
use k8s_athenz_syncer.Controller.{sync}
use k8s_athenz_syncer.Controller.Sync.{as_object}
use k8s_athenz_syncer.Controller.Wanted.{Wants, Agrees, IsWhole, Refuses}
use k8s_athenz_syncer.Controller.Settled.{sync-others}
use k8s_athenz_syncer.Controller.Worker.{
  Round, process_next_item, process_key, after_sync, finish, run_worker,
}
use k8s_athenz_syncer.Controller.Worker.Retry.{calls-requeue}
use k8s_athenz_syncer.Controller.Worker.Settles.{Settles, process_next_item-Settles}

-- A round for a domain, with the cached resource and the one that the domain should have.
pub record Job : Type 0 where
  pub round : Round
  pub domain : Bytes
  pub cached : Option AthenzDomain
  pub wanted : Option AthenzDomain

abbrev pub rounds_of : List Job → List Round
rounds_of jobs = map (λ (job : Job). job.round) jobs

abbrev pub domains_of : List Job → List Bytes
domains_of jobs = map (λ (job : Job). job.domain) jobs

continue-true :
    {q : WorkQueue} (next stop : M q (Unit {0})) (r : Go Bool × World q)
    → r.0 ≡ ret true
    → continue (λ more. if more then next else stop) r ≡ next r.1
continue-true next stop (ret true, w) e = refl
continue-true next stop (ret false, w) e = absurd (ground (arith, e))
continue-true next stop (panic, w) e = absurd (ground (arith, e))

module _ (u : Util) (api : ApiServer) where
  -- The round meets a cache that holds what the store holds for the domain.
  abbrev pub Ready : api.State → Job → Type 0
  Ready s job =
      (job.round.key ≡ some (name job.domain))
      × IsWhole job.cached
      × (job.round.caches.cr_by_key job.domain ≡ as_object job.cached)
      × (api.get s job.domain ≡ job.cached)
      × Wants u job.round.caches job.round.zms job.domain job.wanted

  -- The store has what the domain should have, or what it had, where the server refused the
  -- write that was due.
  abbrev pub Final : api.State → Job → Type 0
  Final t job =
      Agrees (api.get t job.domain) job.wanted
      ⊎ ((api.get t job.domain ≡ job.cached)
          × ((s : api.State) × Refuses api s job.domain job.wanted))

  -- Changes elsewhere keep the other jobs ready.
  Ready-elsewhere :
      (s t : api.State) (domain : Bytes) (jobs : List Job)
      → ((other : Bytes) → other ≢ domain → api.get t other ≡ api.get s other)
      → ¬ In domain (domains_of jobs)
      → All (Ready s) jobs
      → All (Ready t) jobs
  Ready-elsewhere s t domain [] same apart h = tt
  Ready-elsewhere s t domain (job ∷ jobs) same apart ((key, whole, seen, stored, wants), h) = (
    (key, whole, seen, same job.domain (λ e. apart (inl e)) ∙ stored, wants),
    Ready-elsewhere s t domain jobs same (λ n. apart (inr n)) h,
  )

module _ {q : WorkQueue} (copy : AthenzDomainSpec → Option AthenzDomainSpec) (u : Util)
    (server : Server) where
  after_sync_calls :
      (domain : Bytes) (r : Go (Option GoError) × World q)
      → (finish (name domain) (after_sync domain r)).1.calls ≡ r.1.calls
  unfolding finish after_sync
  after_sync_calls domain (ret e, w) = calls-requeue domain e w
  after_sync_calls domain (panic, w) = refl

  process_next_item_calls :
      (round : Round) (domain : Bytes) (w : World q)
      → round.key ≡ some (name domain)
      → (process_next_item copy u server round w).1.calls
        ≡ (sync copy u round.caches server round.zms domain w).1.calls
  unfolding process_next_item process_key
  process_next_item_calls round domain w key = rw key (after_sync_calls domain _)

  pub run_worker_goes_on :
      (round : Round) (rounds : List Round) (w : World q)
      → (process_next_item copy u server round w).0 ≡ ret true
      → run_worker copy u server (round ∷ rounds) w
        ≡ run_worker copy u server rounds (process_next_item copy u server round w).1
  unfolding run_worker
  run_worker_goes_on round rounds w e =
      continue-true (run_worker copy u server rounds) (done tt)
        (process_next_item copy u server round w) e

module _ {q : WorkQueue} (copy : AthenzDomainSpec → Option AthenzDomainSpec) (copies : Copies copy)
    (u : Util) (api : ApiServer) (lawful : IsLawful api) (first : api.State) (base : Server) where
  pub process_next_item-others :
      (round : Round) (domain other : Bytes) (w : World q)
      → round.key ≡ some (name domain)
      → other ≢ domain
      → let after = (process_next_item copy u (server_over api first base) round w).1 in
        api.get (replay api first after.calls) other ≡ api.get (replay api first w.calls) other
  process_next_item-others round domain other w key apart =
      rw (process_next_item_calls copy u (server_over api first base) round domain w key)
        (sync-others copy u round.caches round.zms api lawful first base domain other w apart)

  -- What a run over jobs leaves: it goes through all of them, each is final, and resources of other
  -- names stay.
  abbrev Sweeps : List Job → World q → Go (Unit {0}) × World q → Type 0
  Sweeps jobs before (r, after) =
      (r ≡ ret tt)
      × All (Final u api (replay api first after.calls)) jobs
      × ((other : Bytes)
          → ¬ In other (domains_of jobs)
          → api.get (replay api first after.calls) other
            ≡ api.get (replay api first before.calls) other)

  Final-settled :
      (job : Job) (before after : World q) (t : api.State)
      → api.get (replay api first before.calls) job.domain ≡ job.cached
      → api.get t job.domain ≡ api.get (replay api first after.calls) job.domain
      → Settles api first job.domain job.wanted before after
      → Final u api t job
  Final-settled job before after t stored same (inl agrees) = inl (rw same agrees)
  Final-settled job before after t stored same (inr (kept, refuses)) =
      inr (same ∙ kept ∙ stored, (_, refuses))

  Sweeps-cons :
      (job : Job) (jobs : List Job) (w v : World q) (r : Go (Unit {0}) × World q)
      → ¬ In job.domain (domains_of jobs)
      → api.get (replay api first w.calls) job.domain ≡ job.cached
      → Settles api first job.domain job.wanted w v
      → ((other : Bytes)
          → other ≢ job.domain
          → api.get (replay api first v.calls) other ≡ api.get (replay api first w.calls) other)
      → Sweeps jobs v r
      → Sweeps (job ∷ jobs) w r
  Sweeps-cons job jobs w v (r, after) apart stored settles same (done_, final, others) = (
    done_,
    (
      Final-settled job w v (replay api first after.calls) stored (others job.domain apart) settles,
      final,
    ),
    λ other absent. others other (λ n. absent (inr n)) ∙ same other (λ e. absent (inl (sym e))),
  )

  Sweeps-nil : (w : World q) → Sweeps [] w (run_worker copy u (server_over api first base) [] w)
  unfolding run_worker
  Sweeps-nil w = (refl, tt, λ other absent. refl)

  run_worker-Sweeps :
      (jobs : List Job) (w : World q)
      → Distinct (domains_of jobs)
      → All (Ready u api (replay api first w.calls)) jobs
      → Sweeps jobs w (run_worker copy u (server_over api first base) (rounds_of jobs) w)
  run_worker-Sweeps [] w distinct ready = Sweeps-nil w
  run_worker-Sweeps (job ∷ jobs) w (apart, distinct) ((key, whole, seen, stored, wants), ready) =
      let v = (process_next_item copy u (server_over api first base) job.round w).1 in
      let (more, settles) =
        process_next_item-Settles copy copies u api lawful first base job.round job.domain
          job.cached job.wanted w key whole seen stored wants in
      let same : (other : Bytes)
          → other ≢ job.domain
          → api.get (replay api first v.calls) other ≡ api.get (replay api first w.calls) other =
        λ other h. process_next_item-others job.round job.domain other w key h in
      subst (Sweeps (job ∷ jobs) w)
        (sym (
          run_worker_goes_on copy u (server_over api first base) job.round (rounds_of jobs) w more))
        (Sweeps-cons job jobs w v
          (run_worker copy u (server_over api first base) (rounds_of jobs) v) apart stored settles
          same
          (run_worker-Sweeps jobs v distinct (
            Ready-elsewhere u api (replay api first w.calls) (replay api first v.calls) job.domain
              jobs same apart ready)))

  -- A run of the worker over rounds for distinct domains, whose caches hold what the store holds for
  -- them, goes through all rounds without a panic. In the end the store has for each of the domains
  -- what it should have, except where the server refused the write due for it and the resource is as
  -- before; and the resource of any other name is as before.
  -- In each round ZMS has the domain, or answers 404, or the domain is invalid, which says what the
  -- domain should have; a stored resource has its domain and policies set; the server's laws are
  -- those of conditional writes, and the copy of a specification is equal to it.
  run_worker-settled :
      (jobs : List Job) (other : Bytes) (w : World q)
      → Distinct (domains_of jobs)
      → All (Ready u api (replay api first w.calls)) jobs
      → ¬ In other (domains_of jobs)
      → let (r, after) = run_worker copy u (server_over api first base) (rounds_of jobs) w in
        (r ≡ ret tt)
        × All (Final u api (replay api first after.calls)) jobs
        × (api.get (replay api first after.calls) other ≡ api.get (replay api first w.calls) other)
  run_worker-settled jobs other w distinct ready absent =
      let (r, final, others) = run_worker-Sweeps jobs w distinct ready in
      (r, final, others other absent)

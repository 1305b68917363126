-- ===== src/Controller/Worker/Persist.antt =====
-- What a run of the worker does to the API server's store where domains come back into the queue:
-- retries after a refused write, and further rounds after a success.
use mathlib.Core.Path.{subst}
use k8s_athenz_syncer.Common.{
  bytes_discrete, ◌≡◌, refl, sym, ◌∙◌, ◌≢◌, ◌⊎◌, inl, inr, Option, List, [], ◌∷◌, Bytes,
}
use k8s_athenz_syncer.Go.{Go, ret}
use k8s_athenz_syncer.Util.{Util}
use k8s_athenz_syncer.WorkQueue.{WorkQueue}
use k8s_athenz_syncer.Cluster.{AthenzDomain, AthenzDomainSpec, Server}
use k8s_athenz_syncer.World.{World}
use k8s_athenz_syncer.ApiServer.{ApiServer, IsLawful}
use k8s_athenz_syncer.ApiServer.Replay.{replay, server_over}
use k8s_athenz_syncer.CrUtil.Update.{Copies}
use k8s_athenz_syncer.Controller.Wanted.{Agrees, Refuses}
use k8s_athenz_syncer.Controller.Worker.{process_next_item, run_worker}
use k8s_athenz_syncer.Controller.Worker.Settles.{Settles, process_next_item-Settles}
use k8s_athenz_syncer.Controller.Worker.Sweep.{
  Job, rounds_of, Ready, process_next_item-others, run_worker_goes_on,
}

module _ {q : WorkQueue} (api : ApiServer) (first : api.State) where
  abbrev pub store : World q → api.State
  store w = replay api first w.calls

module _ {q : WorkQueue} (copy : AthenzDomainSpec → Option AthenzDomainSpec) (u : Util)
    (api : ApiServer) (first : api.State) (base : Server) where
  abbrev pub next : Job → World q → World q
  next job w = (process_next_item copy u (server_over api first base) job.round w).1

module _ {q : WorkQueue} (copy : AthenzDomainSpec → Option AthenzDomainSpec) (u : Util)
    (api : ApiServer) (first : api.State) (base : Server)
    (wants : Bytes → Option AthenzDomain) where
  -- Each job meets caches that hold what the store then holds for its domain, and the domain should
  -- have all along what `wants` says.
  abbrev pub Tracks : List Job → World q → Type 0
  Tracks [] w = Unit
  Tracks (job ∷ jobs) w =
      Ready u api (store api first w) job
      × (job.wanted ≡ wants job.domain)
      × Tracks jobs (next copy u api first base job w)

  -- The server refuses the write that is due in each of the domain's own rounds.
  abbrev pub Refused : Bytes → List Job → World q → Type 0
  Refused domain [] w = Unit
  Refused domain (job ∷ jobs) w =
      ((domain ≢ job.domain) ⊎ Refuses api (store api first w) domain (wants domain))
      × Refused domain jobs (next copy u api first base job w)

  -- The domain has what it should have, or the server refused it in all its rounds.
  abbrev Persists : Bytes → List Job → World q → Go (Unit {0}) × World q → Type 0
  Persists domain jobs w (r, after) =
      (r ≡ ret tt)
      × (Agrees (api.get (store api first after) domain) (wants domain)
          ⊎ ((api.get (store api first after) domain ≡ api.get (store api first w) domain)
              × Refused domain jobs w))

module _ {q : WorkQueue} (copy : AthenzDomainSpec → Option AthenzDomainSpec) (copies : Copies copy)
    (u : Util) (api : ApiServer) (lawful : IsLawful api) (first : api.State) (base : Server)
    (wants : Bytes → Option AthenzDomain) where
  Persists-nil :
      (domain : Bytes) (w : World q)
      → Persists copy u api first base wants domain [] w
          (run_worker copy u (server_over api first base) [] w)
  unfolding run_worker
  Persists-nil domain w = (refl, inr (refl, tt))

  Persists-other :
      (domain : Bytes) (job : Job) (jobs : List Job) (w : World q) (r : Go (Unit {0}) × World q)
      → domain ≢ job.domain
      → api.get (store api first (next copy u api first base job w)) domain
        ≡ api.get (store api first w) domain
      → Persists copy u api first base wants domain jobs (next copy u api first base job w) r
      → Persists copy u api first base wants domain (job ∷ jobs) w r
  Persists-other domain job jobs w r apart same (ends, inl agrees) = (ends, inl agrees)
  Persists-other domain job jobs w r apart same (ends, inr (kept, refused)) =
      (ends, inr (kept ∙ same, (inl apart, refused)))

  Persists-own :
      (job : Job) (jobs : List Job) (w : World q) (r : Go (Unit {0}) × World q)
      → Settles api first job.domain (wants job.domain) w (next copy u api first base job w)
      → Persists copy u api first base wants job.domain jobs (next copy u api first base job w) r
      → Persists copy u api first base wants job.domain (job ∷ jobs) w r
  Persists-own job jobs w r settles (ends, inl agrees) = (ends, inl agrees)
  Persists-own job jobs w r (inl agrees) (ends, inr (kept, refused)) = (ends, inl (rw kept agrees))
  Persists-own job jobs w r (inr (same, refuses)) (ends, inr (kept, refused)) =
      (ends, inr (kept ∙ same, (inr refuses, refused)))

  Persists-cons :
      (domain : Bytes) (job : Job) (jobs : List Job) (w : World q) (r : Go (Unit {0}) × World q)
      → Dec (domain ≡ job.domain)
      → Ready u api (store api first w) job
      → Settles api first job.domain (wants job.domain) w (next copy u api first base job w)
      → Persists copy u api first base wants domain jobs (next copy u api first base job w) r
      → Persists copy u api first base wants domain (job ∷ jobs) w r
  Persists-cons domain job jobs w r (yes same) ready settles rest =
      subst (λ d. Persists copy u api first base wants d (job ∷ jobs) w r) (sym same)
        (Persists-own job jobs w r settles (
          subst
            (λ d. Persists copy u api first base wants d jobs (next copy u api first base job w) r)
            same rest))
  Persists-cons domain job jobs w r (no apart) (key, whole, seen, stored, wanted) settles rest =
      Persists-other domain job jobs w r apart
        (process_next_item-others copy copies u api lawful first base job.round job.domain domain w
          key apart)
        rest

  -- A run of the worker over jobs that may name a domain several times, each with caches that then
  -- hold what the store holds for its domain, goes through all jobs without a panic. In the end the
  -- store has for any domain what the domain should have, unless in each of the domain's rounds the
  -- server refused the write that was due, and then the resource is as before. Due is the create of the
  -- new resource if none is stored, else its update under the stored version, or its delete.
  -- In all rounds of a domain ZMS has the domain with the same content, or the domain is gone from
  -- ZMS or invalid; a stored resource has its domain and policies set; the server's laws are those
  -- of conditional writes, and the copy of a specification is equal to it.
  pub run_worker-persists :
      (domain : Bytes) (jobs : List Job) (w : World q)
      → Tracks copy u api first base wants jobs w
      → let (r, after) = run_worker copy u (server_over api first base) (rounds_of jobs) w in
        (r ≡ ret tt)
        × (Agrees (api.get (store api first after) domain) (wants domain)
            ⊎ ((api.get (store api first after) domain ≡ api.get (store api first w) domain)
                × Refused copy u api first base wants domain jobs w))
  run_worker-persists domain [] w tracks = Persists-nil domain w
  run_worker-persists domain (job ∷ jobs) w ((key, whole, seen, stored, wanted), target, tracks) =
      let (more, settles) =
        process_next_item-Settles copy copies u api lawful first base job.round job.domain
          job.cached job.wanted w key whole seen stored wanted in
      subst (Persists copy u api first base wants domain (job ∷ jobs) w)
        (sym (
          run_worker_goes_on copy u (server_over api first base) job.round (rounds_of jobs) w more))
        (Persists-cons domain job jobs w
          (run_worker copy u (server_over api first base) (rounds_of jobs)
            (next copy u api first base job w))
          (bytes_discrete domain job.domain) (key, whole, seen, stored, wanted)
          (subst (λ d. Settles api first job.domain d w (next copy u api first base job w)) target
            settles)
          (run_worker-persists domain jobs (next copy u api first base job w) tracks))

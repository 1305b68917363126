-- ===== src/Controller/Worker/Retry.antt =====
-- How often the worker tries a domain again.
use Prim.Native.Nat.{◌%◌}
use k8s_athenz_syncer.Common.{
  ◌<◌, ◌∙◌, ℕ, ◌+◌, ◌≤◌, ◌≡◌, refl, true, ◌&&◌, Option, none, some, List, [], ◌∷◌, arith, Bytes,
  bytes_eq, ◌==◌, if◌then◌else◌, is_some, ltb, codes, length,
}
use k8s_athenz_syncer.Go.{ret}
use k8s_athenz_syncer.Util.{Util}
use k8s_athenz_syncer.WorkQueue.{WorkQueue, IsLawful, name}
use k8s_athenz_syncer.Cluster.{
  answered, GoError, resource_error, message, AthenzDomainSpec, Caches, Server, ZmsRequest,
  ZmsAnswer, failed,
}
use k8s_athenz_syncer.World.{World, after_adding}
use k8s_athenz_syncer.Cron.{validate_domain}
use k8s_athenz_syncer.Controller.{worker_queue_retry, sync, zms_get_signed_domains}
use k8s_athenz_syncer.Controller.Sync.{request_for}
use k8s_athenz_syncer.Controller.Worker.{Round, requeue, process_key, process_next_item, run_worker}

-- The count of an item after the worker dealt with the error of its run.
abbrev pub next_count : ℕ → ℕ
next_count n = if ltb n worker_queue_retry then n + 1 else 0

pub calls-requeue :
    {q : WorkQueue} (domain : Bytes) (e : Option GoError) (w : World q)
    → (requeue domain e w).calls ≡ w.calls
unfolding requeue
calls-requeue domain none w = refl
calls-requeue domain (some e) w = ground arith

-- An answer of ZMS that is no answer of its protocol, as when it cannot be reached.
abbrev pub IsUnreachable : ZmsAnswer → Type 0
IsUnreachable (failed (resource_error code text)) = ⊥
IsUnreachable (failed e) = Unit
IsUnreachable _ = ⊥

module _ (q : WorkQueue) (lawful : IsLawful q) where
  num_requeues-requeue :
      (domain : Bytes) (e : GoError) (w : World q) (j : Bytes)
      → q.num_requeues (requeue domain (some e) w).queue j ≡ (
          if j == domain
          then next_count (q.num_requeues w.queue domain)
          else q.num_requeues w.queue j)
  unfolding requeue
  num_requeues-requeue domain e w j =
      ground (
        arith,
        lawful.num_requeues-add w.queue domain j,
        lawful.num_requeues-forget w.queue domain j,
      )

-- Rounds that take one valid domain for which ZMS cannot be reached.
abbrev pub FailOn : Util → Bytes → List Round → Type 0
FailOn u domain [] = Unit
FailOn u domain (round ∷ rounds) =
    (round.key ≡ some (name domain))
    × (validate_domain u round.caches domain ≡ true)
    × IsUnreachable (round.zms (request_for domain))
    × FailOn u domain rounds

module _ {q : WorkQueue} (copy : AthenzDomainSpec → Option AthenzDomainSpec) (u : Util)
    (server : Server) where
  -- For a round that takes a domain whose run returns, with an error or none: the worker goes on and
  -- makes no further call, and of the counts only that of a failed domain changes. It grows by one up
  -- to three, and goes back to none then. A success leaves the count of the domain as the run left it.
  pub process_next_item_counts :
      (round : Round) (domain : Bytes) (result : Option GoError) (w w' : World q) (j : Bytes)
      → IsLawful q
      → round.key ≡ some (name domain)
      → sync copy u round.caches server round.zms domain w ≡ (ret result, w')
      → let (more, after) = process_next_item copy u server round w in
        (more ≡ ret true)
        × (after.calls ≡ w'.calls)
        × (q.num_requeues after.queue j ≡ (
            if j == domain && is_some result
            then next_count (q.num_requeues w'.queue domain)
            else q.num_requeues w'.queue j))
  unfolding process_next_item
  process_next_item_counts round domain none w w' j lawful key ran =
      rw (key, process_key, ran)
        ((refl, refl, ground (arith, lawful.num_requeues-finish w'.queue (name domain) j)))
  process_next_item_counts round domain (some e) w w' j lawful key ran =
      rw (key, process_key, ran)
        ((
          refl,
          calls-requeue domain (some e) w',
          ground (
            arith,
            lawful.num_requeues-finish (requeue domain (some e) w').queue (name domain) j,
            num_requeues-requeue q lawful domain e w' j,
          ),
        ))

  pub sync_unreachable :
      (caches : Caches) (zms : ZmsRequest → ZmsAnswer) (domain : Bytes) (answer : ZmsAnswer)
      (w : World q)
      → validate_domain u caches domain ≡ true
      → zms (request_for domain) ≡ answer
      → IsUnreachable answer
      → sync copy u caches server zms domain w
        ≡ (ret (some (message (codes "Error occurred when converting error types"))), w)
  unfolding sync zms_get_signed_domains
  sync_unreachable caches zms domain (failed (resource_error code text)) w valid e h = absurd h
  sync_unreachable caches zms domain (answered found etag) w valid e h = absurd h
  sync_unreachable caches zms domain (failed _) w valid e h = rw (valid, e)

  -- A round for a valid domain while ZMS cannot be reached adds it again before it is done with it, as
  -- long as it has been requeued less than three times.
  pub process_next_item_retries :
      (round : Round) (domain : Bytes) (w : World q)
      → round.key ≡ some (name domain)
      → validate_domain u round.caches domain ≡ true
      → IsUnreachable (round.zms (request_for domain))
      → q.num_requeues w.queue domain < 3
      → process_next_item copy u server round w ≡ (
        ret true,
        record w { queue = q.finish (q.add_rate_limited w.queue domain) (name domain) },
      )
  unfolding process_next_item requeue
  process_next_item_retries round domain w key valid down few =
      rw (key, process_key, sync_unreachable round.caches round.zms domain _ w valid refl down)
        (ground (arith, few))

  run_worker_step :
      (round : Round) (rounds : List Round) (w : World q)
      → (process_next_item copy u server round w).0 ≡ ret true
      → run_worker copy u server (round ∷ rounds) w
        ≡ run_worker copy u server rounds (process_next_item copy u server round w).1
  unfolding run_worker
  run_worker_step round rounds w more = rw more

  -- While ZMS cannot be reached, a valid domain is tried again three times and then dropped: over any
  -- number of rounds that take it, its count, which is at most three at the start, runs through 0, 1,
  -- 2, 3 and back to 0. No call is made and the worker loop goes on to its end. ZMS cannot be reached
  -- where it fails with an error that is not one of its own answers.
  pub run_worker_unreachable :
      (domain : Bytes) (rounds : List Round) (w : World q)
      → IsLawful q
      → FailOn u domain rounds
      → q.num_requeues w.queue domain ≤ 3
      → let (r, after) = run_worker copy u server rounds w in
        (r ≡ ret tt)
        × (after.calls ≡ w.calls)
        × (q.num_requeues after.queue domain ≡ (q.num_requeues w.queue domain + length rounds) % 4)
  run_worker_unreachable domain [] w lawful h few = unfold run_worker in (refl, refl, omega arith)
  run_worker_unreachable domain (round ∷ rounds) w lawful (key, valid, down, later) few =
      let ran = sync_unreachable round.caches round.zms domain _ w valid refl down in
      let (more, calls, count) =
        process_next_item_counts round domain (some _) w w domain lawful key ran in
      let after : World q = (process_next_item copy u server round w).1 in
      let grown : q.num_requeues after.queue domain ≡ next_count (q.num_requeues w.queue domain) =
        ground (arith, count) in
      let (ends, kept, counted) =
        run_worker_unreachable domain rounds after lawful later (ground (arith, grown)) in
      rw (run_worker_step round rounds w more)
        ((ends, kept ∙ calls, ground (arith, counted, grown)))

  three_adds :
      (w : World q) (domain : Bytes)
      → IsLawful q
      → 3 ≤ q.num_requeues (after_adding w (domain ∷ domain ∷ domain ∷ [])).queue domain
  three_adds w domain lawful =
      let once = q.add_rate_limited w.queue domain in
      let twice = q.add_rate_limited once domain in
      ground (
        arith,
        lawful.num_requeues-add w.queue domain domain,
        lawful.num_requeues-add once domain domain,
        lawful.num_requeues-add twice domain domain,
      )

  -- A valid domain that three events put into the queue is forgotten, and not added again, after its
  -- first run if ZMS cannot be reached in it: the events have used up its retries.
  pub process_next_item_exhausted :
      (round : Round) (domain : Bytes) (w : World q)
      → IsLawful q
      → FailOn u domain (round ∷ [])
      → let before = after_adding w (domain ∷ domain ∷ domain ∷ []) in
        (process_next_item copy u server round before).1
        ≡ record before { queue = q.finish (q.forget before.queue domain) (name domain) }
  unfolding process_next_item requeue
  process_next_item_exhausted round domain w lawful (key, valid, down, _) =
      let before : World q = after_adding w (domain ∷ domain ∷ domain ∷ []) in
      rw (key, process_key, sync_unreachable round.caches round.zms domain _ before valid refl down)
        (ground (arith, three_adds w domain lawful))

-- ===== src/Controller/Worker/Effects.antt =====
-- The worker loop, the handlers and the start keep every property of the world that their single
-- changes keep.
use k8s_athenz_syncer.Common.{
  ap, ◌≡◌, ◌∙◌, refl, ap, ◌∙◌, some, ◌≡◌, ℕ, Bool, true, false, Option, Bytes, Bool-cases,
  Option-cases, arith, inl, inr, ◌∷◌, ltb, none,
}
use k8s_athenz_syncer.Go.{Go, ret, panic}
use k8s_athenz_syncer.Util.{Util, is_namespace_excluded, get_admin_domain, get_system_ns_domains}
use k8s_athenz_syncer.WorkQueue.{WorkQueue, Key, name, other}
use k8s_athenz_syncer.Cluster.{
  Call, GoError, Result, ok, err, AthenzDomainSpec, Caches, Server, ZmsRequest, ZmsAnswer,
}
use k8s_athenz_syncer.World.{World}
use k8s_athenz_syncer.Stable.{IsStable, Keeps, continue-Keeps, after_adding-Keeps}
use k8s_athenz_syncer.CrUtil.{get_latest_timestamp}
use k8s_athenz_syncer.Cron.{set_etag}
use k8s_athenz_syncer.Cron.Resync.{add_admin_system_domains_lem, nonempty}
use k8s_athenz_syncer.Controller.{worker_queue_retry, sync}
use k8s_athenz_syncer.Controller.Worker.{
  Round, ns_informer_handler, cr_informer_handler, after_sync, process_key, process_next_item,
  start, requeue, finish,
}

module _ {q : WorkQueue} (P : Call → Type 0) (I : World q → Type 0) (stable : IsStable P I) where
  pub ns_informer_handler-Keeps :
      (u : Util) (key : Result Bytes) → Keeps I (ns_informer_handler u key)
  unfolding ns_informer_handler
  ns_informer_handler-Keeps u (err e) w h = h
  ns_informer_handler-Keeps u (ok key) w h = elim (Bool-cases (is_namespace_excluded u key)) [
    | inl e ↦ rw e h
    | inr e ↦ rw e (stable.enqueued w _ h)
  ]

  pub cr_informer_handler-Keeps : (key : Result Bytes) → Keeps I (cr_informer_handler key)
  unfolding cr_informer_handler
  cr_informer_handler-Keeps (err e) w h = h
  cr_informer_handler-Keeps (ok key) w h = stable.enqueued w key h

  requeue-Keeps : (domain : Bytes) (e : Option GoError) (w : World q) → I w → I (requeue domain e w)
  unfolding requeue
  requeue-Keeps domain none w h = h
  requeue-Keeps domain (some e) w h =
      elim (Bool-cases (ltb (q.num_requeues w.queue domain) worker_queue_retry)) [
        | inl again ↦ rw again (stable.enqueued w domain h)
        | inr ended ↦ rw ended (stable.forgotten w domain h)
      ]

  after_sync-Keeps :
      (domain : Bytes) (r : Go (Option GoError) × World q) → I r.1 → I (after_sync domain r).1
  unfolding after_sync
  after_sync-Keeps domain (ret e, w) h = requeue-Keeps domain e w h
  after_sync-Keeps domain (panic, w) h = h

module _ {q : WorkQueue} (P : Call → Type 0) (I : World q → Type 0) (stable : IsStable P I)
    (copy : AthenzDomainSpec → Option AthenzDomainSpec) (u : Util) (server : Server) where
  process_key-Keeps :
      (caches : Caches) (zms : ZmsRequest → ZmsAnswer) (key : Key)
      → ((domain : Bytes) → key ≡ name domain → Keeps I (sync copy u caches server zms domain))
      → Keeps I (process_key copy u server caches zms key)
  unfolding process_key
  process_key-Keeps caches zms (name domain) synced w h = stable.finished _ (name domain) (
      after_sync-Keeps P I stable domain (sync copy u caches server zms domain w)
        (synced domain refl w h))
  process_key-Keeps caches zms other synced w h = stable.finished w other h

  -- A round keeps what the run of `sync` for its key keeps.
  pub process_next_item-Keeps :
      (round : Round)
      → ((domain : Bytes)
          → round.key ≡ some (name domain)
          → Keeps I (sync copy u round.caches server round.zms domain))
      → Keeps I (process_next_item copy u server round)
  unfolding process_next_item
  process_next_item-Keeps round synced w h = elim (Option-cases round.key) [
    | inl e ↦ rw (e, process_next_item) h
    | inr (key, e) ↦
        rw (e, process_next_item)
          (process_key-Keeps round.caches round.zms key
            (λ domain same. synced domain (e ∙ ap some same)) w h)
  ]

module _ {q : WorkQueue} (copy : AthenzDomainSpec → Option AthenzDomainSpec) (u : Util)
    (server : Server) where
  -- A round without a domain.
  pub process_next_item_shut :
      (round : Round) (w : World q)
      → round.key ≡ none
      → (process_next_item copy u server round w).0 ≡ ret false
  unfolding process_next_item
  process_next_item_shut round w e = rw e refl

  pub process_next_item_other :
      (round : Round) (w : World q)
      → round.key ≡ some other
      → (process_next_item copy u server round w).0 ≡ ret true
  unfolding process_next_item process_key
  process_next_item_other round w e = rw e refl

  finish_more :
      (domain : Bytes) (r : Go (Option GoError) × World q) (more : Bool)
      → (finish (name domain) (after_sync domain r)).0 ≡ ret more
      → more ≡ true
  unfolding finish after_sync
  finish_more domain (ret e, w) more ran = ground (arith, ran)
  finish_more domain (panic, w) more ran = absurd (ground (arith, ran))

  -- A round that returns asks for another one, unless the queue is shut down.
  pub process_next_item_more :
      (round : Round) (key : Key) (more : Bool) (w : World q)
      → round.key ≡ some key
      → (process_next_item copy u server round w).0 ≡ ret more
      → more ≡ true
  unfolding process_next_item process_key
  process_next_item_more round (name domain) more w e ran =
      finish_more domain (sync copy u round.caches server round.zms domain w) more (rw e at ran)
  process_next_item_more round other more w e ran = ground (arith, rw e at ran)

  after_sync_panics :
      (domain : Bytes) (r : Go (Option GoError) × World q)
      → r.0 ≡ panic
      → (finish (name domain) (after_sync domain r)).0 ≡ panic
  unfolding finish after_sync
  after_sync_panics domain (panic, w) e = refl
  after_sync_panics domain (ret a, w) e = absurd (ground (arith, e))

  -- A panic of `sync` is not caught.
  pub process_next_item_panics :
      (round : Round) (domain : Bytes) (w : World q)
      → round.key ≡ some (name domain)
      → (sync copy u round.caches server round.zms domain w).0 ≡ panic
      → (process_next_item copy u server round w).0 ≡ panic
  unfolding process_next_item process_key
  process_next_item_panics round domain w key panics =
      rw key (after_sync_panics domain (sync copy u round.caches server round.zms domain w) panics)

module _ {q : WorkQueue} (P : Call → Type 0) (I : World q → Type 0) (stable : IsStable P I)
    (u : Util) (format : ℕ → Bytes) where
  pub start-Keeps : (synced : Bool) (caches : Caches) → Keeps I (start u format synced caches)
  unfolding start set_etag
  start-Keeps false caches w h = h
  start-Keeps true caches w h =
      continue-Keeps I _ (get_latest_timestamp format caches, w)
        (λ t v k. rw (add_admin_system_domains_lem u caches) (
          after_adding-Keeps P I stable (nonempty (get_admin_domain u ∷ get_system_ns_domains u)) _
            (stable.noted v t k)))
        h

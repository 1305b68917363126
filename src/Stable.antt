-- ===== src/Stable.antt =====
-- Properties of the world that operations keep: what an operation does to a world is a sequence of
-- single changes, and a property that these keep is kept by the operation.
use k8s_athenz_syncer.Common.{All, List, [], ◌∷◌, ◌++◌, Bytes}
use k8s_athenz_syncer.Go.{Go, ret, panic}
use k8s_athenz_syncer.WorkQueue.{WorkQueue, Key}
use k8s_athenz_syncer.Cluster.{Call}
use k8s_athenz_syncer.World.{World, M, continue, after_adding}

-- The single changes; the calls are those with the property `P`.
pub record IsStable {q : WorkQueue} (P : Call → Type 0) (I : World q → Type 0) : Type 0 where
  pub enqueued :
      (w : World q) (item : Bytes) → I w → I (record w { queue = q.add_rate_limited w.queue item })
  pub forgotten :
      (w : World q) (item : Bytes) → I w → I (record w { queue = q.forget w.queue item })
  pub finished : (w : World q) (key : Key) → I w → I (record w { queue = q.finish w.queue key })
  pub called : (w : World q) (c : Call) → P c → I w → I (record w { calls = w.calls ++ (c ∷ []) })
  pub noted : (w : World q) (etag : Bytes) → I w → I (record w { etag = etag })

-- An operation that keeps a property.
abbrev pub Keeps : {q : WorkQueue} → (World q → Type 0) → {A : Type 0} → M q A → Type 0
Keeps {q} I m = (w : World q) → I w → I (m w).1

module _ {q : WorkQueue} (I : World q → Type 0) where
  pub continue-Keeps :
      {A B : Type 0} (f : A → M q B) (r : Go A × World q)
      → ((a : A) → Keeps I (f a))
      → I r.1
      → I (continue f r).1
  continue-Keeps f (ret a, w) h k = h a w k
  continue-Keeps f (panic, w) h k = k

module _ {q : WorkQueue} (P : Call → Type 0) (I : World q → Type 0) (stable : IsStable P I) where
  pub after_adding-Keeps : (items : List Bytes) (w : World q) → I w → I (after_adding w items)
  after_adding-Keeps [] w h = h
  after_adding-Keeps (x ∷ items) w h =
      after_adding-Keeps items (record w { queue = q.add_rate_limited w.queue x })
        (stable.enqueued w x h)

module _ (P : Call → Type 0) where
  abbrev pub AllCalls : {q : WorkQueue} → World q → Type 0
  AllCalls w = All P w.calls

  pub All-append : (calls : List Call) (c : Call) → All P calls → P c → All P (calls ++ (c ∷ []))
  All-append [] c h k = (k, tt)
  All-append (b ∷ calls) c h k = (h.0, All-append calls c h.1 k)

  pub AllCalls-IsStable : {q : WorkQueue} → IsStable {q = q} P (AllCalls {q = q})
  AllCalls-IsStable = record {
    enqueued = λ w item h. h;
    forgotten = λ w item h. h;
    finished = λ w key h. h;
    called = λ w c p h. All-append w.calls c h p;
    noted = λ w etag h. h;
  }

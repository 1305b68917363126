-- ===== src/World.antt =====
-- The state that an operation threads: the work queue, the calls made of the API server and the etag
-- of the cron job; and the monad of operations, which may panic.
use k8s_athenz_syncer.Common.{◌≡◌, List, [], ◌∷◌, ◌++◌, Bytes}
use k8s_athenz_syncer.Go.{Go, ret, panic}
use k8s_athenz_syncer.WorkQueue.{add_all-append, add_all, WorkQueue}
use k8s_athenz_syncer.Cluster.{Call}

pub record World (q : WorkQueue) : Type 0 where
  pub queue : q.State
  pub calls : List Call
  pub etag : Bytes

abbrev pub M : WorkQueue → Type 0 → Type 0
M q A = World q → Go A × World q

abbrev pub continue : {q : WorkQueue} {A B : Type 0} → (A → M q B) → Go A × World q → Go B × World q
continue f (ret a, w) = f a w
continue f (panic, w) = (panic, w)

infixl 5 ◌>>=◌ ◌>>◌
abbrev pub ◌>>=◌ : {q : WorkQueue} {A B : Type 0} → M q A → (A → M q B) → M q B
◌>>=◌ m f w = continue f (m w)

abbrev pub ◌>>◌ : {q : WorkQueue} {B : Type 0} → M q (Unit {0}) → M q B → M q B
◌>>◌ m k w = continue (λ _. k) (m w)

abbrev pub done : {q : WorkQueue} {A : Type 0} → A → M q A
done a w = (ret a, w)

-- A pure part that may panic.
abbrev pub lift : {q : WorkQueue} {A : Type 0} → Go A → M q A
lift a w = (a, w)

-- queue.AddRateLimited
abbrev pub enqueue : {q : WorkQueue} → Bytes → M q (Unit {0})
enqueue {q} item w = (ret tt, record w { queue = q.add_rate_limited w.queue item })

-- A call of the API server; the answer is read from the calls before it.
abbrev pub send : {q : WorkQueue} {A : Type 0} → Call → (List Call → A) → M q A
send call answer w = (ret (answer w.calls), record w { calls = w.calls ++ (call ∷ []) })

-- The world after a list of items entered the queue.
abbrev pub after_adding : {q : WorkQueue} → World q → List Bytes → World q
after_adding {q} w xs = record w { queue = add_all q w.queue xs }

pub after_adding-append :
    {q : WorkQueue} (w : World q) (xs ys : List Bytes)
    → after_adding (after_adding w xs) ys ≡ after_adding w (xs ++ ys)
after_adding-append {q} w xs ys = rw (add_all-append q w.queue xs ys)

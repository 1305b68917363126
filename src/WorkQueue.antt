-- ===== src/WorkQueue.antt =====
-- The rate limiting queue of client-go, which the program calls and does not contain: an interface,
-- with what its documentation says as laws, and an instance over this program's rate limiter.
pub mod Order
pub mod Fifo
use k8s_athenz_syncer.Common.{
  ℕ, ◌+◌, ◌≡◌, refl, List, [], ◌∷◌, ◌++◌, Bytes, bytes_eq, ◌==◌, if◌then◌else◌,
}
use k8s_athenz_syncer.RateLimiter.{RateLimiter, when, forget, num_requeues}
use k8s_athenz_syncer.RateLimiter.Requeues.{num_requeues-when, num_requeues-forget}

-- A key of the queue is an interface{}: a name, or a value of another type.
pub data Key : Type 0 where
  name : Bytes → Key
  other : Key

pub record WorkQueue : Type 1 where
  pub State : Type 0
  -- AddRateLimited: the item enters the queue after the time that the rate limiter says.
  pub add_rate_limited : State → Bytes → State
  -- Forget: the rate limiter stops tracking the item.
  pub forget : State → Bytes → State
  -- NumRequeues: how many times the item was requeued.
  pub num_requeues : State → Bytes → ℕ
  -- Done: the key is no longer being processed.
  pub finish : State → Key → State

pub record IsLawful (q : WorkQueue) : Type 0 where
  pub num_requeues-add :
      (s : q.State) (item j : Bytes)
      → q.num_requeues (q.add_rate_limited s item) j
        ≡ (if j == item then q.num_requeues s item + 1 else q.num_requeues s j)
  pub num_requeues-forget :
      (s : q.State) (item j : Bytes)
      → q.num_requeues (q.forget s item) j ≡ (if j == item then 0 else q.num_requeues s j)
  pub num_requeues-finish :
      (s : q.State) (key : Key) (j : Bytes) → q.num_requeues (q.finish s key) j ≡ q.num_requeues s j

-- All items of a list, from the first on.
abbrev pub add_all : (q : WorkQueue) → q.State → List Bytes → q.State
add_all q s [] = s
add_all q s (item ∷ rest) = add_all q (q.add_rate_limited s item) rest

pub add_all-append :
    (q : WorkQueue) (s : q.State) (xs ys : List Bytes)
    → add_all q s (xs ++ ys) ≡ add_all q (add_all q s xs) ys
add_all-append q s [] ys = refl
add_all-append q s (x ∷ xs) ys = add_all-append q (q.add_rate_limited s x) xs ys

-- The queue's state: the limiter, the clock readings to come (the last one stays), the items with
-- the instants at which they are released, and the keys that are done.
pub record Limited : Type 0 where
  pub limiter : RateLimiter Bytes
  pub clock : ℕ
  pub ticks : List ℕ
  pub released : List (Bytes × ℕ)
  pub finished : List Key

abbrev read_clock : ℕ → List ℕ → ℕ × List ℕ
read_clock clock [] = (clock, [])
read_clock clock (tick ∷ ticks) = (tick, ticks)

unfoldable pub limited_add : Limited → Bytes → Limited
limited_add s item =
    let (now, ticks) = read_clock s.clock s.ticks in
    let (limiter, delay) = when s.limiter item now in
    record {
      limiter = limiter;
      clock = now;
      ticks = ticks;
      released = s.released ++ ((item, now + delay) ∷ []);
      finished = s.finished;
    }

abbrev pub limited_queue : WorkQueue
limited_queue = record {
  State = Limited;
  add_rate_limited = limited_add;
  forget = λ s item. record s { limiter = forget s.limiter item };
  num_requeues = λ s item. num_requeues s.limiter item;
  finish = λ s key. record s { finished = s.finished ++ (key ∷ []) };
}

limited_num_requeues-add :
    (s : Limited) (item j : Bytes)
    → num_requeues (limited_add s item).limiter j
      ≡ (if j == item then num_requeues s.limiter item + 1 else num_requeues s.limiter j)
unfolding limited_add
limited_num_requeues-add s item j =
    num_requeues-when s.limiter item (read_clock s.clock s.ticks).0 j

-- A queue over the program's rate limiter counts as the interface says.
pub limited_queue-IsLawful : IsLawful limited_queue
limited_queue-IsLawful = record {
  num_requeues-add = limited_num_requeues-add;
  num_requeues-forget = λ s item j. num_requeues-forget s.limiter item j;
  num_requeues-finish = λ s key j. refl;
}

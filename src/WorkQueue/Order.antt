-- ===== src/WorkQueue/Order.antt =====
-- The order in which the queue of client-go hands out its items: Get, with what the documentation of
-- the queue promises of it as laws. Items are handed out in the order in which they were added, none
-- twice at a time, and an item that was added before it could be processed is processed once.
use k8s_athenz_syncer.Common.{
  List, [], ◌∷◌, In, inl, inr, ◌∙◌, ℕ, suc, ◌≤◌, ◌≡◌, ◌⊎◌, Bool, true, false, Option, some, Bytes,
}
use k8s_athenz_syncer.WorkQueue.{WorkQueue, Key, name, add_all}

pub record Handout (q : WorkQueue) : Type 0 where
  -- Get: the next key, which is being processed from then on; none if the queue is shut down. It
  -- blocks while nothing waits.
  pub get : q.State → Option Key × q.State
  -- How many keys are handed out before an item; none if the item does not wait.
  pub place : q.State → Bytes → Option ℕ
  -- The item has been handed out and is not yet done.
  pub is_busy : q.State → Bytes → Bool

module _ {q : WorkQueue} (h : Handout q) where
  -- The item waits, is not being processed, and at most `n` keys are handed out before it.
  abbrev pub Waits : q.State → Bytes → ℕ → Type 0
  Waits s item n = (h.is_busy s item ≡ false) × ((m : ℕ) × (h.place s item ≡ some m) × (m ≤ n))

  -- A Get hands out the item, or a key that is before it.
  abbrev pub Approaches : q.State → Bytes → ℕ → Option Key × q.State → Type 0
  Approaches s item n (key, t) = (key ≡ some (name item)) ⊎ ((m : ℕ) × (n ≡ suc m) × Waits t item m)

pub record IsFair {q : WorkQueue} (h : Handout q) : Type 0 where
  -- An item waits once it is added.
  pub Waits-own :
      (s : q.State) (item : Bytes)
      → h.is_busy s item ≡ false
      → (n : ℕ) × Waits h (q.add_rate_limited s item) item n
  -- Adding hands nothing out.
  pub is_busy-add :
      (s : q.State) (item added : Bytes)
      → h.is_busy (q.add_rate_limited s added) item ≡ h.is_busy s item
  -- No item overtakes one that was added before it.
  pub Waits-add :
      (s : q.State) (item other : Bytes) (n : ℕ)
      → Waits h s item n
      → Waits h (q.add_rate_limited s other) item n
  pub Waits-forget :
      (s : q.State) (item other : Bytes) (n : ℕ)
      → Waits h s item n
      → Waits h (q.forget s other) item n
  pub Waits-finish :
      (s : q.State) (item : Bytes) (key : Key) (n : ℕ)
      → Waits h s item n
      → Waits h (q.finish s key) item n
  pub get-Approaches :
      (s : q.State) (item : Bytes) (n : ℕ) → Waits h s item n → Approaches h s item n (h.get s)

-- An item that is added while it is being processed waits once it is done.
pub record IsReentrant {q : WorkQueue} (h : Handout q) : Type 0 where
  pub get-busy :
      (s : q.State) (item : Bytes)
      → (h.get s).0 ≡ some (name item)
      → h.is_busy (h.get s).1 item ≡ true
  pub Waits-again :
      (s : q.State) (item : Bytes)
      → h.is_busy s item ≡ true
      → (n : ℕ) × Waits h (q.finish (q.add_rate_limited s item) (name item)) item n

module _ {q : WorkQueue} (h : Handout q) (fair : IsFair h) where
  Waits-add_all :
      (items : List Bytes) (s : q.State) (item : Bytes) (n : ℕ)
      → Waits h s item n
      → Waits h (add_all q s items) item n
  Waits-add_all [] s item n waits = waits
  Waits-add_all (x ∷ items) s item n waits =
      Waits-add_all items (q.add_rate_limited s x) item n (fair.Waits-add s item x n waits)

  -- An item waits once all items of a list that holds it are added.
  pub add_all-Waits :
      (items : List Bytes) (s : q.State) (item : Bytes)
      → In item items
      → h.is_busy s item ≡ false
      → (n : ℕ) × Waits h (add_all q s items) item n
  add_all-Waits [] s item i idle = absurd i
  add_all-Waits (x ∷ items) s item (inl same) idle =
      let (n, waits) = fair.Waits-own s item idle in
      (n, Waits-add_all items (q.add_rate_limited s x) item n (rw same waits))
  add_all-Waits (x ∷ items) s item (inr i) idle =
      add_all-Waits items (q.add_rate_limited s x) item i (fair.is_busy-add s item x ∙ idle)

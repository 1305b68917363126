-- ===== src/WorkQueue/Fifo.antt =====
-- A queue as its documentation describes it, over this program's rate limiter: items wait in the
-- order in which they were added, each once, and an item that is added while it is being processed
-- waits again when it is done.
use k8s_athenz_syncer.Common.{
  ap, sym, ◌-◌, ℕ, suc, ◌≤◌, ◌≡◌, refl, inl, inr, true, false, Option, none, some, List, [], ◌∷◌,
  ◌++◌, Bytes, bytes_eq, ◌==◌, contains, if◌then◌else◌, Bool-cases, arith,
}
use k8s_athenz_syncer.WorkQueue.{WorkQueue, Key, name, other, Limited, limited_queue}
use k8s_athenz_syncer.WorkQueue.Order.{Handout, IsFair, IsReentrant, Waits, Approaches}

pub record Fifo : Type 0 where
  pub limited : Limited
  pub waiting : List Bytes
  pub processing : List Bytes
  -- The items that were added while they were being processed.
  pub again : List Bytes

abbrev without : Bytes → List Bytes → List Bytes
without item [] = []
without item (x ∷ xs) = if x == item then without item xs else x ∷ without item xs

abbrev add_once : List Bytes → Bytes → List Bytes
add_once xs item = if contains xs item then xs else xs ++ (item ∷ [])

abbrev fifo_add : Fifo → Bytes → Fifo
fifo_add s item =
    let counted = record s { limited = limited_queue.add_rate_limited s.limited item } in
    if contains s.processing item
    then record counted { again = item ∷ s.again }
    else record counted { waiting = add_once s.waiting item }

abbrev fifo_finish : Fifo → Key → Fifo
fifo_finish s other = s
fifo_finish s (name item) = record s {
  limited = limited_queue.finish s.limited (name item);
  processing = without item s.processing;
  again = without item s.again;
  waiting = if contains s.again item then add_once s.waiting item else s.waiting;
}

abbrev pub fifo_queue : WorkQueue
fifo_queue = record {
  State = Fifo;
  add_rate_limited = fifo_add;
  forget = λ s item. record s { limited = limited_queue.forget s.limited item };
  num_requeues = λ s item. limited_queue.num_requeues s.limited item;
  finish = fifo_finish;
}

abbrev next_place : Option ℕ → Option ℕ
next_place none = none
next_place (some n) = some (suc n)

abbrev place_in : List Bytes → Bytes → Option ℕ
place_in [] item = none
place_in (x ∷ xs) item = if item == x then some 0 else next_place (place_in xs item)

abbrev take : List Bytes → Fifo → Option Key × Fifo
take [] s = (none, s)
take (x ∷ xs) s = (some (name x), record s { waiting = xs; processing = x ∷ s.processing })

abbrev pub fifo_order : Handout fifo_queue
fifo_order = record {
  get = λ s. take s.waiting s;
  place = λ s item. place_in s.waiting item;
  is_busy = λ s item. contains s.processing item;
}

next_place-some :
    (found : Option ℕ) (n : ℕ)
    → next_place found ≡ some n
    → (m : ℕ) × (found ≡ some m) × (n ≡ suc m)
next_place-some none n e = absurd (ground (arith, e))
next_place-some (some m) n e = (m, refl, ground (arith, e))

place_in-append :
    (xs ys : List Bytes) (item : Bytes) (n : ℕ)
    → place_in xs item ≡ some n
    → place_in (xs ++ ys) item ≡ some n
place_in-append [] ys item n e = absurd (ground (arith, e))
place_in-append (x ∷ xs) ys item n e = elim (Bool-cases (item == x)) [
  | inl same ↦ ground (arith, same, e)
  | inr apart ↦
      let (m, found, next) = next_place-some (place_in xs item) n (ground (arith, apart, e)) in
      rw (apart, place_in-append xs ys item m found) (ap some (sym next))
]

place_in-own :
    (xs : List Bytes) (item : Bytes) → (n : ℕ) × (place_in (xs ++ (item ∷ [])) item ≡ some n)
place_in-own [] item = (0, ground arith)
place_in-own (x ∷ xs) item = elim (Bool-cases (item == x)) [
  | inl same ↦ (0, rw same refl)
  | inr apart ↦ let (n, found) = place_in-own xs item in (suc n, rw (apart, found) refl)
]

place_in-contains :
    (xs : List Bytes) (item : Bytes)
    → contains xs item ≡ true
    → (n : ℕ) × (place_in xs item ≡ some n)
place_in-contains [] item e = absurd (ground (arith, e))
place_in-contains (x ∷ xs) item e = elim (Bool-cases (item == x)) [
  | inl same ↦ (0, rw same refl)
  | inr apart ↦
      let (n, found) = place_in-contains xs item (ground (arith, apart, e)) in
      (suc n, rw (apart, found) refl)
]

place_in-add_once :
    (xs : List Bytes) (item added : Bytes) (n : ℕ)
    → place_in xs item ≡ some n
    → place_in (add_once xs added) item ≡ some n
place_in-add_once xs item added n e = elim (Bool-cases (contains xs added)) [
  | inl there ↦ rw there e
  | inr absent ↦ rw absent (place_in-append xs (added ∷ []) item n e)
]

contains-without :
    (xs : List Bytes) (item added : Bytes)
    → contains xs item ≡ false
    → contains (without added xs) item ≡ false
contains-without [] item added e = refl
contains-without (x ∷ xs) item added e = elim (Bool-cases (x == added)) [
  | inl same ↦ rw same (contains-without xs item added (ground (arith, e)))
  | inr apart ↦ rw apart (ground (arith, e, contains-without xs item added (ground (arith, e))))
]

fifo_own :
    (s : Fifo) (item : Bytes)
    → contains s.processing item ≡ false
    → (n : ℕ) × Waits fifo_order (fifo_add s item) item n
fifo_own s item idle = elim (Bool-cases (contains s.waiting item)) [
  | inl there ↦
      let (n, found) = place_in-contains s.waiting item there in
      (n, (rw idle idle, (n, rw (idle, there) found, omega arith)))
  | inr absent ↦
      let (n, found) = place_in-own s.waiting item in
      (n, (rw idle idle, (n, rw (idle, absent) found, omega arith)))
]

fifo_add-Waits :
    (s : Fifo) (item added : Bytes) (n : ℕ)
    → Waits fifo_order s item n
    → Waits fifo_order (fifo_add s added) item n
fifo_add-Waits s item added n (idle, (m, found, near)) =
    elim (Bool-cases (contains s.processing added)) [
      | inl busy ↦ rw busy (idle, (m, found, near))
      | inr free ↦ rw free (idle, (m, place_in-add_once s.waiting item added m found, near))
    ]

fifo_finish-Waits :
    (s : Fifo) (item : Bytes) (key : Key) (n : ℕ)
    → Waits fifo_order s item n
    → Waits fifo_order (fifo_finish s key) item n
fifo_finish-Waits s item other n waits = waits
fifo_finish-Waits s item (name done_) n (idle, (m, found, near)) = (
  contains-without s.processing item done_ idle,
  (
    m,
    elim (Bool-cases (contains s.again done_)) [
      | inl more ↦ rw more (place_in-add_once s.waiting item done_ m found)
      | inr ended ↦ rw ended found
    ],
    near,
  ),
)

take-Approaches :
    (waiting : List Bytes) (s : Fifo) (item : Bytes) (n m : ℕ)
    → contains s.processing item ≡ false
    → place_in waiting item ≡ some m
    → m ≤ n
    → Approaches fifo_order s item n (take waiting s)
take-Approaches [] s item n m idle found near = absurd (ground (arith, found))
take-Approaches (x ∷ xs) s item n m idle found near = elim (Bool-cases (item == x)) [
  | inl same ↦ inl (ground (arith, same))
  | inr apart ↦
      let (k, later, next) = next_place-some (place_in xs item) m (ground (arith, apart, found)) in
      inr (n - 1, omega arith, (rw apart idle, (k, later, omega arith)))
]

is_busy-fifo_add :
    (s : Fifo) (item added : Bytes)
    → contains (fifo_add s added).processing item ≡ contains s.processing item
is_busy-fifo_add s item added = elim (Bool-cases (contains s.processing added)) [
  | inl busy ↦ rw busy refl
  | inr free ↦ rw free refl
]

pub fifo_order-IsFair : IsFair fifo_order
fifo_order-IsFair = record {
  Waits-own = fifo_own;
  is_busy-add = is_busy-fifo_add;
  Waits-add = fifo_add-Waits;
  Waits-forget = λ s item added n waits. waits;
  Waits-finish = fifo_finish-Waits;
  get-Approaches =
      λ s item n (idle, (m, found, near)). take-Approaches s.waiting s item n m idle found near;
}

without_self : (xs : List Bytes) (item : Bytes) → contains (without item xs) item ≡ false
without_self [] item = refl
without_self (x ∷ xs) item = elim (Bool-cases (x == item)) [
  | inl same ↦ rw same (without_self xs item)
  | inr apart ↦ rw apart (ground (arith, apart, without_self xs item))
]

place_in-added :
    (xs : List Bytes) (item : Bytes) → (n : ℕ) × (place_in (add_once xs item) item ≡ some n)
place_in-added xs item = elim (Bool-cases (contains xs item)) [
  | inl there ↦ let (n, found) = place_in-contains xs item there in (n, rw there found)
  | inr absent ↦ let (n, found) = place_in-own xs item in (n, rw absent found)
]

self_contains : (item : Bytes) (xs : List Bytes) → contains (item ∷ xs) item ≡ true
self_contains item xs = ground arith

take-busy :
    (waiting : List Bytes) (s : Fifo) (item : Bytes)
    → (take waiting s).0 ≡ some (name item)
    → contains (take waiting s).1.processing item ≡ true
take-busy [] s item e = absurd (ground (arith, e))
take-busy (x ∷ xs) s item e = ground (arith, e)

fifo_again :
    (s : Fifo) (item : Bytes)
    → contains s.processing item ≡ true
    → (n : ℕ) × Waits fifo_order (fifo_finish (fifo_add s item) (name item)) item n
fifo_again s item busy =
    let (n, found) = place_in-added s.waiting item in
    rw (busy, self_contains item s.again)
      (n, (without_self s.processing item, (n, found, omega arith)))

pub fifo_order-IsReentrant : IsReentrant fifo_order
fifo_order-IsReentrant = record {
  get-busy = λ s item e. take-busy s.waiting s item e;
  Waits-again = fifo_again;
}

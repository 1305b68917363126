-- ===== src/Client/Informers/Started.antt =====
-- Which informers run: each at most once, however often Start is called.
use mathlib.Core.Path.{subst}
use k8s_athenz_syncer.Common.{
  bytes_discrete, map, ap, sym, ◌∙◌, Option-cases, ◌≡◌, refl, ◌⊎◌, inl, inr, Bool, true, false,
  List, [], ◌∷◌, ◌++◌, Bytes, bytes_eq, ◌==◌, if◌then◌else◌, All, In, arith, Bool-cases, ℕ,
}
use k8s_athenz_syncer.GoMap.{GoMap, lookup, insert, lookup-insert}
use k8s_athenz_syncer.Client.Informers.{
  map, SharedInformerFactory, Parts, is_started, start_all, start_informers, informer_for,
}

abbrev pub NoDuplicates : List Bytes → Type 0
NoDuplicates [] = Unit
NoDuplicates (x ∷ xs) = (¬ In x xs) × NoDuplicates xs

-- What the factory's users do.
pub data Operation (p : Parts) : Type 0 where
  requests : Bytes → (p.Client → ℕ → p.Informer) → Operation p
  starts : Operation p

-- The types of the informers that a sequence of operations runs, in order.
unfoldable pub runs_of : {p : Parts} → List (Operation p) → SharedInformerFactory p → List Bytes
runs_of [] f = []
runs_of (requests kind new_func ∷ ops) f = runs_of ops (informer_for f kind new_func).1
runs_of (starts ∷ ops) f = (start_informers f).1 ++ runs_of ops (start_informers f).0

is_started-insert :
    (started : GoMap Bytes Bool) (kind k : Bytes)
    → is_started (insert started kind true) k ≡ (if k == kind then true else is_started started k)
is_started-insert started kind k = ground (arith, lookup-insert started kind true k)

All-implies :
    {P Q : Bytes → Type 0} (xs : List Bytes) → ((k : Bytes) → P k → Q k) → All P xs → All Q xs
All-implies [] f h = tt
All-implies (x ∷ xs) f h = (f x h.0, All-implies xs f h.1)

-- A name that is started is not among names that are not.
started_apart :
    (started : GoMap Bytes Bool) (kind : Bytes) (runs : List Bytes)
    → is_started started kind ≡ true
    → All (λ k. is_started started k ≡ false) runs
    → ¬ In kind runs
started_apart started kind [] e h = λ n. absurd n
started_apart started kind (k ∷ runs) e h = λ n. elim n [
  | inl same ↦ absurd (ground (arith, ap (is_started started) same, e, h.0))
  | inr later ↦ started_apart started kind runs e h.1 later
]

excludes_append : (x : Bytes) (xs ys : List Bytes) → ¬ In x xs → ¬ In x ys → ¬ In x (xs ++ ys)
excludes_append x [] ys hx hy = hy
excludes_append x (z ∷ xs) ys hx hy = λ n. elim n [
  | inl same ↦ hx (inl same)
  | inr later ↦ excludes_append x xs ys (λ m. hx (inr m)) hy later
]

NoDuplicates-append :
    (xs ys : List Bytes)
    → NoDuplicates xs
    → NoDuplicates ys
    → All (λ k. ¬ In k ys) xs
    → NoDuplicates (xs ++ ys)
NoDuplicates-append [] ys hx hy apart = hy
NoDuplicates-append (x ∷ xs) ys hx hy apart =
    (excludes_append x xs ys hx.0 apart.0, NoDuplicates-append xs ys hx.1 hy apart.1)

-- The loop runs what was not started, each once, and starts it; what was started stays so.
abbrev Runs : GoMap Bytes Bool → GoMap Bytes Bool × List Bytes → Type 0
Runs before (after, runs) =
    NoDuplicates runs
    × All (λ k. is_started before k ≡ false) runs
    × All (λ k. is_started after k ≡ true) runs
    × ((k : Bytes) → is_started before k ≡ true → is_started after k ≡ true)

Runs-cons :
    (kind : Bytes) (started : GoMap Bytes Bool) (r : GoMap Bytes Bool × List Bytes)
    → is_started started kind ≡ false
    → Runs (insert started kind true) r
    → Runs started (r.0, kind ∷ r.1)
Runs-cons kind started (after, runs) e (alone, fresh, marked, grows) =
    let inserted : is_started (insert started kind true) kind ≡ true =
      ground (arith, is_started-insert started kind kind) in
    (
      (started_apart (insert started kind true) kind runs inserted fresh, alone),
      (e, All-implies runs (λ k h. ground (arith, is_started-insert started kind k, h)) fresh),
      (grows kind inserted, marked),
      λ k h. grows k (ground (arith, is_started-insert started kind k, h)),
    )

module _ {Informer : Type 0} where
  start_all-Runs :
      (informers : GoMap Bytes Informer) (started : GoMap Bytes Bool)
      → Runs started (start_all informers started)
  unfolding start_all
  start_all-Runs [] started = (tt, tt, tt, λ k h. h)
  start_all-Runs ((kind, informer) ∷ rest) started = elim (Bool-cases (is_started started kind)) [
    | inl e ↦ rw e (start_all-Runs rest started)
    | inr e ↦ rw e (Runs-cons kind started _ e (start_all-Runs rest (insert started kind true)))
  ]

-- What is not started after an operation was not started before it.
fresh_before :
    (before after : GoMap Bytes Bool) (runs : List Bytes)
    → ((k : Bytes) → is_started before k ≡ true → is_started after k ≡ true)
    → All (λ k. is_started after k ≡ false) runs
    → All (λ k. is_started before k ≡ false) runs
fresh_before before after runs grows = All-implies runs (λ k h.
    elim (Bool-cases (is_started before k)) [
      | inl e ↦ absurd (ground (arith, grows k e, h))
      | inr e ↦ e
    ])

All-append-names :
    (P : Bytes → Type 0) (xs ys : List Bytes) → All P xs → All P ys → All P (xs ++ ys)
All-append-names P [] ys hx hy = hy
All-append-names P (x ∷ xs) ys hx hy = (hx.0, All-append-names P xs ys hx.1 hy)

module _ {p : Parts} where
  informer_for-started :
      (f : SharedInformerFactory p) (kind : Bytes) (new_func : p.Client → ℕ → p.Informer)
      → (informer_for f kind new_func).1.started_informers ≡ f.started_informers
  unfolding informer_for
  informer_for-started f kind new_func = elim (Option-cases (lookup f.informers kind)) [
    | inl e ↦ rw e refl
    | inr (i, e) ↦ rw e refl
  ]

  -- However requests of informers and calls of Start follow each other, an informer of a type runs at
  -- most once, and never when its type was started before.
  runs_of-Fresh :
      (ops : List (Operation p)) (f : SharedInformerFactory p)
      → NoDuplicates (runs_of ops f)
        × All (λ k. is_started f.started_informers k ≡ false) (runs_of ops f)
  unfolding runs_of start_informers
  runs_of-Fresh [] f = (tt, tt)
  runs_of-Fresh (requests kind new_func ∷ ops) f =
      let (alone, fresh) = runs_of-Fresh ops (informer_for f kind new_func).1 in
      (
        alone,
        subst
            (λ s. All (λ k. is_started s k ≡ false) (runs_of ops (informer_for f kind new_func).1))
            (informer_for-started f kind new_func) fresh,
      )
  runs_of-Fresh (starts ∷ ops) f =
      let (alone, fresh, marked, grows) = start_all-Runs f.informers f.started_informers in
      let (later_alone, later_fresh) = runs_of-Fresh ops (start_informers f).0 in
      let after = (start_all f.informers f.started_informers).0 in
      (
        NoDuplicates-append _ _ alone later_alone
            (All-implies _ (λ k h. started_apart after k _ h later_fresh) marked),
        All-append-names (λ k. is_started f.started_informers k ≡ false) _ _ fresh
            (fresh_before f.started_informers after _ grows later_fresh),
      )

abbrev pub names : {Informer : Type 0} → GoMap Bytes Informer → List Bytes
names informers = map (λ entry. entry.0) informers

-- What the loop leaves started and has run of the requested informers.
abbrev pub Covers : Bytes → GoMap Bytes Bool → GoMap Bytes Bool × List Bytes → Type 0
Covers kind before (after, runs) =
    (is_started after kind ≡ true) × ((is_started before kind ≡ true) ⊎ In kind runs)

Covers-cons :
    (k kind : Bytes) (started : GoMap Bytes Bool) (r : GoMap Bytes Bool × List Bytes)
    → Covers kind (insert started k true) r
    → Covers kind started (r.0, k ∷ r.1)
Covers-cons k kind started (after, runs) (e, inr later) = (e, inr (inr later))
Covers-cons k kind started (after, runs) (e, inl h) = elim (bytes_discrete k kind) [
  | yes same ↦ (e, inr (inl same))
  | no other_kind ↦ (e, inl (ground (arith, is_started-insert started k kind, h, other_kind)))
]

module _ {Informer : Type 0} where
  start_all-covered :
      (informers : GoMap Bytes Informer) (started : GoMap Bytes Bool) (kind : Bytes)
      → is_started started kind ≡ true
      → Covers kind started (start_all informers started)
  start_all-covered informers started kind e =
      let (alone, fresh, marked, grows) = start_all-Runs informers started in (grows kind e, inl e)

  start_all-Covers :
      (informers : GoMap Bytes Informer) (started : GoMap Bytes Bool) (kind : Bytes)
      → In kind (names informers)
      → Covers kind started (start_all informers started)
  unfolding start_all
  start_all-Covers [] started kind requested = absurd requested
  start_all-Covers ((k, i) ∷ rest) started kind requested =
      elim (Bool-cases (is_started started k)) [
        | inl e ↦ rw e (elim requested [
          | inl same ↦ start_all-covered rest started kind (ap (is_started started) (sym same) ∙ e)
          | inr later ↦ start_all-Covers rest started kind later
        ])
        | inr e ↦ rw e (
            Covers-cons k kind started _ (elim requested [
              | inl same ↦
                  start_all-covered rest (insert started k true) kind
                    (ground (arith, is_started-insert started k kind, same))
              | inr later ↦ start_all-Covers rest (insert started k true) kind later
            ]))
      ]

-- After Start every requested informer is started, and runs by this call if it was not started before.
start_informers-Covers :
    {p : Parts} (f : SharedInformerFactory p) (kind : Bytes)
    → In kind (names f.informers)
    → Covers kind f.started_informers
        ((start_informers f).0.started_informers, (start_informers f).1)
unfolding start_informers
start_informers-Covers f kind requested =
    start_all-Covers f.informers f.started_informers kind requested

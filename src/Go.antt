-- ===== src/Go.antt =====
-- The result of a Go function that may panic (a nil dereference), and slices that may be nil.
use k8s_athenz_syncer.Common.{◌≡◌, refl, ◌⊎◌, inl, inr, Option, none, some, List, [], ◌∷◌}

pub data Go {ℓ} (A : Type ℓ) : Type ℓ where
  ret : A → Go A
  panic : Go A

infixl 5 ◌>>=◌
abbrev pub ◌>>=◌ {ℓ κ} : {A : Type ℓ} {B : Type κ} → Go A → (A → Go B) → Go B
ret a >>= f = f a
panic >>= f = panic

-- Reading through a pointer.
abbrev pub deref {ℓ} : {A : Type ℓ} → Option A → Go A
deref none = panic
deref (some a) = ret a

-- A slice is nil or holds items; reflect.DeepEqual tells a nil slice from an empty one.
abbrev pub Slice {ℓ} : Type ℓ → Type ℓ
Slice A = Option (List A)

-- What `for range` visits.
abbrev pub items {ℓ} : {A : Type ℓ} → Slice A → List A
items none = []
items (some xs) = xs

-- A slice that starts as nil and to which the items are appended.
abbrev pub appended {ℓ} : {A : Type ℓ} → List A → Slice A
appended [] = none
appended (x ∷ xs) = some (x ∷ xs)

pub items-appended {ℓ} : {A : Type ℓ} (xs : List A) → items (appended xs) ≡ xs
items-appended [] = refl
items-appended (x ∷ xs) = refl

-- A bind that returns has a first part that returns.
pub >>=-eq-ret {ℓ κ} :
    {A : Type ℓ} {B : Type κ} (m : Go A) (f : A → Go B) {b : B}
    → (m >>= f) ≡ ret b
    → (a : A) × (m ≡ ret a) × (f a ≡ ret b)
>>=-eq-ret (ret a) f h = (a, refl, h)
>>=-eq-ret panic f h = cc

pub Go-cases {ℓ} : {A : Type ℓ} (m : Go A) → (m ≡ panic) ⊎ ((a : A) × (m ≡ ret a))
Go-cases (ret a) = inr (a, refl)
Go-cases panic = inl refl

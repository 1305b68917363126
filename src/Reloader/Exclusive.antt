-- ===== src/Reloader/Exclusive.antt =====
-- How many goroutines of fileUpdate reload at a time.
use k8s_athenz_syncer.Common.{◌≡◌, refl, ◌⊎◌, inl, inr, true, false, List, [], ◌∷◌, ◌++◌, arith}
use k8s_athenz_syncer.Reloader.{
  Phase, asleep, reloaded, Watched, file_update, Advance, event, reload, leave, Advances, here,
  then_by,
}

-- The flag is set exactly while one goroutine is inside.
abbrev pub IsExclusive {ℓ} : {Cert : Type ℓ} → Watched Cert → Type 0
IsExclusive g =
    ((g.cond ≡ false) × (g.inside ≡ []))
    ⊎ ((g.cond ≡ true) × (phase : Phase) × (g.inside ≡ phase ∷ []))

-- A list of one item that is split at an item holds nothing else.
alone : (xs ys : List Phase) (x y : Phase) → xs ++ (x ∷ ys) ≡ y ∷ [] → (xs ≡ []) × (ys ≡ [])
alone [] ys x y h = ground (arith, h)
alone (z ∷ []) ys x y h = absurd (cc)
alone (z ∷ w ∷ xs) ys x y h = absurd (cc)

nobody : (xs ys : List Phase) (x : Phase) → xs ++ (x ∷ ys) ≡ [] → ⊥
nobody [] ys x h = cc
nobody (z ∷ xs) ys x h = cc

module _ {ℓ} {Cert : Type ℓ} where
  Advance-IsExclusive : {g h : Watched Cert} → Advance g h → IsExclusive g → IsExclusive h
  unfolding file_update
  Advance-IsExclusive (event g) (inl (off, empty)) =
      rw off (inr (refl, asleep, ground (arith, empty)))
  Advance-IsExclusive (event g) (inr (on, phase, one)) = rw on (inr (refl, phase, one))
  Advance-IsExclusive (reload g before after a at) (inl (off, empty)) =
      absurd (nobody before after asleep (ground (arith, at, empty)))
  Advance-IsExclusive (reload g before after a at) (inr (on, phase, one)) =
      let (b, e) = alone before after asleep phase (ground (arith, at, one)) in
      inr (on, reloaded, ground (arith, b, e))
  Advance-IsExclusive (leave g before after at) (inl (off, empty)) =
      absurd (nobody before after reloaded (ground (arith, at, empty)))
  Advance-IsExclusive (leave g before after at) (inr (on, phase, one)) =
      let (b, e) = alone before after reloaded phase (ground (arith, at, one)) in
      inl (refl, ground (arith, b, e))

  -- However watch events and goroutines interleave, from a reloader whose flag is clear and in which
  -- no goroutine runs, the flag is set exactly while one goroutine is between its two tests, so that
  -- no two of them reload at once and the flag is clear when none is left.
  pub Advances-IsExclusive :
      {g h : Watched Cert} → Advances g h → g.cond ≡ false → g.inside ≡ [] → IsExclusive h
  Advances-IsExclusive here off empty = inl (off, empty)
  Advances-IsExclusive (then_by before step) off empty =
      Advance-IsExclusive step (Advances-IsExclusive before off empty)

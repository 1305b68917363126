-- ===== src/ApiServer/Origin.antt =====
-- Where the content of the store comes from.
use k8s_athenz_syncer.Common.{
  ◌≡◌, refl, sym, ◌∙◌, ◌⊎◌, inl, inr, Option, none, some, List, [], ◌∷◌, Bytes, bytes_discrete, Any,
}
use k8s_athenz_syncer.Cluster.{
  GoError, Result, ok, err, AthenzDomain, Call, create_cr, update_cr, delete_cr, get_config_map,
  create_config_map, update_config_map,
}
use k8s_athenz_syncer.ApiServer.{ApiServer, IsLawful, Stores, Deletes}
use k8s_athenz_syncer.ApiServer.Replay.{apply, replay}

-- Every write is carried out or refused, whatever the store holds. The API server refuses a create
-- of a name that exists, an update under another resource version, and an update or a delete of a
-- name that does not exist.
pub record IsStrict (api : ApiServer) : Type 0 where
  pub create-Stores :
      (s : api.State) (object : AthenzDomain) → Stores api s object (api.create s object)
  pub update-Stores :
      (s : api.State) (object : AthenzDomain) → Stores api s object (api.update s object)
  pub delete-Deletes : (s : api.State) (name : Bytes) → Deletes api s name (api.delete s name)

-- The call writes what the stored resource holds.
abbrev pub Writes : Bytes → AthenzDomain → Call → Type 0
Writes name stored (create_cr a) =
    (a.object_meta.name ≡ name) × (stored.spec ≡ a.spec) × (stored.status ≡ a.status)
Writes name stored (update_cr a) =
    (a.object_meta.name ≡ name) × (stored.spec ≡ a.spec) × (stored.status ≡ a.status)
Writes name stored _ = ⊥

abbrev pub Removes : Bytes → Call → Type 0
Removes name (delete_cr removed) = removed ≡ name
Removes name _ = ⊥

module _ (api : ApiServer) (lawful : IsLawful api) (strict : IsStrict api) (name : Bytes) where
  -- A resource was there before the calls, or one of them wrote or removed it.
  abbrev pub Comes : Option AthenzDomain → List Call → Option AthenzDomain → Type 0
  Comes before calls after =
      (after ≡ before)
      ⊎ ((stored : AthenzDomain) × (after ≡ some stored) × Any (Writes name stored) calls)
      ⊎ ((after ≡ none) × Any (Removes name) calls)

  abbrev ComesFrom : api.State → Call → Option AthenzDomain → Type 0
  ComesFrom s c after = Comes (api.get s name) (c ∷ []) after

  created :
      (s : api.State) (a : AthenzDomain) (answer : Result AthenzDomain × api.State)
      → a.object_meta.name ≡ name
      → Stores api s a answer
      → ComesFrom s (create_cr a) (api.get answer.1 name)
  created s a (ok stored, t) same (got, spec, status) =
      inr (inl (stored, rw (sym same) got, inl (same, spec, status)))
  created s a (err e, t) same kept = inl (rw (sym same) kept)

  updated :
      (s : api.State) (a : AthenzDomain) (answer : Result AthenzDomain × api.State)
      → a.object_meta.name ≡ name
      → Stores api s a answer
      → ComesFrom s (update_cr a) (api.get answer.1 name)
  updated s a (ok stored, t) same (got, spec, status) =
      inr (inl (stored, rw (sym same) got, inl (same, spec, status)))
  updated s a (err e, t) same kept = inl (rw (sym same) kept)

  removed :
      (s : api.State) (answer : Option GoError × api.State)
      → Deletes api s name answer
      → ComesFrom s (delete_cr name) (api.get answer.1 name)
  removed s (none, t) gone = inr (inr (gone, inl refl))
  removed s (some e, t) kept = inl kept

  apply-Comes : (s : api.State) (c : Call) → ComesFrom s c (api.get (apply api s c) name)
  apply-Comes s (create_cr a) = elim (bytes_discrete name a.object_meta.name) [
    | yes same ↦ created s a (api.create s a) (sym same) (strict.create-Stores s a)
    | no apart ↦ inl (lawful.get-create s a name apart)
  ]
  apply-Comes s (update_cr a) = elim (bytes_discrete name a.object_meta.name) [
    | yes same ↦ updated s a (api.update s a) (sym same) (strict.update-Stores s a)
    | no apart ↦ inl (lawful.get-update s a name apart)
  ]
  apply-Comes s (delete_cr n) = elim (bytes_discrete name n) [
    | yes same ↦ rw (sym same) (removed s (api.delete s name) (strict.delete-Deletes s name))
    | no apart ↦ inl (lawful.get-delete s n name apart)
  ]
  apply-Comes s (get_config_map ns n) = inl refl
  apply-Comes s (create_config_map ns config_map) = inl refl
  apply-Comes s (update_config_map ns config_map) = inl refl

  Comes-trans :
      (before middle after : Option AthenzDomain) (c : Call) (calls : List Call)
      → Comes before (c ∷ []) middle
      → Comes middle calls after
      → Comes before (c ∷ calls) after
  Comes-trans before middle after c calls first (inr (inl (stored, e, i))) =
      inr (inl (stored, e, inr i))
  Comes-trans before middle after c calls first (inr (inr (e, i))) = inr (inr (e, inr i))
  Comes-trans before middle after c calls (inl same) (inl kept) = inl (kept ∙ same)
  Comes-trans before middle after c calls (inr (inl (stored, e, inl i))) (inl kept) =
      inr (inl (stored, kept ∙ e, inl i))
  Comes-trans before middle after c calls (inr (inl (stored, e, inr n))) (inl kept) = absurd n
  Comes-trans before middle after c calls (inr (inr (e, inl i))) (inl kept) =
      inr (inr (kept ∙ e, inl i))
  Comes-trans before middle after c calls (inr (inr (e, inr n))) (inl kept) = absurd n

  -- Each resource of the store was there before the calls, or is as one of them wrote it, and one
  -- that is missing was missing before, or one of them removed it.
  pub replay-Comes :
      (s : api.State) (calls : List Call)
      → Comes (api.get s name) calls (api.get (replay api s calls) name)
  replay-Comes s [] = inl refl
  replay-Comes s (c ∷ calls) =
      Comes-trans (api.get s name) (api.get (apply api s c) name) _ c calls (apply-Comes s c)
        (replay-Comes (apply api s c) calls)

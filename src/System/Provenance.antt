-- ===== src/System/Provenance.antt =====
-- Where the resources in the API server's store come from, whatever the caches hold.
use k8s_athenz_syncer.Common.{
  ◌≡◌, sym, ◌⊎◌, inl, inr, Option, none, some, List, [], ◌∷◌, Bytes, All, Any,
}
use k8s_athenz_syncer.Zms.{DomainData}
use k8s_athenz_syncer.World.{World}
use k8s_athenz_syncer.WorkQueue.{WorkQueue, name}
use k8s_athenz_syncer.Cluster.{
  AthenzDomain, Call, create_cr, update_cr, delete_cr, get_config_map, create_config_map,
  update_config_map,
}
use k8s_athenz_syncer.ApiServer.{ApiServer, IsLawful}
use k8s_athenz_syncer.ApiServer.Origin.{IsStrict, Writes, Removes, Comes, replay-Comes}
use k8s_athenz_syncer.Controller.Effects.{Sent}
use k8s_athenz_syncer.Controller.Worker.{Round}
use k8s_athenz_syncer.System.{Setting, Reach}
use k8s_athenz_syncer.System.History.{Justifies, Supplies, Explained, rounds_of, Reach-Explained}
use k8s_athenz_syncer.System.Elsewhere.{over, stored}

-- A round for the domain in which ZMS has sent what the resource holds, a domain of this name.
abbrev pub IsFrom : Setting → Bytes → AthenzDomain → Round → Type 0
IsFrom s domain a round =
    (round.key ≡ some (name domain))
    × ((d : DomainData) × (a.spec.signed_domain.domain ≡ some d) × (d.name ≡ domain))
    × Sent s.util round.zms domain a.spec.signed_domain

Supplies-IsFrom :
    (s : Setting) (domain : Bytes) (a b : AthenzDomain) (rounds : List Round)
    → b.object_meta.name ≡ domain
    → a.spec ≡ b.spec
    → Any (Supplies s b) rounds
    → Any (IsFrom s domain a) rounds
Supplies-IsFrom s domain a b [] same spec i = absurd i
Supplies-IsFrom s domain a b (round ∷ rounds) same spec (inl (key, named, sent)) =
    inl (rw (sym same, spec) (key, named, sent))
Supplies-IsFrom s domain a b (round ∷ rounds) same spec (inr i) =
    inr (Supplies-IsFrom s domain a b rounds same spec i)

module _ (s : Setting) (domain : Bytes) (rounds : List Round) where
  supplied :
      (a : AthenzDomain) (calls : List Call)
      → All (Explained s rounds) calls
      → Any (Writes domain a) calls
      → Any (IsFrom s domain a) rounds
  supplied a (create_cr b ∷ calls) h (inl (same, spec, status)) =
      Supplies-IsFrom s domain a b rounds same spec h.0
  supplied a (update_cr b ∷ calls) h (inl (same, spec, status)) =
      Supplies-IsFrom s domain a b rounds same spec h.0
  supplied a (delete_cr n ∷ calls) h (inl e) = absurd e
  supplied a (get_config_map ns n ∷ calls) h (inl e) = absurd e
  supplied a (create_config_map ns m ∷ calls) h (inl e) = absurd e
  supplied a (update_config_map ns m ∷ calls) h (inl e) = absurd e
  supplied a (c ∷ calls) h (inr i) = supplied a calls h.1 i
  supplied a [] h i = absurd i

  removed :
      (calls : List Call)
      → All (Explained s rounds) calls
      → Any (Removes domain) calls
      → Any (Justifies s domain) rounds
  removed [] h i = absurd i
  removed (delete_cr n ∷ calls) h (inl same) = rw (sym same) h.0
  removed (create_cr b ∷ calls) h (inl e) = absurd e
  removed (update_cr b ∷ calls) h (inl e) = absurd e
  removed (get_config_map ns n ∷ calls) h (inl e) = absurd e
  removed (create_config_map ns m ∷ calls) h (inl e) = absurd e
  removed (update_config_map ns m ∷ calls) h (inl e) = absurd e
  removed (c ∷ calls) h (inr i) = removed calls h.1 i

module _ (s : Setting) (api : ApiServer) (lawful : IsLawful api) (strict : IsStrict api)
    (first : api.State) where
  explain :
      (domain : Bytes) (rounds : List Round) (calls : List Call)
      (before after : Option AthenzDomain)
      → All (Explained (over api first s) rounds) calls
      → Comes api lawful strict domain before calls after
      → (after ≡ before)
        ⊎ ((a : AthenzDomain) × (after ≡ some a) × Any (IsFrom s domain a) rounds)
        ⊎ ((after ≡ none) × Any (Justifies s domain) rounds)
  explain domain rounds calls before after h (inl kept) = inl kept
  explain domain rounds calls before after h (inr (inl (a, e, i))) =
      inr (inl (a, e, supplied (over api first s) domain rounds a calls h i))
  explain domain rounds calls before after h (inr (inr (e, i))) =
      inr (inr (e, removed (over api first s) domain rounds calls h i))

module _ {q : WorkQueue} (s : Setting) (api : ApiServer) (lawful : IsLawful api)
    (strict : IsStrict api) (first : api.State) where
  -- However events, worker rounds and cron rounds interleave, and however far the caches are behind:
  -- the resource of a domain in the store is the one that was there at the start, or holds a domain
  -- of its name that ZMS sent in a round of the worker for it; and where there is none there was
  -- none at the start, or it was removed in such a round, in which the domain was not valid or ZMS did
  -- not have it. The API server carries out or refuses each write, and a write of one name leaves the
  -- others.
  pub Reach-Comes :
      {w : World q} (r : Reach (over api first s) w) (domain : Bytes)
      → (stored api first domain w ≡ api.get first domain)
        ⊎ ((a : AthenzDomain) × (stored api first domain w ≡ some a)
            × Any (IsFrom s domain a) (rounds_of (over api first s) r))
        ⊎ ((stored api first domain w ≡ none)
            × Any (Justifies s domain) (rounds_of (over api first s) r))
  Reach-Comes {w} r domain =
      explain s api lawful strict first domain (rounds_of (over api first s) r) w.calls
        (api.get first domain) (stored api first domain w) (Reach-Explained (over api first s) r)
        (replay-Comes api lawful strict domain first w.calls)

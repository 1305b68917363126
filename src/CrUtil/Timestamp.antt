-- ===== src/CrUtil/Timestamp.antt =====
-- GetLatestTimestamp.
use k8s_athenz_syncer.Common.{
  Any, ℕ, ◌≤◌, ◌≡◌, refl, ◌≢◌, inl, some, List, [], ◌∷◌, arith, Bytes, codes, bytes_eq, ◌==◌, ltb,
  if◌then◌else◌, All,
}
use k8s_athenz_syncer.Go.{ret}
use k8s_athenz_syncer.Zms.{DomainData}
use k8s_athenz_syncer.Cluster.{AthenzDomain, Object, athenz_domain, Caches}
use k8s_athenz_syncer.CrUtil.{epoch, latest_from, get_latest_timestamp}

-- The stored objects are resources with these times of the last change.
pub data HaveTimes : List Object → List ℕ → Type 0 where
  nil : HaveTimes [] []
  cons :
      {objects : List Object} {times : List ℕ} (cr : AthenzDomain) (domain : DomainData) (time : ℕ)
      → cr.spec.signed_domain.domain ≡ some domain
      → domain.modified ≡ some time
      → HaveTimes objects times
      → HaveTimes (athenz_domain cr ∷ objects) (time ∷ times)

-- The latest of a list of times that holds at least one.
abbrev pub IsLatest : ℕ → List ℕ → Type 0
IsLatest t times = Any (λ s. s ≡ t) times × All (λ s. s ≤ t) times

IsLatest-step :
    (latest time : ℕ) (times : List ℕ) (t : ℕ)
    → IsLatest t ((if ltb latest time then time else latest) ∷ times)
    → IsLatest t (latest ∷ time ∷ times)
IsLatest-step latest time times t h = ground arith

latest_from-IsLatest :
    {objects : List Object} {times : List ℕ} (latest : ℕ)
    → HaveTimes objects times
    → (t : ℕ) × (latest_from latest objects ≡ ret (some t)) × IsLatest t (latest ∷ times)
unfolding latest_from
latest_from-IsLatest latest nil = (latest, refl, (inl refl, (omega arith, tt)))
latest_from-IsLatest latest (cons {objects} {times} cr domain time ed et later) =
    let (t, e, h) = latest_from-IsLatest (if ltb latest time then time else latest) later in
    (t, ground (arith, e), IsLatest-step latest time times t h)

-- Over a store that is not empty and holds resources with a time of their last change, the etag to
-- start from is the latest of the epoch and these times, printed, or nothing if that prints as the
-- epoch.
pub get_latest_timestamp-IsLatest :
    (format : ℕ → Bytes) (caches : Caches) (times : List ℕ)
    → caches.cr_list ≢ []
    → HaveTimes caches.cr_list times
    → (t : ℕ) × IsLatest t (epoch ∷ times)
      × (get_latest_timestamp format caches
          ≡ ret (if format t == codes "1970-01-01T00:00:00Z" then [] else format t))
unfolding get_latest_timestamp
get_latest_timestamp-IsLatest format caches times given have =
    let (t, e, h) = latest_from-IsLatest epoch have in (t, h, ground (arith, e))

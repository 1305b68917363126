-- ===== src/Cron/Effects.antt =====
-- The cron jobs keep every property of the world that queueing, noting the etag and calls about config
-- maps keep.
use k8s_athenz_syncer.Common.{
  Option, none, some, List, [], ◌∷◌, Bytes, bytes_eq, ◌==◌, Option-cases, Bool-cases, inl, inr,
}
use k8s_athenz_syncer.Go.{items}
use k8s_athenz_syncer.Zms.{SignedDomain}
use k8s_athenz_syncer.Util.{Util}
use k8s_athenz_syncer.WorkQueue.{WorkQueue}
use k8s_athenz_syncer.Cluster.{
  Call, Caches, Server, Result, ok, err, ConfigMap, ZmsRequest, ZmsAnswer, answered, failed,
}
use k8s_athenz_syncer.World.{World}
use k8s_athenz_syncer.Named.{IsConfigMapCall}
use k8s_athenz_syncer.Stable.{IsStable, Keeps, continue-Keeps}
use k8s_athenz_syncer.Cron.{
  ContactTimeConfigMap, validate_domain, is_not_found, enqueue_valid, keep_etag, handle_answer,
  request_call, put_contact_time, update_athenz_contact_time, set_etag,
}

module _ {q : WorkQueue} (P : Call → Type 0) (I : World q → Type 0) (stable : IsStable P I)
    (config : (c : Call) → IsConfigMapCall c → P c) (u : Util) (caches : Caches) where
  enqueue_valid-Keeps :
      (domains : List (Option SignedDomain)) → Keeps I (enqueue_valid u caches domains)
  unfolding enqueue_valid
  enqueue_valid-Keeps [] w h = h
  enqueue_valid-Keeps (none ∷ rest) w h = h
  enqueue_valid-Keeps (some signed ∷ rest) w h = elim (Option-cases signed.domain) [
    | inl e ↦ rw e h
    | inr (d, e) ↦ elim (Bool-cases (validate_domain u caches d.name)) [
      | inl valid ↦ rw (e, valid) (enqueue_valid-Keeps rest _ (stable.enqueued w _ h))
      | inr invalid ↦ rw (e, invalid) (enqueue_valid-Keeps rest w h)
    ]
  ]

module _ {q : WorkQueue} (P : Call → Type 0) (I : World q → Type 0) (stable : IsStable P I)
    (config : (c : Call) → IsConfigMapCall c → P c) (server : Server)
    (cm : ContactTimeConfigMap) where
  put_contact_time-Keeps :
      (config_map : ConfigMap) (answer : Result (Option ConfigMap))
      → Keeps I (put_contact_time server cm config_map answer)
  unfolding put_contact_time
  put_contact_time-Keeps config_map (err e) w h = elim (Bool-cases (is_not_found e)) [
    | inl missing ↦ rw missing (stable.called w _ (config _ tt) h)
    | inr found ↦ rw found h
  ]
  put_contact_time-Keeps config_map (ok none) w h = h
  put_contact_time-Keeps config_map (ok (some found)) w h = stable.called w _ (config _ tt) h

  update_athenz_contact_time-Keeps :
      (etag : Bytes) → Keeps I (update_athenz_contact_time server cm etag)
  unfolding update_athenz_contact_time
  update_athenz_contact_time-Keeps etag w h =
      put_contact_time-Keeps _ _ _ (stable.called w _ (config _ tt) h)

module _ {q : WorkQueue} (P : Call → Type 0) (I : World q → Type 0) (stable : IsStable P I)
    (config : (c : Call) → IsConfigMapCall c → P c) (u : Util) (caches : Caches) (server : Server)
    (zms : ZmsRequest → ZmsAnswer) (cm : ContactTimeConfigMap) where
  keep_etag-Keeps : (etag : Bytes) → Keeps I (keep_etag u caches server zms cm etag)
  unfolding keep_etag set_etag
  keep_etag-Keeps etag w h = elim (Bool-cases (etag == [])) [
    | inl e ↦ rw e h
    | inr e ↦ rw e (
        continue-Keeps I _ _ (λ _ v k. k)
          (update_athenz_contact_time-Keeps P I stable config server cm etag _
            (stable.noted w etag h)))
  ]

  handle_answer-Keeps : (answer : ZmsAnswer) → Keeps I (handle_answer u caches server zms cm answer)
  unfolding handle_answer
  handle_answer-Keeps (failed e) w h = h
  handle_answer-Keeps (answered none etag) w h = keep_etag-Keeps etag w h
  handle_answer-Keeps (answered (some found) etag) w h =
      continue-Keeps I _ _ (λ _. keep_etag-Keeps etag)
        (enqueue_valid-Keeps P I stable config u caches (items found.domains) w h)

  pub request_call-Keeps : Keeps I (request_call u caches server zms cm)
  unfolding request_call
  request_call-Keeps w h = handle_answer-Keeps _ w h

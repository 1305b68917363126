-- ===== src/Cron/Request.antt =====
-- What a call of ZMS for the changed domains leaves behind.
use mathlib.Core.Bool.{Bool-discrete}
use mathlib.Core.List.{filter, append-nil}
use k8s_athenz_syncer.Common.{
  ◌≡◌, refl, true, Option, none, some, List, [], ◌∷◌, ◌++◌, arith, Bytes, codes, bytes_eq, ◌==◌,
  if◌then◌else◌,
}
use k8s_athenz_syncer.Go.{ret, items}
use k8s_athenz_syncer.Zms.{DomainData, SignedDomain}
use k8s_athenz_syncer.Util.{Util}
use k8s_athenz_syncer.WorkQueue.{WorkQueue}
use k8s_athenz_syncer.Cluster.{
  GoError, wrapped, Result, ok, err, Caches, Server, Call, ZmsRequest, SignedDomains, ZmsAnswer,
  answered, failed, ConfigMap, get_config_map, create_config_map, update_config_map,
}
use k8s_athenz_syncer.World.{World, after_adding}
use k8s_athenz_syncer.Cron.{
  ContactTimeConfigMap, validate_domain, update_athenz_contact_time, put_contact_time, is_not_found,
  set_etag, enqueue_valid, keep_etag, handle_answer, request_call,
}

-- The domains of an answer, none of them nil, have these names.
pub data HaveNames : List (Option SignedDomain) → List Bytes → Type 0 where
  nil : HaveNames [] []
  cons :
      {domains : List (Option SignedDomain)} {names : List Bytes} (signed : SignedDomain)
      (domain : DomainData)
      → signed.domain ≡ some domain
      → HaveNames domains names
      → HaveNames (some signed ∷ domains) (domain.name ∷ names)

abbrev pub valid_names : Util → Caches → List Bytes → List Bytes
valid_names u caches = filter (λ d. Bool-discrete (validate_domain u caches d) true)

module _ {q : WorkQueue} (u : Util) (caches : Caches) where
  enqueue_valid_lem :
      {domains : List (Option SignedDomain)} {names : List Bytes} (w : World q)
      → HaveNames domains names
      → enqueue_valid u caches domains w ≡ (ret tt, after_adding w (valid_names u caches names))
  unfolding enqueue_valid
  enqueue_valid_lem w nil = refl
  enqueue_valid_lem w (cons signed domain e later) = ground (
    arith,
    enqueue_valid_lem w later,
    enqueue_valid_lem (after_adding w (domain.name ∷ [])) later,
  )

-- The second call of the API server, after the answer of the first.
abbrev pub second_call : ContactTimeConfigMap → ConfigMap → Result (Option ConfigMap) → List Call
second_call cm config_map (err e) =
    if is_not_found e then create_config_map cm.cm_namespace config_map ∷ [] else []
second_call cm config_map (ok none) = []
second_call cm config_map (ok (some found)) = update_config_map cm.cm_namespace config_map ∷ []

abbrev pub contact_time : ContactTimeConfigMap → Bytes → ConfigMap
contact_time cm etag = record { name = cm.cm_name; key = cm.cm_key; value = etag }

abbrev pub request_of : {q : WorkQueue} → World q → ZmsRequest
request_of w = record { domain = []; meta_only = codes "true"; matching_tag = w.etag }

module _ {q : WorkQueue} (server : Server) (cm : ContactTimeConfigMap) where
  abbrev pub after_contact : World q → Bytes → World q
  after_contact w etag = record w {
    calls =
        w.calls
        ++ (get_config_map cm.cm_namespace cm.cm_name ∷ [])
        ++ second_call cm (contact_time cm etag)
            (server.on_get_config_map w.calls cm.cm_namespace cm.cm_name);
  }

  put_contact_time_lem :
      (config_map : ConfigMap) (answer : Result (Option ConfigMap)) (w : World q)
      → put_contact_time server cm config_map answer w
        ≡ (ret tt, record w { calls = w.calls ++ second_call cm config_map answer })
  unfolding put_contact_time
  put_contact_time_lem config_map (err e) w = ground (arith, append-nil w.calls)
  put_contact_time_lem config_map (ok none) w = ground (arith, append-nil w.calls)
  put_contact_time_lem config_map (ok (some found)) w = refl

  -- Recording the contact time asks for the config map, and then creates it if the server does not
  -- find it, updates it if the server returns it, and otherwise leaves it alone. The value written is
  -- the etag under the configured name and key; the queue and the kept etag stay.
  pub update_athenz_contact_time_lem :
      (etag : Bytes) (w : World q)
      → update_athenz_contact_time server cm etag w ≡ (ret tt, after_contact w etag)
  unfolding update_athenz_contact_time
  update_athenz_contact_time_lem etag w = put_contact_time_lem (contact_time cm etag) _ _

  -- The world after an answer with an etag: an empty one changes nothing.
  abbrev pub after_etag : World q → Bytes → World q
  after_etag w etag = if etag == [] then w else after_contact (record w { etag = etag }) etag

module _ {q : WorkQueue} (u : Util) (caches : Caches) (server : Server)
    (zms : ZmsRequest → ZmsAnswer) (cm : ContactTimeConfigMap) where
  keep_etag_lem :
      (etag : Bytes) (w : World q)
      → keep_etag u caches server zms cm etag w ≡ (ret none, after_etag server cm w etag)
  unfolding keep_etag set_etag
  keep_etag_lem etag w =
      ground (arith, update_athenz_contact_time_lem server cm etag (record w { etag = etag }))

  -- The call returns. It asks with the kept etag. From an answer whose domains have names, exactly
  -- the valid ones enter the queue, in the order of the answer, and an etag that is not empty is kept
  -- and written to the config map.
  pub request_call_answered :
      (found : SignedDomains) (etag : Bytes) (names : List Bytes) (w : World q)
      → zms (request_of w) ≡ answered (some found) etag
      → HaveNames (items found.domains) names
      → request_call u caches server zms cm w
        ≡ (ret none, after_etag server cm (after_adding w (valid_names u caches names)) etag)
  unfolding request_call handle_answer
  request_call_answered found etag names w e named =
      rw (e, handle_answer, enqueue_valid_lem u caches w named) (keep_etag_lem etag _)

  -- If ZMS fails, the error is returned, for the retry, and nothing else happens: the etag is kept,
  -- so that the retry asks for the same changes.
  pub request_call_failed :
      (e : GoError) (w : World q)
      → zms (request_of w) ≡ failed e
      → request_call u caches server zms cm w
        ≡ (ret (some (wrapped (codes "Error getting latest updated domains from ZMS API") e)), w)
  unfolding request_call handle_answer
  request_call_failed e w h = rw (h, handle_answer)

  -- An answer without a body is only asked for its etag.
  pub request_call_nothing :
      (etag : Bytes) (w : World q)
      → zms (request_of w) ≡ answered none etag
      → request_call u caches server zms cm w ≡ (ret none, after_etag server cm w etag)
  unfolding request_call handle_answer
  request_call_nothing etag w h = rw (h, handle_answer) (keep_etag_lem etag w)

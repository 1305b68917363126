-- ===== src/Cron/Loops/Feed/Complete.antt =====
-- What the loop of the update cron takes in, and what it leaves behind.
use mathlib.Core.List.{append-nil}
use k8s_athenz_syncer.Common.{
  arith, ◌≡◌, ◌≢◌, ℕ, ◌⊎◌, refl, ap, sym, ◌∙◌, none, some, Option, List, [], ◌∷◌, ◌++◌, Bytes,
  codes, In, Any,
}
use k8s_athenz_syncer.Go.{ret}
use k8s_athenz_syncer.Util.{Util}
use k8s_athenz_syncer.WorkQueue.{WorkQueue, add_all, add_all-append}
use k8s_athenz_syncer.Cluster.{wrapped, GoError, Server, failed}
use k8s_athenz_syncer.World.{World, after_adding, continue}
use k8s_athenz_syncer.Cron.{ContactTimeConfigMap, request_call}
use k8s_athenz_syncer.Cron.Request.{
  valid_names, after_etag, request_of, request_call_answered, request_call_failed,
  request_call_nothing,
}
use k8s_athenz_syncer.Cron.Loops.{Attempt, Wake, due, after_attempt, retry_notify, update_cron}
use k8s_athenz_syncer.Cron.Loops.Feed.{
  Feed, IsFeed, Seen, asks, Polls, gives_up, fails, sends, unchanged, Follows, ends, stops, polls,
  all_valid, PassedOver, Follows-sees, all_valid-append, sees-found,
}

module _ {q : WorkQueue} (u : Util) (server : Server) (cm : ContactTimeConfigMap) where
  -- What follows on a world when the answers seen are taken in up to a state.
  abbrev pub TakesIn : Feed → ℕ → List Seen → World q → World q → Type 0
  TakesIn feed n seen w after =
      (after.etag ≡ feed.tag n) × (after.queue ≡ add_all q w.queue (all_valid u seen))

  retry_failed :
      (attempt : Attempt) (rest : List Attempt) (e : GoError) (r : Option GoError) (w : World q)
      → attempt.zms (request_of w) ≡ failed e
      → (retry_notify u server cm rest w).0 ≡ ret r
      → (result : Option GoError) × (retry_notify u server cm (attempt ∷ rest) w
          ≡ (ret result, (retry_notify u server cm rest w).1))
  unfolding retry_notify after_attempt
  retry_failed attempt [] e r w fail ran = (
    some (wrapped (codes "Error getting latest updated domains from ZMS API") e),
    rw (request_call_failed u attempt.caches server attempt.zms cm e w fail) refl,
  )
  retry_failed attempt (next ∷ rest) e r w fail ran = (
    r,
    rw (request_call_failed u attempt.caches server attempt.zms cm e w fail)
        (ap (λ o. (o, (retry_notify u server cm (next ∷ rest) w).1)) ran),
  )

  taken_in :
      (feed : Feed) (n : ℕ) (seen : List Seen) (w now after : World q)
      → now ≡ after
      → TakesIn feed n seen w after
      → TakesIn feed n seen w now
  taken_in feed n seen w now after e (etag, queue) =
      (ap (λ t. t.etag) e ∙ etag, ap (λ t. t.queue) e ∙ queue)

  etag_after : (etag : Bytes) (w : World q) → etag ≢ [] → (after_etag server cm w etag).etag ≡ etag
  etag_after etag w nonempty = ground (arith, nonempty)

  queue_after : (etag : Bytes) (w : World q) → (after_etag server cm w etag).queue ≡ w.queue
  queue_after etag w = ground arith

  nothing_after : (w : World q) → after_etag server cm w [] ≡ w
  nothing_after w = ground arith

  retry_answered :
      (attempt : Attempt) (rest : List Attempt) (w after : World q)
      → request_call u attempt.caches server attempt.zms cm w ≡ (ret none, after)
      → retry_notify u server cm (attempt ∷ rest) w ≡ (ret none, after)
  unfolding retry_notify after_attempt
  retry_answered attempt rest w after e = rw e refl

  retry_notify-Polls :
      {feed : Feed} {k n : ℕ} {attempts : List Attempt} {seen : List Seen} (lawful : IsFeed feed)
      (w : World q)
      → Polls feed k attempts n seen
      → w.etag ≡ feed.tag k
      → (result : Option GoError) × ((retry_notify u server cm attempts w).0 ≡ ret result)
        × TakesIn feed n seen w (retry_notify u server cm attempts w).1
  unfolding retry_notify
  retry_notify-Polls lawful w (gives_up k) kept = (none, refl, (kept, refl))
  retry_notify-Polls {feed} {k} {n} {attempts} {seen} lawful w
        (fails {rest = rest} attempt e failure later) kept =
      let (r, ran, takes) = retry_notify-Polls lawful w later kept in
      let (result, goes) =
        retry_failed attempt rest e r w (ap (λ t. attempt.zms (asks t)) kept ∙ failure) ran in
      (result, ap (λ p. p.0) goes, taken_in feed n seen w _ _ (ap (λ p. p.1) goes) takes)
  retry_notify-Polls {feed} {k} {n} lawful w (sends attempt rest found le answer named) kept =
      let valid = valid_names u attempt.caches (feed.changed k n) in
      let goes = retry_answered attempt rest w _ (
        request_call_answered u attempt.caches server attempt.zms cm found (feed.tag n)
          (feed.changed k n) w (ap (λ t. attempt.zms (asks t)) kept ∙ answer) named) in
      (
        none,
        ap (λ p. p.0) goes,
        taken_in feed n ((attempt.caches, feed.changed k n) ∷ []) w _ _ (ap (λ p. p.1) goes) (
          etag_after (feed.tag n) (after_adding w valid) (lawful.tag-some n),
          queue_after (feed.tag n) (after_adding w valid)
              ∙ ap (add_all q w.queue) (sym (append-nil valid)),
        ),
      )
  retry_notify-Polls {feed} {k} lawful w (unchanged attempt rest answer) kept =
      let goes = retry_answered attempt rest w _ (
        request_call_nothing u attempt.caches server attempt.zms cm [] w
          (ap (λ t. attempt.zms (asks t)) kept ∙ answer)) in
      (
        none,
        ap (λ p. p.0) goes,
        taken_in feed k [] w _ w (ap (λ p. p.1) goes ∙ nothing_after w) (kept, refl),
      )

  cron_round :
      (attempt : Attempt) (retries : List Attempt) (rest : List (Wake (Attempt × List Attempt)))
      (r : Option GoError) (w : World q)
      → (retry_notify u server cm (attempt ∷ retries) w).0 ≡ ret r
      → update_cron u server cm (due (attempt, retries) ∷ rest) w
        ≡ update_cron u server cm rest (retry_notify u server cm (attempt ∷ retries) w).1
  unfolding update_cron
  cron_round attempt retries rest r w ran =
      ap
        (λ o.
          (continue (λ result. update_cron u server cm rest)
            (o, (retry_notify u server cm (attempt ∷ retries) w).1)))
        ran

  update_cron-Follows :
      {feed : Feed} {k n : ℕ} {wakes : List (Wake (Attempt × List Attempt))} {seen : List Seen}
      (lawful : IsFeed feed) (w : World q)
      → Follows feed k wakes n seen
      → w.etag ≡ feed.tag k
      → ((update_cron u server cm wakes w).0 ≡ ret tt)
        × TakesIn feed n seen w (update_cron u server cm wakes w).1
  unfolding update_cron
  update_cron-Follows lawful w (ends k) kept = (refl, (kept, refl))
  update_cron-Follows lawful w (stops k rest) kept = (refl, (kept, refl))
  update_cron-Follows {feed} {k} {n} lawful w
        (polls {m = m} {attempt = attempt} {retries = retries} {rest = rest} {seen = seen}
          {later = later} round after)
        kept =
      let (r, ran, (etag, queue)) = retry_notify-Polls lawful w round kept in
      let next = cron_round attempt retries rest r w ran in
      let (returns, (etag', queue')) =
        update_cron-Follows lawful (retry_notify u server cm (attempt ∷ retries) w).1 after etag in
      (
        ap (λ p. p.0) next ∙ returns,
        taken_in feed n (seen ++ later) w _ _ (ap (λ p. p.1) next) (
          etag',
          queue'
              ∙ ap (λ t. add_all q t (all_valid u later)) queue
              ∙ sym (add_all-append q w.queue (all_valid u seen) (all_valid u later))
              ∙ ap (add_all q w.queue) (sym (all_valid-append u seen later)),
        ),
      )

  -- No change in ZMS is lost by the update cron, however long ZMS fails in between: the loop returns,
  -- and a domain that changed between the state of the etag at the start and that of the etag in the
  -- end was put into the queue, or was not valid by the caches at the time of the answer that had it.
  -- Exactly the valid names of the answers are put into the queue, in their order. An attempt fails,
  -- or is answered with the changes since the etag that it sends and the etag of a later state, or
  -- with no body and no etag. A domain that changed up to a state and beyond changed in one of the
  -- two parts.
  pub update_cron_complete :
      (feed : Feed) (lawful : IsFeed feed) (k n : ℕ) (wakes : List (Wake (Attempt × List Attempt)))
      (seen : List Seen) (w : World q) (domain : Bytes)
      → w.etag ≡ feed.tag k
      → Follows feed k wakes n seen
      → In domain (feed.changed k n)
      → ((update_cron u server cm wakes w).0 ≡ ret tt)
        × TakesIn feed n seen w (update_cron u server cm wakes w).1
        × (In domain (all_valid u seen) ⊎ Any (PassedOver u domain) seen)
  update_cron_complete feed lawful k n wakes seen w domain kept follows i =
      let (returns, takes) = update_cron-Follows lawful w follows kept in
      (returns, takes, sees-found u domain seen (Follows-sees lawful domain follows i))

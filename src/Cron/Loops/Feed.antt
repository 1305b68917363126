-- ===== src/Cron/Loops/Feed.antt =====
-- The update cron as a reader of the changes in ZMS, by the etag that it keeps.
pub mod Complete
use mathlib.Core.Bool.{Bool-discrete}
use mathlib.Core.Logic.{ite}
use mathlib.Core.List.{append-nil, append_assoc}
use k8s_athenz_syncer.Common.{
  arith, ◌≡◌, ◌≢◌, ◌≤◌, ℕ, ◌⊎◌, inl, inr, true, false, refl, ap, sym, ◌∙◌, none, some, Option, List,
  [], ◌∷◌, ◌++◌, Bytes, codes, In, Any, Any-append_left, Any-append_right, Bool-cases,
}
use k8s_athenz_syncer.Go.{ret, items}
use k8s_athenz_syncer.Util.{Util}
use k8s_athenz_syncer.WorkQueue.{WorkQueue, add_all, add_all-append}
use k8s_athenz_syncer.Cluster.{
  wrapped, GoError, Caches, Server, SignedDomains, ZmsRequest, answered, failed,
}
use k8s_athenz_syncer.World.{World, after_adding, continue}
use k8s_athenz_syncer.Cron.{ContactTimeConfigMap, validate_domain, request_call}
use k8s_athenz_syncer.Cron.Request.{
  HaveNames, valid_names, after_etag, request_of, request_call_answered, request_call_failed,
  request_call_nothing,
}
use k8s_athenz_syncer.Cron.Loops.{
  Attempt, Wake, stopped, due, after_attempt, retry_notify, update_cron,
}

-- ZMS in states that are counted: the etag of a state, and the domains that changed between two.
pub record Feed : Type 0 where
  pub tag : ℕ → Bytes
  pub changed : ℕ → ℕ → List Bytes

pub record IsFeed (feed : Feed) : Type 0 where
  pub tag-some : (k : ℕ) → feed.tag k ≢ []
  pub changed-none : (k : ℕ) (domain : Bytes) → ¬ In domain (feed.changed k k)
  pub changed-split :
      (k m n : ℕ) (domain : Bytes)
      → k ≤ m
      → m ≤ n
      → In domain (feed.changed k n)
      → In domain (feed.changed k m) ⊎ In domain (feed.changed m n)

-- An answer that a round got: the caches at the time, and the names in it.
abbrev pub Seen : Type 0
Seen = Caches × List Bytes

abbrev pub asks : Bytes → ZmsRequest
asks etag = record { domain = []; meta_only = codes "true"; matching_tag = etag }

-- The attempts of a round that starts with the etag of one state: ZMS fails, up to an answer with the
-- changes up to its state, or that there are none. With the state of the last answer, and what it was.
pub data Polls (feed : Feed) : ℕ → List Attempt → ℕ → List Seen → Type 0 where
  gives_up : (k : ℕ) → Polls feed k [] k []
  fails :
      {k n : ℕ} {rest : List Attempt} {seen : List Seen} (attempt : Attempt) (e : GoError)
      → attempt.zms (asks (feed.tag k)) ≡ failed e
      → Polls feed k rest n seen
      → Polls feed k (attempt ∷ rest) n seen
  sends :
      {k n : ℕ} (attempt : Attempt) (rest : List Attempt) (found : SignedDomains)
      → k ≤ n
      → attempt.zms (asks (feed.tag k)) ≡ answered (some found) (feed.tag n)
      → HaveNames (items found.domains) (feed.changed k n)
      → Polls feed k (attempt ∷ rest) n ((attempt.caches, feed.changed k n) ∷ [])
  unchanged :
      {k : ℕ} (attempt : Attempt) (rest : List Attempt)
      → attempt.zms (asks (feed.tag k)) ≡ answered none []
      → Polls feed k (attempt ∷ rest) k []

-- The rounds of the loop, each from the state at which the one before it ended.
pub data Follows (feed : Feed)
    : ℕ → List (Wake (Attempt × List Attempt)) → ℕ → List Seen → Type 0 where
  ends : (k : ℕ) → Follows feed k [] k []
  stops :
      (k : ℕ) (rest : List (Wake (Attempt × List Attempt))) → Follows feed k (stopped ∷ rest) k []
  polls :
      {k m n : ℕ} {attempt : Attempt} {retries : List Attempt}
      {rest : List (Wake (Attempt × List Attempt))} {seen later : List Seen}
      → Polls feed k (attempt ∷ retries) m seen
      → Follows feed m rest n later
      → Follows feed k (due (attempt, retries) ∷ rest) n (seen ++ later)

-- The names of the answers that are valid by the caches at the time.
abbrev pub all_valid : Util → List Seen → List Bytes
all_valid u [] = []
all_valid u ((caches, names) ∷ seen) = valid_names u caches names ++ all_valid u seen

-- The domain was in an answer at a time when it was not valid.
abbrev pub PassedOver : Util → Bytes → Seen → Type 0
PassedOver u domain (caches, names) = In domain names × (validate_domain u caches domain ≡ false)

Polls-le :
    {feed : Feed} {k n : ℕ} {attempts : List Attempt} {seen : List Seen}
    → Polls feed k attempts n seen
    → k ≤ n
Polls-le (gives_up k) = omega arith
Polls-le (fails attempt e failure rest) = Polls-le rest
Polls-le (sends attempt rest found le answer named) = le
Polls-le (unchanged attempt rest answer) = omega arith

Follows-le :
    {feed : Feed} {k n : ℕ} {wakes : List (Wake (Attempt × List Attempt))} {seen : List Seen}
    → Follows feed k wakes n seen
    → k ≤ n
Follows-le (ends k) = omega arith
Follows-le (stops k rest) = omega arith
Follows-le (polls round later) = omega (arith, Polls-le round, Follows-le later)

Polls-sees :
    {feed : Feed} {k n : ℕ} {attempts : List Attempt} {seen : List Seen} (lawful : IsFeed feed)
    (domain : Bytes)
    → Polls feed k attempts n seen
    → In domain (feed.changed k n)
    → Any (λ s. In domain s.1) seen
Polls-sees lawful domain (gives_up k) i = absurd (lawful.changed-none k domain i)
Polls-sees lawful domain (fails attempt e failure rest) i = Polls-sees lawful domain rest i
Polls-sees lawful domain (sends attempt rest found le answer named) i = inl i
Polls-sees {k = k} lawful domain (unchanged attempt rest answer) i =
    absurd (lawful.changed-none k domain i)

Follows-sees :
    {feed : Feed} {k n : ℕ} {wakes : List (Wake (Attempt × List Attempt))} {seen : List Seen}
    (lawful : IsFeed feed) (domain : Bytes)
    → Follows feed k wakes n seen
    → In domain (feed.changed k n)
    → Any (λ s. In domain s.1) seen
Follows-sees lawful domain (ends k) i = absurd (lawful.changed-none k domain i)
Follows-sees lawful domain (stops k rest) i = absurd (lawful.changed-none k domain i)
Follows-sees lawful domain (polls {k} {m} {n} {attempt} {retries} {rest} {seen} {later} round after)
      i =
    elim (lawful.changed-split k m n domain (Polls-le round) (Follows-le after) i) [
      | inl early ↦
          Any-append_left (λ s. In domain s.1) seen later (Polls-sees lawful domain round early)
      | inr late ↦
          Any-append_right (λ s. In domain s.1) seen later (Follows-sees lawful domain after late)
    ]

module _ (u : Util) where
  In-valid_names :
      (caches : Caches) (names : List Bytes) (domain : Bytes)
      → In domain names
      → validate_domain u caches domain ≡ true
      → In domain (valid_names u caches names)
  In-valid_names caches [] domain i valid = absurd i
  In-valid_names caches (name ∷ names) domain (inl same) valid =
      elim (Bool-discrete (validate_domain u caches name) true)
        as (λ d. In domain (
          ite {C = List Bytes} d (name ∷ valid_names u caches names)
            (valid_names u caches names))) [
              | yes _ ↦ inl same
              | no not ↦ absurd (not (ap (validate_domain u caches) same ∙ valid))
            ]
  In-valid_names caches (name ∷ names) domain (inr i) valid =
      elim (Bool-discrete (validate_domain u caches name) true)
        as (λ d. In domain (
          ite {C = List Bytes} d (name ∷ valid_names u caches names)
            (valid_names u caches names))) [
              | yes _ ↦ inr (In-valid_names caches names domain i valid)
              | no _ ↦ In-valid_names caches names domain i valid
            ]

  all_valid-append :
      (seen later : List Seen) → all_valid u (seen ++ later) ≡ all_valid u seen ++ all_valid u later
  all_valid-append [] later = refl
  all_valid-append ((caches, names) ∷ seen) later =
      ap (λ found. valid_names u caches names ++ found) (all_valid-append seen later)
      ∙ sym (append_assoc (valid_names u caches names) (all_valid u seen) (all_valid u later))

  sees-found :
      (domain : Bytes) (seen : List Seen)
      → Any (λ s. In domain s.1) seen
      → In domain (all_valid u seen) ⊎ Any (PassedOver u domain) seen
  sees-found domain [] i = absurd i
  sees-found domain ((caches, names) ∷ seen) (inl i) =
      elim (Bool-cases (validate_domain u caches domain)) [
        | inl valid ↦ inl (
            Any-append_left (λ name. name ≡ domain) (valid_names u caches names) _
              (In-valid_names caches names domain i valid))
        | inr gone ↦ inr (inl (i, gone))
      ]
  sees-found domain ((caches, names) ∷ seen) (inr i) = elim (sees-found domain seen i) [
    | inl found ↦
        inl (Any-append_right (λ name. name ≡ domain) (valid_names u caches names) _ found)
    | inr passed ↦ inr (inr passed)
  ]

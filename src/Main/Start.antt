-- ===== src/Main/Start.antt =====
-- What a start that gets as far as the controller has made of the flags.
use k8s_athenz_syncer.Common.{
  ℕ, sym, Any, In, ◌≡◌, ◌≢◌, ◌↔◌, true, List, [], ◌∷◌, arith, Bytes, bytes_eq, contains,
}
use k8s_athenz_syncer.Go.{ret, >>=-eq-ret}
use k8s_athenz_syncer.GoStrings.{split, trim_space}
use k8s_athenz_syncer.Util.{new_util, is_system_namespace, is_namespace_excluded}
use k8s_athenz_syncer.Util.Domains.{is_namespace_excluded-new_util, is_system_namespace-contains}
use k8s_athenz_syncer.Cluster.{Result, ok, err}
use k8s_athenz_syncer.Main.{
  Flags, Outside, Setup, no_error, value, comma, process, process_list, exclude, exclusion_list,
  authenticate, setup, with_periods, assemble, util_of, ZmsClient,
}

contains-process :
    (parts : List Bytes) (ns : Bytes)
    → (contains (process parts) ns ≡ true) ↔ ((ns ≢ []) × In ns parts)
unfolding process
contains-process [] ns = (λ h. absurd cc, λ h. absurd h.1)
contains-process (part ∷ parts) ns =
    let (there, back) = contains-process parts ns in
    (λ h. (ground (arith, there), ground (arith, there)), λ h. ground (arith, back))

contains-exclude :
    (parts : List Bytes) (ns : Bytes)
    → (contains (exclude parts) ns ≡ true) ↔ ((ns ≢ []) × Any (λ part. trim_space part ≡ ns) parts)
unfolding exclude
contains-exclude [] ns = (λ h. absurd cc, λ h. absurd h.1)
contains-exclude (part ∷ parts) ns =
    let (there, back) = contains-exclude parts ns in
    (λ h. (ground (arith, there), ground (arith, there)), λ h. ground (arith, back))

ret_inj {ℓ} : {A : Type ℓ} {a b : A} → ret a ≡ ret b → a ≡ b
ret_inj h = ground (arith, h)

value-ret {ℓ} : {A : Type ℓ} (r : Result A) (a : A) → value r ≡ ret a → r ≡ ok a
value-ret (err e) a h = absurd cc
value-ret (ok b) a h = ground (arith, h)

-- The parts that with_periods has put together.
abbrev IsAssembled : Outside → Flags → ZmsClient → Setup → Type 0
IsAssembled outside flags client s =
    (update : ℕ) × (resync : ℕ) × (delay : ℕ) × (outside.parse_duration flags.update_cron
      ≡ ok update)
    × (outside.parse_duration flags.resync_cron ≡ ok resync)
    × (outside.parse_duration flags.queue_delay_interval ≡ ok delay)
    × (assemble flags client update resync delay ≡ s)

with_periods-IsAssembled :
    (outside : Outside) (flags : Flags) (client : ZmsClient) (s : Setup)
    → with_periods outside flags client ≡ ret s
    → IsAssembled outside flags client s
unfolding with_periods
with_periods-IsAssembled outside flags client s h =
    let (update, e3, h3) = >>=-eq-ret (value (outside.parse_duration flags.update_cron)) _ h in
    let (resync, e4, h4) = >>=-eq-ret (value (outside.parse_duration flags.resync_cron)) _ h3 in
    let (delay, e5, h5) =
      >>=-eq-ret (value (outside.parse_duration flags.queue_delay_interval)) _ h4 in
    (
      update,
      resync,
      delay,
      value-ret _ update e3,
      value-ret _ resync e4,
      value-ret _ delay e5,
      ret_inj h5,
    )

setup-IsAssembled :
    (outside : Outside) (flags : Flags) (s : Setup)
    → setup outside flags ≡ ret s
    → (client : ZmsClient) × IsAssembled outside flags client s
unfolding setup
setup-IsAssembled outside flags s h =
    let (failure, e0, h0) = >>=-eq-ret outside.clients _ h in
    let (given, e1, h1) = >>=-eq-ret (no_error failure) _ h0 in
    let (client, e2, h2) = >>=-eq-ret (authenticate outside flags flags.use_n_token) _ h1 in
    (client, with_periods-IsAssembled outside flags client s h2)

pub util_of-is_system_namespace :
    (flags : Flags) (ns : Bytes)
    → (is_system_namespace (util_of flags) ns ≡ true)
      ↔ ((ns ≢ []) × In ns (split flags.system_namespaces comma))
unfolding util_of process_list new_util
util_of-is_system_namespace flags ns =
    rw (is_system_namespace-contains (util_of flags) ns)
      (contains-process (split flags.system_namespaces comma) ns)

pub util_of-is_namespace_excluded :
    (flags : Flags) (ns : Bytes)
    → (is_namespace_excluded (util_of flags) ns ≡ true)
      ↔ ((ns ≢ []) × Any (λ part. trim_space part ≡ ns) (split flags.exclude_namespaces comma))
unfolding util_of exclusion_list
util_of-is_namespace_excluded flags ns =
    rw
      (is_namespace_excluded-new_util flags.admin_domain (process_list flags.system_namespaces)
        (exclude (split flags.exclude_namespaces comma)) flags.exclude_msd_rules ns)
      (contains-exclude (split flags.exclude_namespaces comma) ns)

-- A start that gets as far as the controller has had its clients and three durations that parse. The
-- system namespaces are the items of their flag between commas, as they stand, and the excluded ones
-- the items of theirs with the space around them removed; an empty item is neither.
setup-ret :
    (outside : Outside) (flags : Flags) (s : Setup)
    → setup outside flags ≡ ret s
    → (outside.parse_duration flags.update_cron ≡ ok s.update_period)
      × (outside.parse_duration flags.resync_cron ≡ ok s.resync_period)
      × (outside.parse_duration flags.queue_delay_interval ≡ ok s.delay_interval)
      × ((ns : Bytes)
          → (is_system_namespace s.util ns ≡ true)
            ↔ ((ns ≢ []) × In ns (split flags.system_namespaces comma)))
      × ((ns : Bytes)
          → (is_namespace_excluded s.util ns ≡ true) ↔ (
              (ns ≢ [])
              × Any (λ part. trim_space part ≡ ns) (split flags.exclude_namespaces comma)))
unfolding assemble
setup-ret outside flags s h =
    let (client, (update, resync, delay, e3, e4, e5, same)) = setup-IsAssembled outside flags s h in
    rw (sym same)
      (e3, e4, e5, util_of-is_system_namespace flags, util_of-is_namespace_excluded flags)

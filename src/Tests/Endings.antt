-- ===== src/Tests/Endings.antt =====
-- How the process ends, and how it gets there.
use k8s_athenz_syncer.Common.{ℕ_discrete, bytes_discrete, ◌≡◌, refl, true, false}
use k8s_athenz_syncer.Go.{ret}
use k8s_athenz_syncer.World.{World}
use k8s_athenz_syncer.Util.{get_system_ns_domains, namespace_to_domain, is_system_namespace}
use k8s_athenz_syncer.Controller.Worker.{start}
use k8s_athenz_syncer.CrUtil.{get_latest_timestamp}
use k8s_athenz_syncer.Cron.{set_etag, add_admin_system_domains}
use k8s_athenz_syncer.WorkQueue.Fifo.{fifo_queue}
use k8s_athenz_syncer.System.Lifecycle.{
  Process, ended, closed, returning, working, looking, Moves, here, then_by, launched, signalled,
  close_stop, exit, synced, look_on,
}
use k8s_athenz_syncer.System.Lifecycle.Unending.{working_never_ends}
use k8s_athenz_syncer.Tests.Samples.{empty_caches}
use k8s_athenz_syncer.Tests.Runs.{setting}
use k8s_athenz_syncer.Tests.Deliveries.{quiet}

abbrev ready : World fifo_queue
ready = (start setting.util setting.format true empty_caches quiet).1

start_returns : (start setting.util setting.format true empty_caches quiet).0 ≡ ret tt
unfolding start get_latest_timestamp set_etag add_admin_system_domains bytes_discrete
    get_system_ns_domains namespace_to_domain is_system_namespace ℕ_discrete
start_returns = refl

abbrev at_work : Process fifo_queue
at_work = record (launched quiet.queue) { run = working; world = ready }

begins : Moves setting (launched quiet.queue) at_work
begins =
    then_by (then_by here (synced empty_caches (launched quiet.queue) refl refl start_returns))
      (look_on (record (launched quiet.queue) { run = looking; world = ready }) refl refl refl)

-- SIGTERM, while the worker waits for a key.
abbrev killed : Process fifo_queue
killed = record at_work { main = ended; stop_closed = true }

is_killed : Moves setting at_work killed
is_killed =
    then_by
      (then_by (then_by here (signalled at_work refl))
        (close_stop (record at_work { main = returning }) refl))
      (exit (record at_work { main = closed; stop_closed = true }) refl)

working_never_ends_example : (killed.run ≡ working) × (killed.shut_down ≡ false)
working_never_ends_example =
    working_never_ends setting quiet.queue at_work killed begins refl is_killed
